-- ===== src/Plan/Opportunity.antt =====
-- src/plan-runtime.ts: `PredictionOpportunity`, the owner of the outcome of one prediction.
use pi_speculative_action.Prelude.{
  Bool, true, false, ◌&&◌, Option, none, some, String, String_discrete, List, [], ◌∷◌,
  if◌then◌else◌, ◌==◌, ◌≡◌, refl, sym, arith, Option-cases, Bool-cases, ◌⊎◌, inl, inr,
}
use pi_speculative_action.Settlement.{
  ResolutionCause, PlanActionIdentity, ActorActionIdentity, ActionKeyMatch, PredictionAdoption,
  PredictionSettlement, matched, missed, unobserved,
}

pub data OpportunityState : Type 0 where
  pending : OpportunityState
  matching : ActorActionIdentity → ActionKeyMatch → OpportunityState
  settled : PredictionSettlement → OpportunityState

pub record Opportunity : Type 0 where
  pub identity : PlanActionIdentity
  pub state : OpportunityState

bool_eq : Bool → Bool → Bool
bool_eq true b = b
bool_eq false true = false
bool_eq false false = true

text_eq : String → String → Bool
text_eq a b = elim (String_discrete a b) [ yes _ ↦ true | no _ ↦ false ]

-- The decision sequence takes no part.
unfoldable pub same_actor_action : ActorActionIdentity → ActorActionIdentity → Bool
unfolding bool_eq text_eq
same_actor_action left right =
    bool_eq left.is_operation right.is_operation
    && text_eq left.id right.id
    && left.sequence == right.sequence
    && text_eq left.turn_id right.turn_id

unfoldable pub claim : ActorActionIdentity → ActionKeyMatch → Opportunity → Opportunity × Bool
claim actor relation o = elim o.state [
  | pending ↦ (record o { state = matching actor relation }, true)
  | _ ↦ (o, false)
]

settle_with : PredictionSettlement → Opportunity → Opportunity × Option PredictionSettlement
settle_with s o = (record o { state = settled s }, some s)

-- The settlement keeps the action that claimed, and the relation of the claim.
unfoldable pub confirm :
    ActorActionIdentity
    → PredictionAdoption
    → Opportunity
    → Opportunity × Option PredictionSettlement
unfolding settle_with
confirm actor adoption o = elim o.state [
  | matching claimed relation ↦
      if same_actor_action claimed actor
      then settle_with
          (record { prediction = o.identity; outcome = matched claimed relation adoption }) o
      else (o, none)
  | _ ↦ (o, none)
]

unfoldable pub miss : ActorActionIdentity → Opportunity → Opportunity × Option PredictionSettlement
unfolding settle_with
miss actor o = elim o.state [
  | pending ↦ settle_with (record { prediction = o.identity; outcome = missed actor }) o
  | _ ↦ (o, none)
]

unfoldable pub unobserve : ResolutionCause → Opportunity → Opportunity × Option PredictionSettlement
unfolding settle_with
unobserve cause o = elim o.state [
  | pending ↦ settle_with (record { prediction = o.identity; outcome = unobserved cause }) o
  | _ ↦ (o, none)
]

-- The calls of the class, and what each returns of settlements.
pub data OpportunityCall : Type 0 where
  claims : ActorActionIdentity → ActionKeyMatch → OpportunityCall
  confirms : ActorActionIdentity → PredictionAdoption → OpportunityCall
  misses : ActorActionIdentity → OpportunityCall
  unobserves : ResolutionCause → OpportunityCall

unfoldable pub call : OpportunityCall → Opportunity → Opportunity × Option PredictionSettlement
unfolding claim confirm miss unobserve
call (claims actor relation) o = ((claim actor relation o).0, none)
call (confirms actor adoption) o = confirm actor adoption o
call (misses actor) o = miss actor o
call (unobserves cause) o = unobserve cause o

with_settlement :
    Option PredictionSettlement → List PredictionSettlement → List PredictionSettlement
with_settlement none ss = ss
with_settlement (some s) ss = s ∷ ss

-- The settlements that a run returns, in order, and the last state.
unfoldable pub run : List OpportunityCall → Opportunity → Opportunity × List PredictionSettlement
unfolding with_settlement
run [] o = (o, [])
run (c ∷ cs) o =
    let (o', s) = call c o in let (last, ss) = run cs o' in (last, with_settlement s ss)

-- The settlement of a state, as a list of at most one.
unfoldable pub outcome_of : OpportunityState → List PredictionSettlement
outcome_of (settled s) = s ∷ []
outcome_of _ = []

call-settled :
    (c : OpportunityCall) (o : Opportunity) (s : PredictionSettlement)
    → o.state ≡ settled s
    → ((call c o).0.state ≡ settled s) × ((call c o).1 ≡ none)
unfolding call same_actor_action
call-settled (claims actor relation) o s e = ground arith
call-settled (confirms actor adoption) o s e = ground arith
call-settled (misses actor) o s e = ground arith
call-settled (unobserves cause) o s e = ground arith

run-settled :
    (cs : List OpportunityCall) (o : Opportunity) (s : PredictionSettlement)
    → o.state ≡ settled s
    → ((run cs o).0.state ≡ settled s) × ((run cs o).1 ≡ [])
unfolding run
run-settled [] o s e = (e, refl)
run-settled (c ∷ cs) o s e =
    let (kept, silent) = call-settled c o s e in
    let (last, none_left) = run-settled cs (call c o).0 s kept in (last, rw silent none_left)

call_settles :
    (c : OpportunityCall) (o : Opportunity) (s : PredictionSettlement)
    → (call c o).1 ≡ some s
    → ((call c o).0.state ≡ settled s) × (s.prediction ≡ o.identity)
unfolding call same_actor_action
call_settles (claims actor relation) o s e = cc
call_settles (confirms actor adoption) o s e = ground arith
call_settles (misses actor) o s e = ground arith
call_settles (unobserves cause) o s e = ground arith

call_silent :
    (c : OpportunityCall) (o : Opportunity)
    → outcome_of o.state ≡ []
    → (call c o).1 ≡ none
    → outcome_of (call c o).0.state ≡ []
unfolding call same_actor_action outcome_of
call_silent (claims actor relation) o h e = ground arith
call_silent (confirms actor adoption) o h e = ground arith
call_silent (misses actor) o h e = ground arith
call_silent (unobserves cause) o h e = ground arith

-- Whatever calls an opportunity that is not settled gets, in any order, it returns a settlement at
-- most once: the settlements returned are the one that its last state holds, if it holds one.
pub run-outcome_of :
    (cs : List OpportunityCall) (o : Opportunity)
    → outcome_of o.state ≡ []
    → (run cs o).1 ≡ outcome_of (run cs o).0.state
unfolding run
run-outcome_of [] o h = sym h
run-outcome_of (c ∷ cs) o h = elim (Option-cases (call c o).1) [
  | inl e ↦ rw e (run-outcome_of cs (call c o).0 (call_silent c o h e))
  | inr (s, e) ↦
      let (kept, settles) = call_settles c o s e in
      let (last, silent) = run-settled cs (call c o).0 s kept in
      rw (e, last, silent) (unfold outcome_of in refl)
]

-- A claim lasts: only a confirmation by the same action settles it, with that action, the relation
-- that was claimed and the adoption that is confirmed.
pub call-matching :
    (c : OpportunityCall) (o : Opportunity) (actor : ActorActionIdentity)
    (relation : ActionKeyMatch)
    → o.state ≡ matching actor relation
    → ((call c o).0.state ≡ matching actor relation)
      ⊎ ((by : ActorActionIdentity) × (adoption : PredictionAdoption) × (c ≡ confirms by adoption)
          × (same_actor_action actor by ≡ true)
          × ((call c o).1
              ≡ some
                  (record { prediction = o.identity; outcome = matched actor relation adoption })))
unfolding call
call-matching (claims other r) o actor relation e = inl (ground arith)
call-matching (confirms by adoption) o actor relation e =
    elim (Bool-cases (same_actor_action actor by)) [
      | inl same ↦ inr (by, adoption, refl, same, ground arith)
      | inr other ↦ inl (ground arith)
    ]
call-matching (misses other) o actor relation e = inl (ground arith)
call-matching (unobserves cause) o actor relation e = inl (ground arith)
