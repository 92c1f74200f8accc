-- ===== src/Semantics.antt =====
-- src/action-semantics.ts: keys of actions and the projectors that relate them. A projector that
-- throws gives what it gives for no result.
pub mod Matching
pub mod ReadRange
pub mod Ranges
mod Examples
use pi_speculative_action.Prelude.{
  ℕ, ◌+◌, ◌-◌, ◌*◌, ◌/◌, ◌<◌, max, Bool, true, false, ◌&&◌, ◌||◌, not, Option, none, some, String,
  String_discrete, List, [], ◌∷◌, has, get, if◌then◌else◌, leb, ltb, ◌==◌, ◌>>=◌, ◌>>◌, require,
  ◌≡◌,
}
use pi_speculative_action.Numbers.{Number, unit, max_safe_integer}
use pi_speculative_action.Settlement.{ActionKeyMatch, exact_match, projected}

-- A field of an input; `opaque` stands for every other value.
pub data Value : Type 0 where
  text : String → Value
  number : Number → Value
  opaque : Value

-- The fields that relations of keys read.
pub record ActionKey : Type 0 where
  pub key : String
  pub tool : String
  pub input : List (String × Value)
  pub resources : List String
  pub semantics_epoch : String
  pub schema_hash : String
  pub execution_fingerprint : String

pub record ProjectedActionKey : Type 0 where
  pub action : ActionKey
  pub distance : Number

pub record ActionKeyProjector : Type 0 where
  pub id : String
  pub partition : ActionKey → Option String
  pub project : ActionKey → ActionKey → Option ProjectedActionKey
  pub can_share_in_flight : Option (ActionKey → ActionKey → Bool)

unfoldable pub same : String → String → Bool
same a b = elim (String_discrete a b) [ yes _ ↦ true | no _ ↦ false ]

-- The second test of `actionKeyMatch`, negated.
pub same_contract : ActionKey → ActionKey → Bool
same_contract speculative actor =
    same speculative.tool actor.tool
    && same speculative.semantics_epoch actor.semantics_epoch
    && same speculative.schema_hash actor.schema_hash
    && same speculative.execution_fingerprint actor.execution_fingerprint

shares : Option (ActionKey → ActionKey → Bool) → ActionKey → ActionKey → Bool
shares none speculative actor = false
shares (some share) speculative actor = share speculative actor

-- A distance in units, where it is finite and not negative.
measured : Number → Option ℕ
measured (Number.finite_pos n) = some n
measured _ = none

-- The tests of a turn but the last, with the distance of a projection that passes them.
pub projection : Bool → ActionKey → ActionKey → ActionKeyProjector → Option ℕ
unfolding shares measured
projection require_coverage speculative actor projector =
    if require_coverage && not (shares projector.can_share_in_flight speculative actor)
    then none
    else do
      p ← projector.project speculative actor
      if same p.action.key actor.key then measured p.distance else none

-- A projection is taken if there is none yet that is as close.
pub closer : Option (ℕ × String) → String → Option ℕ → Option (ℕ × String)
closer best id none = best
closer none id (some distance) = some (distance, id)
closer (some (least, other)) id (some distance) =
    if leb least distance then some (least, other) else some (distance, id)

-- The loop, from the best projection so far.
pub best_from :
    Bool
    → ActionKey
    → ActionKey
    → Option (ℕ × String)
    → List ActionKeyProjector
    → Option (ℕ × String)
unfolding projection closer
best_from require_coverage speculative actor best [] = best
best_from require_coverage speculative actor best (projector ∷ projectors) =
    best_from require_coverage speculative actor
      (closer best projector.id (projection require_coverage speculative actor projector))
      projectors

as_match : Option (ℕ × String) → Option ActionKeyMatch
as_match none = none
as_match (some (distance, id)) = some (projected distance id)

unfoldable pub action_key_match :
    ActionKey → ActionKey → List ActionKeyProjector → Bool → Option ActionKeyMatch
unfolding best_from as_match same_contract
action_key_match speculative actor projectors require_coverage =
    if same speculative.key actor.key
    then some exact_match
    else if same_contract speculative actor
    then as_match (best_from require_coverage speculative actor none projectors)
    else none

is_match : Option ActionKeyMatch → Bool
is_match none = false
is_match (some m) = true

pub action_key_matches : ActionKey → ActionKey → List ActionKeyProjector → Bool
unfolding is_match
action_key_matches speculative actor projectors =
    is_match (action_key_match speculative actor projectors false)

pub action_key_covers : ActionKey → ActionKey → List ActionKeyProjector → Bool
unfolding is_match
action_key_covers speculative actor projectors =
    is_match (action_key_match speculative actor projectors true)

-- A partition is named by its projector and its text.
unfoldable pub Partition-discrete : Discrete (String × String)
Partition-discrete (p, a) (q, b) = elim (String_discrete p q) [
  | yes e ↦ elim (String_discrete a b) [
    | yes f ↦ yes (λ i. (e i, f i))
    | no n ↦ no (λ h. n (λ i. (h i).1))
  ]
  | no n ↦ no (λ h. n (λ i. (h i).0))
]

with_partition : String × String → List (String × String) → List (String × String)
with_partition p set = if has Partition-discrete p set then set else p ∷ set

-- The set of the partitions, in no order that its users rely on.
unfoldable pub action_key_projection_partitions :
    ActionKey → List ActionKeyProjector → List (String × String)
unfolding with_partition
action_key_projection_partitions action [] = []
action_key_projection_partitions action (projector ∷ projectors) =
    let rest = action_key_projection_partitions action projectors in
    elim (projector.partition action) [
      | none ↦ rest
      | some p ↦ with_partition (projector.id, p) rest
    ]
