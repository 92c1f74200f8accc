-- ===== src/Transaction/Invariant.antt =====
-- src/effect-transaction.ts: what the state, the validation and the commit of a transaction say of one
-- another.
use pi_speculative_action.Prelude.{
  All, All-append, is_some, Bool, true, false, List, [], ◌∷◌, ◌++◌, ◌&&◌, ◌||◌, not, ◌≡◌, refl,
  arith, Bool-cases, inl, inr, if◌then◌else◌,
}
use pi_speculative_action.Transaction.{
  scheduled, has_result, is_validating, has_result, is_validating, TransactionState, begun,
  executing, sealing, sealed, validating, validated, committing, committed, aborting, aborted,
  poisoned, failed, Proof, CommitTask, no_commit, awaiting, applying, done, spoiled, Transaction,
  sealed_transaction, is_validated, is_valid, validating_from, validated_as,
}

-- Whether a validation of the transaction itself is running.
abbrev pub proving : List Proof → Bool
proving [] = false
proving (p ∷ ps) = p.started && not p.query

abbrev pub is_effect_state : TransactionState → Bool
is_effect_state committing = true
is_effect_state committed = true
is_effect_state poisoned = true
is_effect_state _ = false

-- The state that goes with each place of the commit's task.
abbrev pub Linked : CommitTask → TransactionState → Type 0
Linked no_commit s = is_effect_state s ≡ false
Linked scheduled s = is_effect_state s ≡ false
Linked (awaiting id) s = is_effect_state s ≡ false
Linked applying s = s ≡ committing
Linked done s = s ≡ committed
Linked spoiled s = s ≡ poisoned

-- Only the first validation of the lane may have begun.
abbrev pub Serialized : List Proof → Type 0
Serialized [] = Unit
Serialized (p ∷ ps) = All (λ q. q.started ≡ false) ps

pub record IsTransaction (t : Transaction) : Type 0 where
  pub authorized : is_validated t.state ≡ true → is_valid t.validation ≡ true
  pub running : proving t.proofs ≡ true → is_validated t.state ≡ false
  pub linked : Linked t.commit t.state
  pub serialized : Serialized t.proofs

pub sealed_transaction-IsTransaction :
    (inputs_only : Bool) → IsTransaction (sealed_transaction inputs_only)
sealed_transaction-IsTransaction inputs_only = record {
  authorized = λ h. cc;
  running = λ h. refl;
  linked = refl;
  serialized = tt;
}

pub proving-append :
    (ps : List Proof) (p : Proof)
    → p.started ≡ false
    → proving (ps ++ (p ∷ [])) ≡ true
    → proving ps ≡ true
proving-append [] p e h = ground arith
proving-append (x ∷ ps) p e h = h

-- A state that is no state of an effect goes with the same places of the commit.
pub Linked-other :
    (c : CommitTask) (s s' : TransactionState)
    → is_effect_state s ≡ false
    → is_effect_state s' ≡ false
    → Linked c s
    → Linked c s'
Linked-other no_commit s s' e e' h = e'
Linked-other scheduled s s' e e' h = e'
Linked-other (awaiting id) s s' e e' h = e'
Linked-other applying s s' e e' h = cc (rw h at e)
Linked-other done s s' e e' h = cc (rw h at e)
Linked-other spoiled s s' e e' h = cc (rw h at e)

pub Linked-validating_from :
    (c : CommitTask) (s : TransactionState) → Linked c s → Linked c (validating_from s)
unfolding validating_from
Linked-validating_from c sealed h = Linked-other c sealed validating refl refl h
Linked-validating_from c validated h = Linked-other c validated validating refl refl h
Linked-validating_from c begun h = h
Linked-validating_from c executing h = h
Linked-validating_from c sealing h = h
Linked-validating_from c validating h = h
Linked-validating_from c committing h = h
Linked-validating_from c committed h = h
Linked-validating_from c aborting h = h
Linked-validating_from c aborted h = h
Linked-validating_from c poisoned h = h
Linked-validating_from c failed h = h

pub is_validated-validating_from : (s : TransactionState) → is_validated (validating_from s) ≡ false
unfolding validating_from
is_validated-validating_from begun = refl
is_validated-validating_from executing = refl
is_validated-validating_from sealing = refl
is_validated-validating_from sealed = refl
is_validated-validating_from validating = refl
is_validated-validating_from validated = refl
is_validated-validating_from committing = refl
is_validated-validating_from committed = refl
is_validated-validating_from aborting = refl
is_validated-validating_from aborted = refl
is_validated-validating_from poisoned = refl
is_validated-validating_from failed = refl

pub validating_eq : (s : TransactionState) → is_validating s ≡ true → s ≡ validating
validating_eq validating h = refl
validating_eq begun h = cc
validating_eq executing h = cc
validating_eq sealing h = cc
validating_eq sealed h = cc
validating_eq validated h = cc
validating_eq committing h = cc
validating_eq committed h = cc
validating_eq aborting h = cc
validating_eq aborted h = cc
validating_eq poisoned h = cc
validating_eq failed h = cc

pub Linked-validated_as :
    (c : CommitTask) (ok : Bool) (s : TransactionState) → Linked c s → Linked c (validated_as ok s)
unfolding validated_as
Linked-validated_as c ok s h = elim (Bool-cases (is_validating s)) [
  | inl e ↦
      let p : s ≡ validating = validating_eq s e in
      rw (validated_as, e)
        (Linked-other c validating (if ok then validated else sealed) refl (ground arith)
          (rw p at h))
  | inr e ↦ rw (validated_as, e) h
]

-- The end of a validation leaves the transaction validated only if it was, or by a valid result.
pub is_validated-validated_as :
    (ok : Bool) (s : TransactionState)
    → is_validated (validated_as ok s) ≡ true
    → is_validated s ≡ false
    → ok ≡ true
unfolding validated_as
is_validated-validated_as ok s h k = ground arith

pub Serialized-append :
    (ps : List Proof) (p : Proof) → p.started ≡ false → Serialized ps → Serialized (ps ++ (p ∷ []))
Serialized-append [] p e h = tt
Serialized-append (x ∷ ps) p e h = All-append (λ q. q.started ≡ false) ps (p ∷ []) h (e, tt)

-- The lane after its first validation has ended.
pub Serialized-rest :
    (ps : List Proof) → All (λ q. q.started ≡ false) ps → Serialized ps × (proving ps ≡ false)
Serialized-rest [] h = (tt, refl)
Serialized-rest (p ∷ ps) h = (h.1, rw h.0 refl)

abbrev pub request_fails : Transaction → Bool
request_fails t =
    t.inputs_only
    || has_result t.commit
    || t.closed
    || (not (is_some t.latest) && not (is_valid t.validation))

pub Linked-scheduled :
    (c : CommitTask) (s : TransactionState) → has_result c ≡ false → Linked c s → Linked scheduled s
Linked-scheduled no_commit s e h = h
Linked-scheduled scheduled s e h = h
Linked-scheduled (awaiting k) s e h = h
Linked-scheduled applying s e h = cc
Linked-scheduled done s e h = cc
Linked-scheduled spoiled s e h = cc
