-- ===== src/Transaction.antt =====
-- src/effect-transaction.ts: the transaction that `sealEffectTransaction` returns, in the pieces that
-- run between two waits. The backend gives the results of validations and of the commit.
pub mod Coordinator
pub mod Invariant
mod Steps
pub mod Run
pub mod Effects
mod Examples
use pi_speculative_action.Prelude.{
  ℕ, ◌+◌, Bool, true, false, ◌&&◌, ◌||◌, not, Option, none, some, List, [], ◌∷◌, ◌++◌, map, has,
  if◌then◌else◌, ◌==◌, ℕ_discrete, is_some,
}
use pi_speculative_action.Settlement.{ResourceValidation, ValidationStatus, valid}

pub data TransactionState : Type 0 where
  begun executing sealing sealed validating validated committing committed aborting aborted poisoned
        failed :
      TransactionState

-- `disposition`
pub data Disposition : Type 0 where
  recoverable unproven : Disposition

-- A validation in the lane: its number, whether it is one of a query, and whether it has begun.
pub record Proof : Type 0 where
  pub id : ℕ
  pub query : Bool
  pub started : Bool

-- `commit.result` of `EffectCommit` with the place that its task has reached: it is to begin, it waits
-- for the validation that was the latest then, it applies the effect, or it has ended for good.
pub data CommitTask : Type 0 where
  no_commit scheduled : CommitTask
  awaiting : Option ℕ → CommitTask
  applying done spoiled : CommitTask

-- `latest` is `validationPromise`, `closed` whether the lane is sealed, and `rejected` holds the
-- validations that threw.
pub record Transaction : Type 0 where
  pub state : TransactionState
  pub inputs_only : Bool
  pub validation : Option ResourceValidation
  pub commit : CommitTask
  pub closed : Bool
  pub proofs : List Proof
  pub latest : Option ℕ
  pub rejected : List ℕ
  pub next : ℕ

-- The transaction that `sealEffectTransaction` makes, after the transition of its caller.
abbrev pub sealed_transaction : Bool → Transaction
sealed_transaction inputs_only = record {
  state = sealed;
  inputs_only = inputs_only;
  validation = none;
  commit = no_commit;
  closed = false;
  proofs = [];
  latest = none;
  rejected = [];
  next = 0;
}

abbrev pub has_result : CommitTask → Bool
has_result no_commit = false
has_result _ = true

abbrev pub is_pending : CommitTask → Bool
is_pending scheduled = true
is_pending (awaiting id) = true
is_pending applying = true
is_pending _ = false

abbrev pub is_validated : TransactionState → Bool
is_validated validated = true
is_validated _ = false

abbrev pub is_validating : TransactionState → Bool
is_validating validating = true
is_validating _ = false

-- `["committed", "poisoned"].includes(...)`
abbrev pub is_final : TransactionState → Bool
is_final committed = true
is_final poisoned = true
is_final _ = false

abbrev pub is_committed : TransactionState → Bool
is_committed committed = true
is_committed _ = false

abbrev pub is_unavailable : TransactionState → Bool
is_unavailable aborted = true
is_unavailable aborting = true
is_unavailable poisoned = true
is_unavailable failed = true
is_unavailable _ = false

abbrev is_status_valid : ValidationStatus → Bool
is_status_valid valid = true
is_status_valid _ = false

-- `validation?.status === "valid"`
abbrev pub is_valid : Option ResourceValidation → Bool
is_valid none = false
is_valid (some v) = is_status_valid v.status

abbrev ids : List Proof → List ℕ
ids [] = []
ids (p ∷ ps) = p.id ∷ ids ps

-- `validate` from its second check on. A query shares the lane.
unfoldable pub resume_validation : Bool → Transaction → Transaction
resume_validation query t = if t.closed || is_unavailable t.state then t else record t {
  proofs = t.proofs ++ ((record { id = t.next; query = query; started = false }) ∷ []);
  latest = some t.next;
  next = t.next + 1;
}

-- `validate` waits first for a commit that has a result; it is resumed later.
unfoldable pub request_validation : Bool → Transaction → Transaction
unfolding resume_validation
request_validation query t =
    if not t.closed && has_result t.commit && not (is_committed t.state)
    then t
    else resume_validation query t

-- The state of a transaction when a validation of its own begins.
unfoldable pub validating_from : TransactionState → TransactionState
validating_from sealed = validating
validating_from validated = validating
validating_from s = s

-- The first line of the task in the lane.
unfoldable pub start_proof : List Proof → Transaction → Transaction
unfolding validating_from
start_proof [] t = t
start_proof (p ∷ rest) t = if p.started then t else record t {
  proofs = (record p { started = true }) ∷ rest;
  state = if p.query then t.state else validating_from t.state;
}

unfoldable pub validated_as : Bool → TransactionState → TransactionState
validated_as ok s = if is_validating s then (if ok then validated else sealed) else s

-- The task in the lane after the backend has answered; `none` if it throws.
unfoldable pub end_proof : List Proof → Option ResourceValidation → Transaction → Transaction
unfolding validated_as
end_proof [] result t = t
end_proof (p ∷ rest) result t = if not p.started then t else elim result [
  | none ↦ record t { proofs = rest; rejected = p.id ∷ t.rejected }
  | some v ↦ if p.query then record t { proofs = rest } else record t {
    proofs = rest;
    validation = some v;
    state = validated_as (is_valid (some v)) t.state;
  }
]

unfoldable pub is_in_lane : ℕ → List Proof → Bool
is_in_lane id proofs = has ℕ_discrete id (ids proofs)

-- The `finally` of `validate`.
unfoldable pub forget_proof : ℕ → Transaction → Transaction
unfolding is_in_lane
forget_proof id t = elim t.latest [
  | none ↦ t
  | some k ↦ if k == id && not (is_in_lane id t.proofs) then record t { latest = none } else t
]

-- `commit` up to its first wait; a call that throws changes nothing.
unfoldable pub request_commit : Transaction → Transaction
request_commit t =
    if t.inputs_only
      || has_result t.commit
      || t.closed
      || (not (is_some t.latest) && not (is_valid t.validation))
    then t
    else record t { commit = scheduled }

-- The first line of the commit's task.
unfoldable pub start_commit : CommitTask → Transaction → Transaction
start_commit scheduled t = record t { commit = awaiting t.latest }
start_commit _ t = t

-- The `catch` of the commit's task and that of `EffectCommit.run`, which comes next, in one piece.
unfoldable pub fail_commit : Disposition → Transaction → Transaction
fail_commit recoverable t = record t { state = sealed; validation = none; commit = no_commit }
fail_commit unproven t = record t { state = poisoned; validation = none; commit = spoiled }

unfoldable pub is_settled_proof : Option ℕ → Transaction → Bool
unfolding is_in_lane
is_settled_proof none t = true
is_settled_proof (some id) t = not (is_in_lane id t.proofs)

unfoldable pub has_thrown : Option ℕ → Transaction → Bool
has_thrown none t = false
has_thrown (some id) t = has ℕ_discrete id t.rejected

-- The commit's task when the validation that it waits for has settled.
unfoldable pub check_commit : CommitTask → Transaction → Transaction
unfolding is_settled_proof has_thrown fail_commit
check_commit (awaiting id) t =
    if not (is_settled_proof id t)
    then t
    else if has_thrown id t
    then fail_commit unproven t
    else if is_valid t.validation && is_validated t.state
    then record t { state = committing; commit = applying }
    else fail_commit recoverable t
check_commit _ t = t

-- How `sealed.commit()` ends: a failure that is not known to be recoverable is unproven.
pub data CommitResult : Type 0 where
  applied : CommitResult
  fails : Disposition → CommitResult

unfoldable pub end_commit : CommitTask → CommitResult → Transaction → Transaction
unfolding fail_commit
end_commit applying applied t = record t { state = committed; commit = done }
end_commit applying (fails d) t = fail_commit d t
end_commit _ result t = t

-- `abort`; only the first call closes the lane.
unfoldable pub abort : Transaction → Transaction
abort t = if t.closed then t else record t {
  closed = true;
  state = if is_final t.state || has_result t.commit then t.state else aborting;
}

-- The last task of the lane, which runs behind all others.
unfoldable pub finalize : Transaction → Transaction
finalize t = elim t.proofs [
  | [] ↦
      if t.closed && not (is_pending t.commit) && not (is_final t.state)
      then record t { state = aborted }
      else t
  | _ ∷ _ ↦ t
]

pub data Event : Type 0 where
  requests_validation resumes_validation : Bool → Event
  starts_proof : Event
  ends_proof : Option ResourceValidation → Event
  forgets_proof : ℕ → Event
  requests_commit starts_commit checks_commit : Event
  ends_commit : CommitResult → Event
  aborts finalizes : Event

-- An event that cannot happen in a state leaves it.
unfoldable pub step : Event → Transaction → Transaction
unfolding request_validation resume_validation start_proof end_proof forget_proof request_commit
    start_commit check_commit end_commit abort finalize
step (requests_validation query) t = request_validation query t
step (resumes_validation query) t = resume_validation query t
step starts_proof t = start_proof t.proofs t
step (ends_proof result) t = end_proof t.proofs result t
step (forgets_proof id) t = forget_proof id t
step requests_commit t = request_commit t
step starts_commit t = start_commit t.commit t
step checks_commit t = check_commit t.commit t
step (ends_commit result) t = end_commit t.commit result t
step aborts t = abort t
step finalizes t = finalize t

unfoldable pub run : List Event → Transaction → Transaction
unfolding step
run [] t = t
run (e ∷ es) t = run es (step e t)
