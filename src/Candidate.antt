-- ===== src/Candidate.antt =====
-- src/candidate-execution.ts: the execution and the reservation of a candidate. A lease is the
-- closure that `acquire` returns: its owner, its kind and its own state. Times are clamped
-- quantities (Numbers). The callback `released` is counted.
pub mod Board
pub mod Monotone
pub mod Exclusive
mod Examples
use pi_speculative_action.Prelude.{
  ℕ, suc, max, Bool, true, false, ◌&&◌, not, Option, none, some, String, List, [], ◌∷◌, ◌++◌, has,
  if◌then◌else◌, String_discrete,
}
use pi_speculative_action.Numbers.{Number, non_negative_finite as metric}
use pi_speculative_action.Settlement.{ResolutionCause}

-- The two ends of a `TimelineInterval` (src/task-timing.ts).
pub record Interval : Type 0 where
  pub started_at : ℕ
  pub completed_at : ℕ

pub interval_from : Option Number → Option Number → Interval
interval_from started completed = record {
  started_at = metric started;
  completed_at = max (metric started) (metric completed);
}

pub data ExecutionState (O : Type 0) : Type 0 where
  queued : ExecutionState O
  running : ℕ → ExecutionState O
  succeeded : O → Interval → ℕ → ExecutionState O
  failed cancelled : ResolutionCause → ℕ → ExecutionState O

pub data Reservation : Type 0 where
  shared : List String → Reservation
  available consumed : Reservation
  reserved : String → Reservation

pub data LeaseKind : Type 0 where
  shared_lease exclusive_lease : LeaseKind

pub data LeaseState : Type 0 where
  active released spent : LeaseState

pub record Lease : Type 0 where
  pub owner : String
  pub kind : LeaseKind
  pub state : LeaseState

-- `completion` is what the promise was resolved with, `abort` the reason of the controller.
pub record Candidate (O : Type 0) : Type 0 where
  pub execution : ExecutionState O
  pub reservation : Reservation
  pub completion : Option (ExecutionState O)
  pub abort : Option ResolutionCause
  pub releases : ℕ

-- The settlements that `finish` takes; the second constructor is a failure, or a cancellation.
pub data Finish (O : Type 0) : Type 0 where
  success : O → Interval → Finish O
  failure cancellation : ResolutionCause → Finish O

lease : String → LeaseKind → Lease
lease owner kind = record { owner = owner; kind = kind; state = active }

-- `owners.filter((value) => value !== owner)`
pub without : String → List String → List String
without owner [] = []
without owner (o ∷ os) = elim (String_discrete o owner) [
  | yes _ ↦ without owner os
  | no _ ↦ o ∷ without owner os
]

-- The reservation after a lease is settled.
vacate : Reservation → String → Bool → Reservation
unfolding without
vacate (shared owners) owner spend = shared (without owner owners)
vacate _ owner spend = if spend then consumed else available

is_exclusive : LeaseKind → Bool
is_exclusive exclusive_lease = true
is_exclusive shared_lease = false

is_active : LeaseState → Bool
is_active active = true
is_active _ = false

module _ {O : Type 0} where
  pub create : LeaseKind → Candidate O
  create kind = record {
    execution = queued;
    reservation = elim kind [ shared_lease ↦ shared [] | exclusive_lease ↦ available ];
    completion = none;
    abort = none;
    releases = 0;
  }

  pub start : Option Number → Candidate O → Candidate O × Bool
  start at c = elim c.execution [
    | queued ↦ (record c { execution = running (metric at) }, true)
    | _ ↦ (c, false)
  ]

  -- A promise keeps the value that resolved it first.
  resolve : ExecutionState O → Candidate O → Candidate O
  resolve state c = record c {
    execution = state;
    completion = elim c.completion [ none ↦ some state | some s ↦ some s ];
  }

  settlement : Finish O → ℕ → ExecutionState O
  settlement (success output interval) ms = succeeded output interval ms
  settlement (failure cause) ms = failed cause ms
  settlement (cancellation cause) ms = cancelled cause ms

  is_success : Finish O → Bool
  is_success (success output interval) = true
  is_success _ = false

  -- Whether the guard of `finish` lets the settlement through.
  may_finish : ExecutionState O → Finish O → Bool
  unfolding is_success
  may_finish (running at) f = true
  may_finish queued (success output interval) = false
  may_finish queued (failure cause) = true
  may_finish queued (cancellation cause) = true
  may_finish _ f = false

  pub finish : Finish O → Option Number → Candidate O → Candidate O × Bool
  unfolding resolve settlement may_finish
  finish f ms c =
      if may_finish c.execution f then (resolve (settlement f (metric ms)) c, true) else (c, false)

  pub succeed : O → Interval → Option Number → Candidate O → Candidate O × Bool
  unfolding finish
  succeed output interval ms c = finish (success output interval) ms c

  pub fail : ResolutionCause → Option Number → Candidate O → Candidate O × Bool
  unfolding finish
  fail cause ms c = finish (failure cause) ms c

  -- A controller keeps its first reason.
  pub cancel : ResolutionCause → Option Number → Candidate O → Candidate O × Bool
  unfolding finish
  cancel cause ms c =
      let (d, changed) = finish (cancellation cause) ms c in
      if changed
      then (record d { abort = elim d.abort [ none ↦ some cause | some a ↦ some a ] }, true)
      else (d, false)

  acquirable : ExecutionState O → Bool
  acquirable (failed cause ms) = false
  acquirable (cancelled cause ms) = false
  acquirable _ = true

  take : Reservation → String → Candidate O → Option (Candidate O × Lease)
  unfolding lease
  take (shared owners) owner c =
      if has String_discrete owner owners
      then none
      else some
          (record c { reservation = shared (owners ++ (owner ∷ [])) }, lease owner shared_lease)
  take available owner c =
      some (record c { reservation = reserved owner }, lease owner exclusive_lease)
  take _ owner c = none

  pub acquire : String → Candidate O → Option (Candidate O × Lease)
  unfolding take acquirable
  acquire owner c = if acquirable c.execution then take c.reservation owner c else none

  pub has_succeeded : ExecutionState O → Bool
  has_succeeded (succeeded output interval ms) = true
  has_succeeded _ = false

  -- The closure `settle`, which `release` calls with `false` and `adopt` with `true`.
  pub settle : Bool → Lease → Candidate O → Lease × Candidate O × Bool
  unfolding has_succeeded vacate is_exclusive is_active
  settle adopt l c =
      let spend = adopt && is_exclusive l.kind in
      if is_active l.state
      then (if spend && not (has_succeeded c.execution) then (l, c, false) else (
        record l { state = if spend then spent else released },
        record c {
          reservation = vacate c.reservation l.owner spend;
          releases = if is_exclusive l.kind then suc c.releases else c.releases;
        },
        true,
      ))
      else (l, c, false)
