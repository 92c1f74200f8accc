-- ===== src/Candidate/Monotone.antt =====
-- src/candidate-execution.ts: the execution is settled once.
use pi_speculative_action.Prelude.{
  ℕ, zero, suc, Bool, true, false, Option, none, some, String, List, [], ◌∷◌, ◌≡◌, refl, arith, ◌∙◌,
  ap, sym,
}
use pi_speculative_action.Settlement.{ResolutionCause}
use pi_speculative_action.Candidate.{
  Candidate, ExecutionState, queued, running, succeeded, failed, cancelled, Lease, LeaseKind,
  settle, acquire, finish, take, create,
}
use pi_speculative_action.Candidate.Board.{
  Board, Call, starts, succeeds, fails, cancels, acquires, releases, adopts, perform, run,
  settle_at, with_lease, initial, run, initial,
}

module _ {O : Type 0} where
  abbrev pub is_settled : ExecutionState O → Bool
  is_settled queued = false
  is_settled (running at) = false
  is_settled (succeeded output interval ms) = true
  is_settled (failed cause ms) = true
  is_settled (cancelled cause ms) = true

  -- The part of a candidate that execution owns.
  pub record SameExecution (c d : Candidate O) : Type 0 where
    pub execution_eq : d.execution ≡ c.execution
    pub completion_eq : d.completion ≡ c.completion
    pub abort_eq : d.abort ≡ c.abort

  settle-SameExecution :
      (adopt : Bool) (l : Lease) (c : Candidate O) → SameExecution c (settle adopt l c).1
  unfolding settle
  settle-SameExecution adopt l c = ground arith

  settle_at-SameExecution :
      (adopt : Bool) (i : ℕ) (ls : List Lease) (c : Candidate O)
      → SameExecution c (settle_at adopt i ls c).1
  unfolding settle_at
  settle_at-SameExecution adopt i [] c = ground arith
  settle_at-SameExecution adopt zero (l ∷ ls) c = settle-SameExecution adopt l c
  settle_at-SameExecution adopt (suc i) (l ∷ ls) c = settle_at-SameExecution adopt i ls c

  acquire-SameExecution :
      (owner : String) (b : Board O)
      → SameExecution b.candidate (with_lease (acquire owner b.candidate) b).candidate
  unfolding with_lease acquire take
  acquire-SameExecution owner b = ground arith

  -- Once the execution has succeeded, failed or been cancelled, no call changes it, the value of
  -- the completion promise or the reason of the abort.
  pub perform-SameExecution :
      (call : Call O) (b : Board O)
      → is_settled b.candidate.execution ≡ true
      → SameExecution b.candidate (perform call b).candidate
  unfolding perform finish
  perform-SameExecution (starts at) b h = ground arith
  perform-SameExecution (succeeds output interval ms) b h = ground arith
  perform-SameExecution (fails cause ms) b h = ground arith
  perform-SameExecution (cancels cause ms) b h = ground arith
  perform-SameExecution (acquires owner) b h = acquire-SameExecution owner b
  perform-SameExecution (releases i) b h = settle_at-SameExecution false i b.leases b.candidate
  perform-SameExecution (adopts i) b h = settle_at-SameExecution true i b.leases b.candidate

  -- What the promise was resolved with, and why the controller was aborted, by the execution alone.
  abbrev pub resolution : ExecutionState O → Option (ExecutionState O)
  resolution queued = none
  resolution (running at) = none
  resolution (succeeded output interval ms) = some (succeeded output interval ms)
  resolution (failed cause ms) = some (failed cause ms)
  resolution (cancelled cause ms) = some (cancelled cause ms)

  abbrev pub abort_reason : ExecutionState O → Option ResolutionCause
  abort_reason (cancelled cause ms) = some cause
  abort_reason _ = none

  pub record IsConsistent (c : Candidate O) : Type 0 where
    pub resolves : c.completion ≡ resolution c.execution
    pub aborts : c.abort ≡ abort_reason c.execution

  same-IsConsistent : {c d : Candidate O} → SameExecution c d → IsConsistent c → IsConsistent d
  same-IsConsistent {c} {d} s v = record {
    resolves = s.completion_eq ∙ v.resolves ∙ ap resolution (sym s.execution_eq);
    aborts = s.abort_eq ∙ v.aborts ∙ ap abort_reason (sym s.execution_eq);
  }

  perform-IsConsistent :
      (call : Call O) (b : Board O)
      → IsConsistent b.candidate
      → IsConsistent (perform call b).candidate
  unfolding perform finish
  perform-IsConsistent (starts at) b v = ground arith
  perform-IsConsistent (succeeds output interval ms) b v = ground arith
  perform-IsConsistent (fails cause ms) b v = ground arith
  perform-IsConsistent (cancels cause ms) b v = ground arith
  perform-IsConsistent (acquires owner) b v = same-IsConsistent (acquire-SameExecution owner b) v
  perform-IsConsistent (releases i) b v =
      same-IsConsistent (settle_at-SameExecution false i b.leases b.candidate) v
  perform-IsConsistent (adopts i) b v =
      same-IsConsistent (settle_at-SameExecution true i b.leases b.candidate) v

  run-IsConsistent :
      (calls : List (Call O)) (b : Board O)
      → IsConsistent b.candidate
      → IsConsistent (run calls b).candidate
  unfolding run
  run-IsConsistent [] b v = v
  run-IsConsistent (call ∷ calls) b v =
      run-IsConsistent calls (perform call b) (perform-IsConsistent call b v)

  -- From its creation on, after any calls, the completion promise of a candidate is resolved exactly
  -- if the execution is settled, with the execution itself, and its controller is aborted exactly if
  -- the execution was cancelled, with the cause of that.
  pub run-initial-IsConsistent :
      (kind : LeaseKind) (calls : List (Call O)) → IsConsistent (run calls (initial kind)).candidate
  unfolding initial create
  run-initial-IsConsistent kind calls =
      run-IsConsistent calls (initial kind) (record { resolves = refl; aborts = refl })
