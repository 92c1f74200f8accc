-- ===== src/Candidate/Board.antt =====
-- src/candidate-execution.ts: a candidate with all the leases that it gave out, and every call that
-- can be made on them.
use pi_speculative_action.Prelude.{
  ℕ, zero, suc, Bool, Option, none, some, String, List, [], ◌∷◌, ◌++◌,
}
use pi_speculative_action.Numbers.{Number}
use pi_speculative_action.Settlement.{ResolutionCause}
use pi_speculative_action.Candidate.{
  Candidate, Interval, Lease, LeaseKind, start, succeed, fail, cancel, acquire, settle, create,
}

pub data Call (O : Type 0) : Type 0 where
  starts : Option Number → Call O
  succeeds : O → Interval → Option Number → Call O
  fails cancels : ResolutionCause → Option Number → Call O
  acquires : String → Call O
  releases adopts : ℕ → Call O

pub record Board (O : Type 0) : Type 0 where
  pub candidate : Candidate O
  pub leases : List Lease

module _ {O : Type 0} where
  unfoldable pub initial : LeaseKind → Board O
  unfolding create
  initial kind = record { candidate = create kind; leases = [] }

  -- The call of `release` or `adopt` of the lease at an index.
  unfoldable pub settle_at : Bool → ℕ → List Lease → Candidate O → List Lease × Candidate O
  unfolding settle
  settle_at adopt i [] c = ([], c)
  settle_at adopt zero (l ∷ ls) c = let r = settle adopt l c in (r.0 ∷ ls, r.1)
  settle_at adopt (suc i) (l ∷ ls) c = let r = settle_at adopt i ls c in (l ∷ r.0, r.1)

  unfoldable pub settle_on : Bool → ℕ → Board O → Board O
  unfolding settle_at
  settle_on adopt i b =
      let r = settle_at adopt i b.leases b.candidate in record { candidate = r.1; leases = r.0 }

  unfoldable pub with_lease : Option (Candidate O × Lease) → Board O → Board O
  with_lease none b = b
  with_lease (some (c, l)) b = record { candidate = c; leases = b.leases ++ (l ∷ []) }

  unfoldable pub perform : Call O → Board O → Board O
  unfolding settle_on with_lease start succeed fail cancel acquire
  perform (starts at) b = record b { candidate = (start at b.candidate).0 }
  perform (succeeds output interval ms) b = record b {
    candidate = (succeed output interval ms b.candidate).0;
  }
  perform (fails cause ms) b = record b { candidate = (fail cause ms b.candidate).0 }
  perform (cancels cause ms) b = record b { candidate = (cancel cause ms b.candidate).0 }
  perform (acquires owner) b = with_lease (acquire owner b.candidate) b
  perform (releases i) b = settle_on Bool.false i b
  perform (adopts i) b = settle_on Bool.true i b

  unfoldable pub run : List (Call O) → Board O → Board O
  run [] b = b
  run (call ∷ calls) b = run calls (perform call b)
