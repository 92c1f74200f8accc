-- ===== src/Transaction/Steps.antt =====
-- src/effect-transaction.ts: the invariant of a transaction over each of its events but the last two.
use pi_speculative_action.Prelude.{
  ◌==◌, ℕ, Bool, false, Option, none, some, List, [], ◌∷◌, ◌&&◌, ◌||◌, not, ◌≡◌, refl, arith,
  Option-cases, Bool-cases, inl, inr,
}
use pi_speculative_action.Settlement.{ResourceValidation}
use pi_speculative_action.Transaction.{
  scheduled, start_commit, is_unavailable, is_committed, has_result, is_in_lane, is_settled_proof,
  has_thrown, is_committed, has_result, is_unavailable, Disposition, recoverable, unproven, Proof,
  CommitTask, no_commit, awaiting, applying, done, spoiled, Transaction, is_validated, is_valid,
  request_validation, resume_validation, start_proof, end_proof, forget_proof, request_commit,
  fail_commit, check_commit, applied, fails, CommitResult, end_commit,
}
use pi_speculative_action.Transaction.Invariant.{
  proving-append, Linked-validating_from, is_validated-validating_from, Linked-validated_as,
  is_validated-validated_as, Serialized-append, Serialized-rest, Linked-scheduled, IsTransaction,
  Serialized, proving, request_fails,
}

pub resume_validation-IsTransaction :
    (query : Bool) (t : Transaction) → IsTransaction t → IsTransaction (resume_validation query t)
unfolding resume_validation
resume_validation-IsTransaction query t h = elim (Bool-cases (t.closed || is_unavailable t.state)) [
  | inl e ↦
      rw (resume_validation, e)
        (record {
          authorized = h.authorized;
          running = h.running;
          linked = h.linked;
          serialized = h.serialized;
        })
  | inr e ↦
      rw (resume_validation, e)
        (record {
          authorized = h.authorized;
          running = λ k. h.running (proving-append t.proofs _ refl k);
          linked = h.linked;
          serialized = Serialized-append t.proofs _ refl h.serialized;
        })
]

pub request_validation-IsTransaction :
    (query : Bool) (t : Transaction) → IsTransaction t → IsTransaction (request_validation query t)
unfolding request_validation
request_validation-IsTransaction query t h =
    elim (Bool-cases (not t.closed && has_result t.commit && not (is_committed t.state))) [
      | inl e ↦ rw (request_validation, e) h
      | inr e ↦ rw (request_validation, e) (resume_validation-IsTransaction query t h)
    ]

pub start_proof-IsTransaction :
    (ps : List Proof) (t : Transaction)
    → t.proofs ≡ ps
    → IsTransaction t
    → IsTransaction (start_proof ps t)
unfolding start_proof
start_proof-IsTransaction [] t e h = h
start_proof-IsTransaction (p ∷ rest) t e h = elim (Bool-cases p.started) [
  | inl k ↦ rw (start_proof, k) h
  | inr k ↦ elim (Bool-cases p.query) [
    | inl q ↦
        rw (start_proof, k, q)
          (record {
            authorized = h.authorized;
            running = λ x. ground arith;
            linked = h.linked;
            serialized = rw e at h.serialized;
          })
    | inr q ↦
        rw (start_proof, k, q)
          (record {
            authorized = λ x. cc (is_validated-validating_from t.state);
            running = λ x. is_validated-validating_from t.state;
            linked = Linked-validating_from t.commit t.state h.linked;
            serialized = rw e at h.serialized;
          })
  ]
]

pub end_proof-IsTransaction :
    (ps : List Proof) (result : Option ResourceValidation) (t : Transaction)
    → t.proofs ≡ ps
    → IsTransaction t
    → IsTransaction (end_proof ps result t)
unfolding end_proof
end_proof-IsTransaction [] result t e h = h
end_proof-IsTransaction (p ∷ rest) result t e h =
    let (next, quiet) = Serialized-rest rest (rw e at h.serialized) in
    elim (Bool-cases (not p.started)) [
      | inl k ↦ rw (end_proof, k) h
      | inr k ↦ ended result next quiet k
    ]
  where
    ended :
        (result : Option ResourceValidation)
        → Serialized rest
        → proving rest ≡ false
        → not p.started ≡ false
        → IsTransaction (end_proof (p ∷ rest) result t)
    ended none next quiet k =
        rw (end_proof, k)
          (record {
            authorized = h.authorized;
            running = λ x. cc;
            linked = h.linked;
            serialized = next;
          })
    ended (some v) next quiet k = elim (Bool-cases p.query) [
      | inl q ↦
          rw (end_proof, k, q)
            (record {
              authorized = h.authorized;
              running = λ x. cc;
              linked = h.linked;
              serialized = next;
            })
      | inr q ↦
          rw (end_proof, k, q)
            (record {
              authorized = λ x.
                  is_validated-validated_as (is_valid (some v)) t.state x
                    (h.running (rw e (ground arith)));
              running = λ x. cc;
              linked = Linked-validated_as t.commit (is_valid (some v)) t.state h.linked;
              serialized = next;
            })
    ]

pub forget_proof-IsTransaction :
    (id : ℕ) (t : Transaction) → IsTransaction t → IsTransaction (forget_proof id t)
unfolding forget_proof
forget_proof-IsTransaction id t h = elim (Option-cases t.latest) [
  | inl e ↦ rw (forget_proof, e) h
  | inr (k, e) ↦ elim (Bool-cases (k == id && not (is_in_lane id t.proofs))) [
    | inl c ↦
        rw (forget_proof, e, c)
          (record {
            authorized = h.authorized;
            running = h.running;
            linked = h.linked;
            serialized = h.serialized;
          })
    | inr c ↦
        rw (forget_proof, e, c)
          (record {
            authorized = h.authorized;
            running = h.running;
            linked = h.linked;
            serialized = h.serialized;
          })
  ]
]

pub request_commit-IsTransaction :
    (t : Transaction) → IsTransaction t → IsTransaction (request_commit t)
unfolding request_commit
request_commit-IsTransaction t h = elim (Bool-cases (request_fails t)) [
  | inl e ↦ rw (request_commit, e) h
  | inr e ↦
      rw (request_commit, e)
        (record {
          authorized = h.authorized;
          running = h.running;
          linked = Linked-scheduled t.commit t.state (ground arith) h.linked;
          serialized = h.serialized;
        })
]

pub start_commit-IsTransaction :
    (c : CommitTask) (t : Transaction)
    → t.commit ≡ c
    → IsTransaction t
    → IsTransaction (start_commit c t)
unfolding start_commit
start_commit-IsTransaction scheduled t e h = record {
  authorized = h.authorized;
  running = h.running;
  linked = rw e at h.linked;
  serialized = h.serialized;
}
start_commit-IsTransaction no_commit t e h = h
start_commit-IsTransaction (awaiting id) t e h = h
start_commit-IsTransaction applying t e h = h
start_commit-IsTransaction done t e h = h
start_commit-IsTransaction spoiled t e h = h

-- A commit that fails does so before its effect or while it is applied.
pub fail_commit-IsTransaction :
    (d : Disposition) (t : Transaction) → IsTransaction t → IsTransaction (fail_commit d t)
unfolding fail_commit
fail_commit-IsTransaction recoverable t h = record {
  authorized = λ x. cc;
  running = λ x. refl;
  linked = refl;
  serialized = h.serialized;
}
fail_commit-IsTransaction unproven t h = record {
  authorized = λ x. cc;
  running = λ x. refl;
  linked = refl;
  serialized = h.serialized;
}

pub check_commit-IsTransaction :
    (c : CommitTask) (t : Transaction)
    → t.commit ≡ c
    → IsTransaction t
    → IsTransaction (check_commit c t)
unfolding check_commit
check_commit-IsTransaction no_commit t e h = h
check_commit-IsTransaction scheduled t e h = h
check_commit-IsTransaction applying t e h = h
check_commit-IsTransaction done t e h = h
check_commit-IsTransaction spoiled t e h = h
check_commit-IsTransaction (awaiting id) t e h = elim (Bool-cases (not (is_settled_proof id t))) [
  | inl w ↦ rw (check_commit, w) h
  | inr w ↦ elim (Bool-cases (has_thrown id t)) [
    | inl r ↦ rw (check_commit, w, r) (fail_commit-IsTransaction unproven t h)
    | inr r ↦ elim (Bool-cases (is_valid t.validation && is_validated t.state)) [
      | inl v ↦
          rw (check_commit, w, r, v)
            (record {
              authorized = λ x. cc;
              running = λ x. refl;
              linked = refl;
              serialized = h.serialized;
            })
      | inr v ↦ rw (check_commit, w, r, v) (fail_commit-IsTransaction recoverable t h)
    ]
  ]
]

pub end_commit-IsTransaction :
    (c : CommitTask) (result : CommitResult) (t : Transaction)
    → IsTransaction t
    → IsTransaction (end_commit c result t)
unfolding end_commit
end_commit-IsTransaction applying applied t h = record {
  authorized = λ x. cc;
  running = λ x. refl;
  linked = refl;
  serialized = h.serialized;
}
end_commit-IsTransaction applying (fails d) t h = fail_commit-IsTransaction d t h
end_commit-IsTransaction no_commit result t h = h
end_commit-IsTransaction scheduled result t h = h
end_commit-IsTransaction (awaiting id) result t h = h
end_commit-IsTransaction done result t h = h
end_commit-IsTransaction spoiled result t h = h
