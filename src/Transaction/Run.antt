-- ===== src/Transaction/Run.antt =====
-- src/effect-transaction.ts: the invariant of a transaction over all its events, and its final states.
use pi_speculative_action.Prelude.{
  ◌||◌, ◌&&◌, not, Bool, false, List, [], ◌∷◌, ◌≡◌, refl, arith, Bool-cases, inl, inr,
}
use pi_speculative_action.Transaction.{
  scheduled, starts_commit, TransactionState, aborting, aborted, Proof, CommitTask, no_commit,
  awaiting, applying, done, spoiled, Transaction, sealed_transaction, has_result, is_pending,
  is_final, abort, finalize, Event, requests_validation, resumes_validation, starts_proof,
  ends_proof, forgets_proof, requests_commit, checks_commit, ends_commit, aborts, finalizes, step,
  run,
}
use pi_speculative_action.Transaction.Invariant.{
  sealed_transaction-IsTransaction, Linked, IsTransaction,
}
use pi_speculative_action.Transaction.Steps.{
  start_commit-IsTransaction, end_commit-IsTransaction, check_commit-IsTransaction,
  request_commit-IsTransaction, forget_proof-IsTransaction, end_proof-IsTransaction,
  start_proof-IsTransaction, resume_validation-IsTransaction, request_validation-IsTransaction,
}

Linked-aborting :
    (c : CommitTask) (s : TransactionState) → has_result c ≡ false → Linked c s → Linked c aborting
Linked-aborting no_commit s e h = refl
Linked-aborting scheduled s e h = cc
Linked-aborting (awaiting id) s e h = cc
Linked-aborting applying s e h = cc
Linked-aborting done s e h = cc
Linked-aborting spoiled s e h = cc

-- What has no commit under way and is not final has no effect.
Linked-aborted :
    (c : CommitTask) (s : TransactionState)
    → is_pending c ≡ false
    → is_final s ≡ false
    → Linked c s
    → Linked c aborted
Linked-aborted no_commit s e f h = refl
Linked-aborted scheduled s e f h = cc
Linked-aborted (awaiting id) s e f h = cc
Linked-aborted applying s e f h = cc
Linked-aborted done s e f h = cc (rw h at f)
Linked-aborted spoiled s e f h = cc (rw h at f)

abort-IsTransaction : (t : Transaction) → IsTransaction t → IsTransaction (abort t)
unfolding abort
abort-IsTransaction t h = elim (Bool-cases t.closed) [
  | inl e ↦
      rw (abort, e)
        (record {
          authorized = h.authorized;
          running = h.running;
          linked = h.linked;
          serialized = h.serialized;
        })
  | inr e ↦ elim (Bool-cases (is_final t.state || has_result t.commit)) [
    | inl f ↦
        rw (abort, e, f)
          (record {
            authorized = h.authorized;
            running = h.running;
            linked = h.linked;
            serialized = h.serialized;
          })
    | inr f ↦
        rw (abort, e, f)
          (record {
            authorized = λ x. cc;
            running = λ x. refl;
            linked = Linked-aborting t.commit t.state (ground arith) h.linked;
            serialized = h.serialized;
          })
  ]
]

abbrev is_finishing : Transaction → Bool
is_finishing t = t.closed && not (is_pending t.commit) && not (is_final t.state)

finalize-IsTransaction :
    (ps : List Proof) (t : Transaction)
    → t.proofs ≡ ps
    → IsTransaction t
    → IsTransaction (finalize t)
unfolding finalize
finalize-IsTransaction (p ∷ ps) t e h = rw (finalize, e) h
finalize-IsTransaction [] t e h = elim (Bool-cases (is_finishing t)) [
  | inl f ↦
      rw (finalize, e, f)
        (record {
          authorized = λ x. cc;
          running = λ x. refl;
          linked = Linked-aborted t.commit t.state (ground arith) (ground arith) h.linked;
          serialized = rw e tt;
        })
  | inr f ↦ rw (finalize, e, f) h
]

step-IsTransaction : (e : Event) (t : Transaction) → IsTransaction t → IsTransaction (step e t)
unfolding step
step-IsTransaction (requests_validation query) t h = request_validation-IsTransaction query t h
step-IsTransaction (resumes_validation query) t h = resume_validation-IsTransaction query t h
step-IsTransaction starts_proof t h = start_proof-IsTransaction t.proofs t refl h
step-IsTransaction (ends_proof result) t h = end_proof-IsTransaction t.proofs result t refl h
step-IsTransaction (forgets_proof id) t h = forget_proof-IsTransaction id t h
step-IsTransaction requests_commit t h = request_commit-IsTransaction t h
step-IsTransaction starts_commit t h = start_commit-IsTransaction t.commit t refl h
step-IsTransaction checks_commit t h = check_commit-IsTransaction t.commit t refl h
step-IsTransaction (ends_commit result) t h = end_commit-IsTransaction t.commit result t h
step-IsTransaction aborts t h = abort-IsTransaction t h
step-IsTransaction finalizes t h = finalize-IsTransaction t.proofs t refl h

run_sound : (es : List Event) (t : Transaction) → IsTransaction t → IsTransaction (run es t)
unfolding run
run_sound [] t h = h
run_sound (e ∷ es) t h = run_sound es (step e t) (step-IsTransaction e t h)

-- After any events of a sealed transaction: it is validated only by a result that was valid and is
-- still its latest, and never while a validation of its own runs; only the first validation of the
-- lane has begun; and its state is committing, committed or poisoned exactly as its commit is being
-- applied, has been applied or was spoiled.
pub run-IsTransaction :
    (es : List Event) (inputs_only : Bool) → IsTransaction (run es (sealed_transaction inputs_only))
run-IsTransaction es inputs_only =
    run_sound es (sealed_transaction inputs_only) (sealed_transaction-IsTransaction inputs_only)
