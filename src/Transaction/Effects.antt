-- ===== src/Transaction/Effects.antt =====
-- src/effect-transaction.ts: the effects that a transaction asks of its backend.
use pi_speculative_action.Prelude.{
  none, some, refl, ℕ, ◌≡◌, ◌++◌, Bool-cases, inl, inr, inr, inl, some, Bool-cases, arith, false,
  Option, ◌≡◌, Bool, List, [], ◌∷◌, ◌++◌,
}
use pi_speculative_action.Transaction.Invariant.{request_fails}
use pi_speculative_action.Settlement.{ResourceValidation}
use pi_speculative_action.Transaction.{
  scheduled, start_commit, starts_commit, recoverable, unproven, Proof, CommitTask, no_commit,
  awaiting, applying, done, spoiled, Transaction, has_result, request_validation, resume_validation,
  start_proof, end_proof, forget_proof, request_commit, fail_commit, check_commit, applied, fails,
  CommitResult, end_commit, abort, finalize, Event, requests_validation, resumes_validation,
  starts_proof, ends_proof, forgets_proof, requests_commit, checks_commit, ends_commit, aborts,
  finalizes, step,
}

-- `sealed.commit()` begins, and ends.
pub data Effect : Type 0 where
  begins restored succeeded lost : Effect

effect_of_end : CommitTask → CommitResult → List Effect
effect_of_end applying applied = succeeded ∷ []
effect_of_end applying (fails recoverable) = restored ∷ []
effect_of_end applying (fails unproven) = lost ∷ []
effect_of_end _ result = []

-- The task goes from its wait to the effect.
effect_of_check : CommitTask → CommitTask → List Effect
effect_of_check (awaiting id) applying = begins ∷ []
effect_of_check _ after = []

unfoldable pub effects : Event → Transaction → List Effect
unfolding effect_of_end effect_of_check step
effects checks_commit t = effect_of_check t.commit (step checks_commit t).commit
effects (ends_commit result) t = effect_of_end t.commit result
effects _ t = []

unfoldable pub trace : List Event → Transaction → List Effect
unfolding effects step
trace [] t = []
trace (e ∷ es) t = effects e t ++ trace es (step e t)

-- Whether an effect may begin, has begun, or none may follow.
pub data Phase : Type 0 where
  idle busy over : Phase

-- The traces in which an effect begins only if none is under way, and none begins after one that has
-- succeeded or that may have left something behind.
abbrev pub IsTrace : Phase → List Effect → Type 0
IsTrace p [] = Unit
IsTrace idle (begins ∷ es) = IsTrace busy es
IsTrace busy (restored ∷ es) = IsTrace idle es
IsTrace busy (succeeded ∷ es) = IsTrace over es
IsTrace busy (lost ∷ es) = IsTrace over es
IsTrace _ (_ ∷ es) = ⊥

unfoldable pub phase_of : CommitTask → Phase
phase_of no_commit = idle
phase_of scheduled = idle
phase_of (awaiting id) = idle
phase_of applying = busy
phase_of done = over
phase_of spoiled = over

IsTrace-over : (p : Phase) (es : List Effect) → IsTrace over es → IsTrace p es
IsTrace-over p [] h = tt
IsTrace-over p (x ∷ es) h = absurd h

start_proof_commit : (ps : List Proof) (t : Transaction) → (start_proof ps t).commit ≡ t.commit
unfolding start_proof
start_proof_commit [] t = refl
start_proof_commit (p ∷ rest) t = ground arith

end_proof_commit :
    (ps : List Proof) (result : Option ResourceValidation) (t : Transaction)
    → (end_proof ps result t).commit ≡ t.commit
unfolding end_proof
end_proof_commit [] result t = refl
end_proof_commit (p ∷ rest) none t = ground arith
end_proof_commit (p ∷ rest) (some v) t = ground arith

-- Whatever a check makes of the task, the trace fits.
IsTrace-check :
    (id : Option ℕ) (after : CommitTask) (es : List Effect)
    → IsTrace (phase_of after) es
    → IsTrace idle (effect_of_check (awaiting id) after ++ es)
unfolding phase_of effect_of_check
IsTrace-check id no_commit es h = h
IsTrace-check id scheduled es h = h
IsTrace-check id (awaiting k) es h = h
IsTrace-check id applying es h = h
IsTrace-check id done es h = IsTrace-over idle es h
IsTrace-check id spoiled es h = IsTrace-over idle es h

phase_of-check_commit :
    (c : CommitTask) (t : Transaction) (es : List Effect)
    → t.commit ≡ c
    → IsTrace (phase_of (check_commit c t).commit) es
    → IsTrace (phase_of c) (effect_of_check c (check_commit c t).commit ++ es)
unfolding check_commit phase_of effect_of_check
phase_of-check_commit no_commit t es e h = rw e at h
phase_of-check_commit scheduled t es e h = rw e at h
phase_of-check_commit applying t es e h = rw e at h
phase_of-check_commit done t es e h = rw e at h
phase_of-check_commit spoiled t es e h = rw e at h
phase_of-check_commit (awaiting id) t es e h =
    IsTrace-check id (check_commit (awaiting id) t).commit es h

phase_of-end_commit :
    (c : CommitTask) (result : CommitResult) (t : Transaction) (es : List Effect)
    → t.commit ≡ c
    → IsTrace (phase_of (end_commit c result t).commit) es
    → IsTrace (phase_of c) (effect_of_end c result ++ es)
unfolding end_commit fail_commit phase_of effect_of_end
phase_of-end_commit applying applied t es e h = h
phase_of-end_commit applying (fails recoverable) t es e h = h
phase_of-end_commit applying (fails unproven) t es e h = h
phase_of-end_commit no_commit result t es e h = rw e at h
phase_of-end_commit scheduled result t es e h = rw e at h
phase_of-end_commit (awaiting id) result t es e h = rw e at h
phase_of-end_commit done result t es e h = rw e at h
phase_of-end_commit spoiled result t es e h = rw e at h

request_commit_idle : (c : CommitTask) → has_result c ≡ false → phase_of c ≡ idle
unfolding phase_of
request_commit_idle no_commit h = refl
request_commit_idle scheduled h = refl
request_commit_idle (awaiting id) h = refl
request_commit_idle applying h = cc
request_commit_idle done h = cc
request_commit_idle spoiled h = cc

phase_of-request_commit : (t : Transaction) → phase_of (request_commit t).commit ≡ phase_of t.commit
unfolding request_commit
phase_of-request_commit t = elim (Bool-cases (request_fails t)) [
  | inl e ↦ rw (request_commit, e) refl
  | inr e ↦
      rw (request_commit, e, request_commit_idle t.commit (ground arith)) (unfold phase_of in refl)
]

phase_of-start_commit :
    (c : CommitTask) (t : Transaction)
    → t.commit ≡ c
    → phase_of (start_commit c t).commit ≡ phase_of t.commit
unfolding start_commit phase_of
phase_of-start_commit scheduled t e = rw e refl
phase_of-start_commit no_commit t e = refl
phase_of-start_commit (awaiting id) t e = refl
phase_of-start_commit applying t e = refl
phase_of-start_commit done t e = refl
phase_of-start_commit spoiled t e = refl

forget_proof_commit : (id : ℕ) (t : Transaction) → (forget_proof id t).commit ≡ t.commit
unfolding forget_proof
forget_proof_commit id t = ground arith

resume_validation_commit :
    (query : Bool) (t : Transaction) → (resume_validation query t).commit ≡ t.commit
unfolding resume_validation
resume_validation_commit query t = ground arith

request_validation_commit :
    (query : Bool) (t : Transaction) → (request_validation query t).commit ≡ t.commit
unfolding request_validation
request_validation_commit query t = ground (arith, resume_validation_commit query t)

abort_commit : (t : Transaction) → (abort t).commit ≡ t.commit
unfolding abort
abort_commit t = ground arith

finalize_commit : (t : Transaction) → (finalize t).commit ≡ t.commit
unfolding finalize
finalize_commit t = ground arith

step-IsTrace :
    (e : Event) (t : Transaction) (es : List Effect)
    → IsTrace (phase_of (step e t).commit) es
    → IsTrace (phase_of t.commit) (effects e t ++ es)
unfolding step effects
step-IsTrace (requests_validation query) t es h = rw (request_validation_commit query t) at h
step-IsTrace (resumes_validation query) t es h = rw (resume_validation_commit query t) at h
step-IsTrace starts_proof t es h = rw (start_proof_commit t.proofs t) at h
step-IsTrace (ends_proof result) t es h = rw (end_proof_commit t.proofs result t) at h
step-IsTrace (forgets_proof id) t es h = rw (forget_proof_commit id t) at h
step-IsTrace requests_commit t es h = rw (phase_of-request_commit t) at h
step-IsTrace starts_commit t es h = rw (phase_of-start_commit t.commit t refl) at h
step-IsTrace checks_commit t es h = phase_of-check_commit t.commit t es refl h
step-IsTrace (ends_commit result) t es h = phase_of-end_commit t.commit result t es refl h
step-IsTrace aborts t es h = rw (abort_commit t) at h
step-IsTrace finalizes t es h = rw (finalize_commit t) at h

-- Whatever happens to a transaction, in any order: an effect begins only while none is under way, and
-- none begins after one that has succeeded, or whose failure is not known to have been restored.
pub trace-IsTrace : (es : List Event) (t : Transaction) → IsTrace (phase_of t.commit) (trace es t)
unfolding trace
trace-IsTrace [] t = tt
trace-IsTrace (e ∷ es) t = step-IsTrace e t (trace es (step e t)) (trace-IsTrace es (step e t))
