-- ===== src/Plan/Operations/Offers.antt =====
-- src/plan-runtime.ts: the ways that the execution of a node takes, and those that the operations
-- offer.
use pi_speculative_action.Prelude.{
  subst, ◌&&◌, ◌==◌, ℕ, true, Option, none, some, String, ◌≡◌, arith, Bool-cases, inl, inr,
}
use pi_speculative_action.Settlement.{ResolutionCause}
use pi_speculative_action.Candidate.{ExecutionState}
use pi_speculative_action.Plan.State.{
  Ref, NodeExecution, deferred, preparing, scheduled, execution_blocked, rejected, attached,
  project_execution,
}
use pi_speculative_action.Plan.Readiness.{
  NodeReadiness, is_ready, is_waiting, is_blocked, is_finished,
}
use pi_speculative_action.Plan.Operations.{
  is_text, is_cancelled, has_failed, has_succeeded, is_running, NodeReadiness, is_queued, deferral,
  preparation, prepared, attachment, rejection, completion, promotion,
}

-- The operations on one node.
pub data Operation : Type 0 where
  promotes : ℕ → Ref → Operation
  defer_node : Ref → Operation
  binds : Ref → String → String → Operation
  finishes : Ref → String → Option ResolutionCause → Operation
  attaches_to : Ref → String → ℕ → Operation
  completes_with : Ref → String → ℕ → ExecutionState (Unit {0}) → Operation
  rejects_with : Ref → String → ResolutionCause → Operation
  observes : Ref → String → String → Operation

-- The ways that the execution of a node takes, each by its operation.
pub data Move : Operation → NodeExecution → NodeExecution → Type 0 where
  stays : {op : Operation} {e : NodeExecution} → Move op e e
  schedules : {fuel : ℕ} {ref : Ref} → Move (promotes fuel ref) deferred scheduled
  defers : {ref : Ref} → Move (defer_node ref) scheduled deferred
  prepares : {ref : Ref} {id key : String} → Move (binds ref id key) deferred preparing
  is_prepared : {ref : Ref} {id : String} → Move (finishes ref id none) preparing deferred
  blocks :
      {ref : Ref} {id : String} {cause : ResolutionCause}
      → Move (finishes ref id (some cause)) preparing (execution_blocked cause)
  attaches :
      {ref : Ref} {c : String} {owner : ℕ}
      → Move (attaches_to ref c owner) deferred (attached c owner)
  attaches_scheduled :
      {ref : Ref} {c : String} {owner : ℕ}
      → Move (attaches_to ref c owner) scheduled (attached c owner)
  rejects :
      {ref : Ref} {id : String} {cause : ResolutionCause}
      → Move (rejects_with ref id cause) deferred (rejected cause)
  rejects_preparing :
      {ref : Ref} {id : String} {cause : ResolutionCause}
      → Move (rejects_with ref id cause) preparing (rejected cause)
  rejects_scheduled :
      {ref : Ref} {id : String} {cause : ResolutionCause}
      → Move (rejects_with ref id cause) scheduled (rejected cause)
  completes :
      {ref : Ref} {c : String} {owner : ℕ} (state : ExecutionState (Unit {0}))
      → Move (completes_with ref c owner state) (attached c owner) (project_execution state c)

-- The moves that an operation offers.
abbrev pub Offers : Operation → NodeExecution → Option NodeExecution → Type 0
Offers op e none = Unit
Offers op e (some e') = Move op e e'

pub deferral-Offers : (ref : Ref) (e : NodeExecution) → Offers (defer_node ref) e (deferral e)
unfolding deferral
deferral-Offers ref deferred = tt
deferral-Offers ref preparing = tt
deferral-Offers ref scheduled = defers
deferral-Offers ref (execution_blocked k) = tt
deferral-Offers ref (rejected k) = tt
deferral-Offers ref (attached d o) = tt
deferral-Offers ref (is_queued d) = tt
deferral-Offers ref (is_running d) = tt
deferral-Offers ref (has_succeeded d) = tt
deferral-Offers ref (has_failed k d) = tt
deferral-Offers ref (is_cancelled k d) = tt

pub preparation-Offers :
    (ref : Ref) (id key : String) (e : NodeExecution) → Offers (binds ref id key) e (preparation e)
unfolding preparation
preparation-Offers ref id key deferred = prepares
preparation-Offers ref id key preparing = tt
preparation-Offers ref id key scheduled = tt
preparation-Offers ref id key (execution_blocked k) = tt
preparation-Offers ref id key (rejected k) = tt
preparation-Offers ref id key (attached d o) = tt
preparation-Offers ref id key (is_queued d) = tt
preparation-Offers ref id key (is_running d) = tt
preparation-Offers ref id key (has_succeeded d) = tt
preparation-Offers ref id key (has_failed k d) = tt
preparation-Offers ref id key (is_cancelled k d) = tt

pub prepared-Offers :
    (ref : Ref) (id : String) (cause : Option ResolutionCause) (e : NodeExecution)
    → Offers (finishes ref id cause) e (prepared cause e)
unfolding prepared
prepared-Offers ref id none deferred = tt
prepared-Offers ref id none preparing = is_prepared
prepared-Offers ref id none scheduled = tt
prepared-Offers ref id none (execution_blocked k) = tt
prepared-Offers ref id none (rejected k) = tt
prepared-Offers ref id none (attached d o) = tt
prepared-Offers ref id none (is_queued d) = tt
prepared-Offers ref id none (is_running d) = tt
prepared-Offers ref id none (has_succeeded d) = tt
prepared-Offers ref id none (has_failed k d) = tt
prepared-Offers ref id none (is_cancelled k d) = tt
prepared-Offers ref id (some cause) deferred = tt
prepared-Offers ref id (some cause) preparing = blocks
prepared-Offers ref id (some cause) scheduled = tt
prepared-Offers ref id (some cause) (execution_blocked k) = tt
prepared-Offers ref id (some cause) (rejected k) = tt
prepared-Offers ref id (some cause) (attached d o) = tt
prepared-Offers ref id (some cause) (is_queued d) = tt
prepared-Offers ref id (some cause) (is_running d) = tt
prepared-Offers ref id (some cause) (has_succeeded d) = tt
prepared-Offers ref id (some cause) (has_failed k d) = tt
prepared-Offers ref id (some cause) (is_cancelled k d) = tt

pub attachment-Offers :
    (ref : Ref) (c : String) (owner : ℕ) (e : NodeExecution)
    → Offers (attaches_to ref c owner) e (attachment c owner e)
unfolding attachment
attachment-Offers ref c owner deferred = attaches
attachment-Offers ref c owner preparing = tt
attachment-Offers ref c owner scheduled = attaches_scheduled
attachment-Offers ref c owner (execution_blocked k) = tt
attachment-Offers ref c owner (rejected k) = tt
attachment-Offers ref c owner (attached d o) = tt
attachment-Offers ref c owner (is_queued d) = tt
attachment-Offers ref c owner (is_running d) = tt
attachment-Offers ref c owner (has_succeeded d) = tt
attachment-Offers ref c owner (has_failed k d) = tt
attachment-Offers ref c owner (is_cancelled k d) = tt

pub rejection-Offers :
    (ref : Ref) (id : String) (cause : ResolutionCause) (e : NodeExecution)
    → Offers (rejects_with ref id cause) e (rejection cause e)
unfolding rejection
rejection-Offers ref id cause deferred = rejects
rejection-Offers ref id cause preparing = rejects_preparing
rejection-Offers ref id cause scheduled = rejects_scheduled
rejection-Offers ref id cause (execution_blocked k) = tt
rejection-Offers ref id cause (rejected k) = tt
rejection-Offers ref id cause (attached d o) = tt
rejection-Offers ref id cause (is_queued d) = tt
rejection-Offers ref id cause (is_running d) = tt
rejection-Offers ref id cause (has_succeeded d) = tt
rejection-Offers ref id cause (has_failed k d) = tt
rejection-Offers ref id cause (is_cancelled k d) = tt

is_text_eq : (a b : String) → is_text a b ≡ true → a ≡ b
unfolding is_text
is_text_eq a b h = ground arith

pub completion-Offers :
    (ref : Ref) (c : String) (owner : ℕ) (state : ExecutionState (Unit {0})) (e : NodeExecution)
    → Offers (completes_with ref c owner state) e (completion c owner (project_execution state c) e)
unfolding completion
completion-Offers ref c owner state deferred = tt
completion-Offers ref c owner state preparing = tt
completion-Offers ref c owner state scheduled = tt
completion-Offers ref c owner state (execution_blocked k) = tt
completion-Offers ref c owner state (rejected k) = tt
completion-Offers ref c owner state (is_queued d) = tt
completion-Offers ref c owner state (is_running d) = tt
completion-Offers ref c owner state (has_succeeded d) = tt
completion-Offers ref c owner state (has_failed k d) = tt
completion-Offers ref c owner state (is_cancelled k d) = tt
completion-Offers ref c owner state (attached d o) = elim (Bool-cases (is_text c d && owner == o)) [
  | inl e ↦
      let p : c ≡ d = is_text_eq c d (ground arith) in
      let q : owner ≡ o = ground arith in
      rw (completion, e)
        (subst
          (λ x. Move (completes_with ref c owner state) (attached x o) (project_execution state c))
          p
          (subst
            (λ x.
              Move (completes_with ref c owner state) (attached c x) (project_execution state c))
            q (completes state)))
  | inr e ↦ rw (completion, e) tt
]

pub promotion-Offers :
    (fuel : ℕ) (ref : Ref) (r : NodeReadiness) (e : NodeExecution)
    → Offers (promotes fuel ref) e (promotion r e).0
unfolding promotion
promotion-Offers fuel ref is_finished deferred = tt
promotion-Offers fuel ref is_finished preparing = tt
promotion-Offers fuel ref is_finished scheduled = tt
promotion-Offers fuel ref is_finished (execution_blocked k) = tt
promotion-Offers fuel ref is_finished (rejected k) = tt
promotion-Offers fuel ref is_finished (attached d o) = tt
promotion-Offers fuel ref is_finished (is_queued d) = tt
promotion-Offers fuel ref is_finished (is_running d) = tt
promotion-Offers fuel ref is_finished (has_succeeded d) = tt
promotion-Offers fuel ref is_finished (has_failed k d) = tt
promotion-Offers fuel ref is_finished (is_cancelled k d) = tt
promotion-Offers fuel ref is_blocked deferred = tt
promotion-Offers fuel ref is_blocked preparing = tt
promotion-Offers fuel ref is_blocked scheduled = tt
promotion-Offers fuel ref is_blocked (execution_blocked k) = tt
promotion-Offers fuel ref is_blocked (rejected k) = tt
promotion-Offers fuel ref is_blocked (attached d o) = tt
promotion-Offers fuel ref is_blocked (is_queued d) = tt
promotion-Offers fuel ref is_blocked (is_running d) = tt
promotion-Offers fuel ref is_blocked (has_succeeded d) = tt
promotion-Offers fuel ref is_blocked (has_failed k d) = tt
promotion-Offers fuel ref is_blocked (is_cancelled k d) = tt
promotion-Offers fuel ref is_ready deferred = schedules
promotion-Offers fuel ref is_ready preparing = tt
promotion-Offers fuel ref is_ready scheduled = tt
promotion-Offers fuel ref is_ready (execution_blocked k) = tt
promotion-Offers fuel ref is_ready (rejected k) = tt
promotion-Offers fuel ref is_ready (attached d o) = tt
promotion-Offers fuel ref is_ready (is_queued d) = tt
promotion-Offers fuel ref is_ready (is_running d) = tt
promotion-Offers fuel ref is_ready (has_succeeded d) = tt
promotion-Offers fuel ref is_ready (has_failed k d) = tt
promotion-Offers fuel ref is_ready (is_cancelled k d) = tt
promotion-Offers fuel ref is_waiting deferred = tt
promotion-Offers fuel ref is_waiting preparing = tt
promotion-Offers fuel ref is_waiting scheduled = tt
promotion-Offers fuel ref is_waiting (execution_blocked k) = tt
promotion-Offers fuel ref is_waiting (rejected k) = tt
promotion-Offers fuel ref is_waiting (attached d o) = tt
promotion-Offers fuel ref is_waiting (is_queued d) = tt
promotion-Offers fuel ref is_waiting (is_running d) = tt
promotion-Offers fuel ref is_waiting (has_succeeded d) = tt
promotion-Offers fuel ref is_waiting (has_failed k d) = tt
promotion-Offers fuel ref is_waiting (is_cancelled k d) = tt
