-- ===== src/Plan/Operations.antt =====
-- src/plan-runtime.ts: the operations of `PlanRuntime` on one node, and `rearmExecution`. Where the
-- source compares an object, here its name is compared.
pub mod Offers
pub mod Moves
pub mod Reservations
use pi_speculative_action.Prelude.{
  ℕ, ◌+◌, max, Bool, true, false, ◌&&◌, not, Option, none, some, String, String_discrete, List, [],
  ◌∷◌, map, get, put, if◌then◌else◌, is_some, ◌==◌,
}
use pi_speculative_action.Numbers.{increment}
use pi_speculative_action.Settlement.{ResolutionCause}
use pi_speculative_action.Candidate.{ExecutionState}
use pi_speculative_action.Plan.Opportunity.{OpportunityState, pending, matching, settled}
use pi_speculative_action.Plan.State.{
  NodeExecution, deferred, preparing, scheduled, execution_blocked, rejected, attached, is_queued,
  is_running, has_succeeded, has_failed, is_cancelled, Ref, Node, Plan, Runtime, node_of, set_node,
  opportunity_of, execution_projection, project_execution, is_settled_execution,
}
use pi_speculative_action.Plan.Readiness.{
  NodeReadiness, is_ready, is_waiting, is_blocked, is_finished, dependency_readiness, combined,
}

is_text : String → String → Bool
is_text a b = elim (String_discrete a b) [ yes _ ↦ true | no _ ↦ false ]

abbrev pub is_open : OpportunityState → Bool
is_open (settled s) = false
is_open _ = true

abbrev pub is_pending : OpportunityState → Bool
is_pending pending = true
is_pending _ = false

abbrev pub candidate_of : NodeExecution → Option String
candidate_of (attached c owner) = some c
candidate_of (is_queued c) = some c
candidate_of (is_running c) = some c
candidate_of (has_succeeded c) = some c
candidate_of (has_failed cause c) = some c
candidate_of (is_cancelled cause c) = some c
candidate_of _ = none

unfoldable pub names : Option String → String → Bool
unfolding is_text
names none candidate = false
names (some c) candidate = is_text c candidate

-- The execution that an operation writes, from the node and its prediction; `none` where it refuses.
unfoldable pub deferral : NodeExecution → Option NodeExecution
deferral scheduled = some deferred
deferral _ = none

unfoldable pub preparation : NodeExecution → Option NodeExecution
preparation deferred = some preparing
preparation _ = none

unfoldable pub prepared : Option ResolutionCause → NodeExecution → Option NodeExecution
prepared none preparing = some deferred
prepared (some cause) preparing = some (execution_blocked cause)
prepared blocked _ = none

unfoldable pub attachment : String → ℕ → NodeExecution → Option NodeExecution
attachment c owner deferred = some (attached c owner)
attachment c owner scheduled = some (attached c owner)
attachment c owner _ = none

unfoldable pub rejection : ResolutionCause → NodeExecution → Option NodeExecution
rejection cause deferred = some (rejected cause)
rejection cause preparing = some (rejected cause)
rejection cause scheduled = some (rejected cause)
rejection cause _ = none

-- The callback of the completion: only the attachment that it was made for is replaced.
unfoldable pub completion : String → ℕ → NodeExecution → NodeExecution → Option NodeExecution
unfolding is_text
completion c owner final (attached d other) =
    if is_text c d && owner == other then some final else none
completion c owner final _ = none

-- `PlanRuntimePromotion`; `exhausted` where the readiness ran out of fuel.
pub data Promotion : Type 0 where
  promoted already_dispatched missing exhausted : Promotion
  not_ready : NodeReadiness → Promotion

-- The execution of a node that is promoted, from what its snapshot says of its readiness.
unfoldable pub promotion : NodeReadiness → NodeExecution → Option NodeExecution × Promotion
promotion is_finished e = (none, not_ready is_finished)
promotion is_blocked e = (none, not_ready is_blocked)
promotion is_ready deferred = (some scheduled, promoted)
promotion is_waiting deferred = (none, not_ready is_waiting)
promotion _ e = (none, already_dispatched)

module _ {I : Type 0} where
  unfoldable pub with_execution : Option NodeExecution → Node I → Option (Node I)
  with_execution none node = none
  with_execution (some e) node = some (record node { execution = e })

  change_in : Option (Node I) → Ref → Runtime I → Runtime I × Bool
  change_in none ref rt = (rt, false)
  change_in (some node) ref rt = (set_node ref node rt, true)

  -- Reads a node and writes what the operation makes of it.
  unfoldable pub change :
      Option (Node I) → (Node I → Option (Node I)) → Ref → Runtime I → Runtime I × Bool
  unfolding change_in
  change none f ref rt = (rt, false)
  change (some node) f ref rt = change_in (f node) ref rt

  unfoldable pub defer : Ref → Runtime I → Runtime I × Bool
  unfolding change with_execution deferral
  defer ref rt = change (node_of rt ref) (λ n. with_execution (deferral n.execution) n) ref rt

  -- `none` where the node has another identity.
  identified : String → Node I → Option (Node I) → Option (Node I)
  unfolding is_text
  identified id node result = if is_text node.identity.id id then result else none

  unless_settled : OpportunityState → Option (Node I) → Option (Node I)
  unless_settled o result = if is_open o then result else none

  -- A node that has a key is refused.
  keyed : String → Option String → Option (Node I) → Option (Node I)
  keyed key none (some node) = some (record node { action_key = some key })
  keyed key _ _ = none

  unfoldable pub bind_action_key : Ref → String → String → Runtime I → Runtime I × Bool
  unfolding change with_execution preparation identified unless_settled keyed
  bind_action_key ref id key rt =
      change (node_of rt ref)
        (λ n. identified id n (
          unless_settled (opportunity_of rt n)
            (keyed key n.action_key (with_execution (preparation n.execution) n))))
        ref rt

  unfoldable pub finish_preparation :
      Ref → String → Option ResolutionCause → Runtime I → Runtime I × Bool
  unfolding change with_execution prepared identified unless_settled
  finish_preparation ref id cause rt =
      change (node_of rt ref)
        (λ n.
          identified id n
            (unless_settled (opportunity_of rt n) (with_execution (prepared cause n.execution) n)))
        ref rt

  unfoldable pub attach_execution : Ref → String → ℕ → Runtime I → Runtime I × Bool
  unfolding change with_execution attachment
  attach_execution ref c owner rt =
      change (node_of rt ref) (λ n. with_execution (attachment c owner n.execution) n) ref rt

  -- When the promise of the owner is resolved with a state.
  unfoldable pub complete :
      Ref → String → ℕ → ExecutionState (Unit {0}) → Runtime I → Runtime I × Bool
  unfolding change with_execution completion
  complete ref c owner state rt =
      change (node_of rt ref)
        (λ n. with_execution (completion c owner (project_execution state c) n.execution) n) ref rt

  unfoldable pub reject_execution : Ref → String → ResolutionCause → Runtime I → Runtime I × Bool
  unfolding change with_execution rejection identified
  reject_execution ref id cause rt =
      change (node_of rt ref)
        (λ n. identified id n (with_execution (rejection cause n.execution) n)) ref rt

  unfoldable pub observe : Ref → String → String → Runtime I → Runtime I
  unfolding change identified
  observe ref id observation rt =
      (change (node_of rt ref)
        (λ n. identified id n (some (record n { observation = some observation }))) ref rt).0

  -- `rearmExecution` on one node.
  unfoldable pub rearmed : String → Runtime I → Node I → Node I
  unfolding names
  rearmed c rt n =
      if names (candidate_of n.execution) c
        && is_pending (opportunity_of rt n)
        && is_settled_execution (execution_projection rt n.execution)
      then record n { execution = deferred }
      else n

  -- On every node of every plan.
  rearmed_nodes : String → Runtime I → List (String × Node I) → List (String × Node I)
  unfolding rearmed
  rearmed_nodes c rt = map (λ e. (e.0, rearmed c rt e.1))

  unfoldable pub rearm_execution : String → Runtime I → Runtime I
  unfolding rearmed_nodes
  rearm_execution c rt = record rt {
    plans = map (λ e. (e.0, record (e.1) { nodes = rearmed_nodes c rt e.1.nodes })) rt.plans;
  }

  promote_node : Option NodeReadiness → Ref → Node I → Runtime I → Runtime I × Promotion
  unfolding change with_execution promotion
  promote_node none ref node rt = (rt, exhausted)
  promote_node (some r) ref node rt =
      let (execution, result) = promotion r node.execution in
      ((change (some node) (with_execution execution) ref rt).0, result)

  unfoldable pub readiness : ℕ → Ref → Node I → Runtime I → Option NodeReadiness
  readiness fuel ref node rt = elim (dependency_readiness fuel rt ref false) [
    | none ↦ none
    | some r ↦ some (combined (opportunity_of rt node) node.execution r)
  ]

  promote_found : ℕ → Option (Node I) → Ref → Runtime I → Runtime I × Promotion
  unfolding readiness promote_node
  promote_found fuel none ref rt = (rt, missing)
  promote_found fuel (some node) ref rt = promote_node (readiness fuel ref node rt) ref node rt

  unfoldable pub promote : ℕ → Ref → Runtime I → Runtime I × Promotion
  unfolding promote_found
  promote fuel ref rt = promote_found fuel (node_of rt ref) ref rt

  -- The minimum is a count. Additions round where a revision is not safe.
  reserve_in : Option (Plan I) → String → ℕ → Runtime I → Runtime I × Option ℕ
  unfolding increment
  reserve_in none proposal minimum rt = (rt, none)
  reserve_in (some plan) proposal minimum rt =
      let revision = max (max plan.next_revision (increment plan.revision)) minimum in
      (
        record rt {
          plans =
              put String_discrete proposal (record plan { next_revision = increment revision })
                rt.plans;
        },
        some revision,
      )

  unfoldable pub reserve_revision : String → ℕ → Runtime I → Runtime I × Option ℕ
  unfolding reserve_in
  reserve_revision proposal minimum rt =
      reserve_in (get String_discrete proposal rt.plans) proposal minimum rt
