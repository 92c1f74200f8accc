-- ===== src/Plan/State.antt =====
-- src/plan-runtime.ts: the state of `PlanRuntime`. Nodes are reached by the names of their plan and
-- action, graphs and opportunities by addresses, as the source shares and keeps references to them.
-- `owners` are the executions of the candidates, which this class only reads.
use pi_speculative_action.Prelude.{
  ap, ℕ, max, Bool, true, false, Option, none, some, String, String_discrete, List, get, put,
}
use pi_speculative_action.Numbers.{non_negative_count as sequence}
use pi_speculative_action.Settlement.{
  ResolutionCause, PlanActionIdentity, ActorActionIdentity, matched,
}
use pi_speculative_action.Candidate.{ExecutionState, queued, running, succeeded, failed, cancelled}
use pi_speculative_action.Plan.Proposal.{Action, Dependency}
use pi_speculative_action.Plan.Opportunity.{
  Opportunity, OpportunityState, pending, matching, settled,
}

-- `attached` waits for its owner; the last five name the candidate that produced them.
pub data NodeExecution : Type 0 where
  deferred preparing scheduled : NodeExecution
  execution_blocked rejected : ResolutionCause → NodeExecution
  attached : String → ℕ → NodeExecution
  is_queued is_running has_succeeded : String → NodeExecution
  has_failed is_cancelled : ResolutionCause → String → NodeExecution

-- The name of a node: its proposal and its action.
abbrev pub Ref : Type 0
Ref = String × String

unfoldable pub Ref-discrete : Discrete Ref
Ref-discrete (p, a) (q, b) = elim (String_discrete p q) [
  | yes e ↦ elim (String_discrete a b) [
    | yes f ↦ yes (λ i. (e i, f i))
    | no n ↦ no (λ h. n (ap (λ r. r.1) h))
  ]
  | no n ↦ no (λ h. n (ap (λ r. r.0) h))
]

pub record Node (I : Type 0) : Type 0 where
  pub identity : PlanActionIdentity
  pub action : Action I
  pub action_key : Option String
  pub anchor_decision_seq : ℕ
  pub earliest_decision_seq : ℕ
  pub expected_decision_seq : ℕ
  pub latest_decision_seq : ℕ
  pub critical_path_steps : ℕ
  pub valid_dependencies : Bool
  pub execution : NodeExecution
  pub opportunity : ℕ
  pub observation : Option String

pub record Plan (I : Type 0) : Type 0 where
  pub id : String
  pub source : String
  pub revision : ℕ
  pub next_revision : ℕ
  pub nodes : List (String × Node I)
  pub graph : ℕ

pub record Graph : Type 0 where
  pub plans : List String
  pub ordered : List Ref

pub record Runtime (I : Type 0) : Type 0 where
  pub plans : List (String × Plan I)
  pub graphs : ℕ → Option Graph
  pub next_graph : ℕ
  pub opportunities : ℕ → Option Opportunity
  pub next_opportunity : ℕ
  pub owners : ℕ → ExecutionState (Unit {0})

unfoldable pub ref_of : String → Dependency → Ref
ref_of proposal dependency = elim dependency.cross [
  | none ↦ (proposal, dependency.action_id)
  | some (p, i) ↦ (p, dependency.action_id)
]

unfoldable pub project_execution : ExecutionState (Unit {0}) → String → NodeExecution
project_execution queued candidate = is_queued candidate
project_execution (running at) candidate = is_running candidate
project_execution (succeeded output interval ms) candidate = has_succeeded candidate
project_execution (failed cause ms) candidate = has_failed cause candidate
project_execution (cancelled cause ms) candidate = is_cancelled cause candidate

module _ {I : Type 0} where
  unfoldable pub node_in : Option (Plan I) → String → Option (Node I)
  node_in none action = none
  node_in (some plan) action = get String_discrete action plan.nodes

  -- `mutable`
  unfoldable pub node_of : Runtime I → Ref → Option (Node I)
  unfolding node_in
  node_of rt (proposal, action) = node_in (get String_discrete proposal rt.plans) action

  unfoldable pub has_identity : String → Option (Node I) → Option (Node I)
  has_identity id none = none
  has_identity id (some node) = elim (String_discrete node.identity.id id) [
    | yes _ ↦ some node
    | no _ ↦ none
  ]

  unfoldable pub pinned : Option (String × String) → Option (Node I) → Option (Node I)
  unfolding has_identity
  pinned none node = node
  pinned (some (proposal, id)) node = has_identity id node

  -- `parent`: a dependency on another plan pins the identity of its node.
  unfoldable pub parent : Runtime I → String → Dependency → Option (Node I)
  unfolding node_of
  parent rt proposal dependency = pinned dependency.cross (node_of rt (ref_of proposal dependency))

  unfoldable pub put_in : Option (Plan I) → Ref → Node I → Runtime I → Runtime I
  put_in none ref node rt = rt
  put_in (some plan) ref node rt = record rt {
    plans =
        put String_discrete ref.0
          (record plan { nodes = put String_discrete ref.1 node plan.nodes }) rt.plans;
  }

  -- A write to a node of a plan that is there.
  unfoldable pub set_node : Ref → Node I → Runtime I → Runtime I
  unfolding put_in
  set_node ref node rt = put_in (get String_discrete ref.0 rt.plans) ref node rt

  unfoldable pub opportunity_of : Runtime I → Node I → OpportunityState
  opportunity_of rt node = elim (rt.opportunities node.opportunity) [
    | none ↦ pending
    | some o ↦ o.state
  ]

  unfoldable pub execution_projection : Runtime I → NodeExecution → NodeExecution
  unfolding project_execution
  execution_projection rt (attached candidate owner) = project_execution (rt.owners owner) candidate
  execution_projection rt e = e

unfoldable pub is_settled_execution : NodeExecution → Bool
is_settled_execution (has_succeeded candidate) = true
is_settled_execution (rejected cause) = true
is_settled_execution (has_failed cause candidate) = true
is_settled_execution (is_cancelled cause candidate) = true
is_settled_execution _ = false

unfoldable pub is_succeeded_execution : NodeExecution → Bool
is_succeeded_execution (has_succeeded candidate) = true
is_succeeded_execution _ = false

-- `horizon` and `latestHorizon`; a missing horizon is 0.
module _ {I : Type 0} where
  unfoldable pub horizon : Action I → ℕ
  unfolding sequence
  horizon action = sequence action.horizon

  unfoldable pub latest_horizon : Action I → ℕ
  unfolding horizon sequence
  latest_horizon action =
      max (horizon action)
        (elim action.latest_horizon [ none ↦ sequence action.horizon | some n ↦ sequence (some n) ])

-- `actorDecisionSequence`: the batch of the action, or its own number.
unfoldable pub actor_decision_sequence : ActorActionIdentity → ℕ
actor_decision_sequence actor = elim actor.decision_sequence [ none ↦ actor.sequence | some n ↦ n ]

-- The batch in which a settled prediction was matched.
unfoldable pub matched_sequence : OpportunityState → Option ℕ
unfolding actor_decision_sequence
matched_sequence pending = none
matched_sequence (matching actor relation) = none
matched_sequence (settled s) = elim s.outcome [
  | matched actor relation adoption ↦ some (actor_decision_sequence actor)
  | _ ↦ none
]
