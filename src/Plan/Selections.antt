-- ===== src/Plan/Selections.antt =====
-- src/plan-runtime.ts: the selections of nodes and the operations that settle their predictions. A
-- selection is `none` where the readiness of a node runs out of fuel.
pub mod Claims
use pi_speculative_action.Prelude.{
  ℕ, Bool, true, false, ◌&&◌, not, Option, none, some, String, String_discrete, List, [], ◌∷◌, ◌++◌,
  map, leb, if◌then◌else◌, get, ◌==◌, ℕ_discrete, update, ◌>>=◌,
}
use pi_speculative_action.Settlement.{
  ActorActionIdentity, ActionKeyMatch, PredictionAdoption, PredictionSettlement, PlanActionIdentity,
}
use pi_speculative_action.Plan.Proposal.{Dependency}
use pi_speculative_action.Plan.Opportunity.{
  Opportunity, OpportunityState, pending, matching, settled, claim, confirm, miss,
}
use pi_speculative_action.Plan.State.{
  Ref, Node, Plan, Graph, Runtime, NodeExecution, deferred, node_of, node_in, parent, has_identity,
  opportunity_of, actor_decision_sequence, attached, is_queued, is_running, has_succeeded,
  has_failed, is_cancelled,
}
use pi_speculative_action.Plan.Timing.{recompute}
use pi_speculative_action.Plan.Readiness.{
  Readiness, NodeReadiness, dependency_readiness, is_matchable, is_blocked, is_ready, is_deferred,
}
use pi_speculative_action.Plan.Operations.{readiness, candidate_of, names, is_pending}

is_settled_state : OpportunityState → Bool
is_settled_state (settled s) = true
is_settled_state _ = false

same_readiness : NodeReadiness → NodeReadiness → Bool
same_readiness is_ready is_ready = true
same_readiness is_blocked is_blocked = true
same_readiness _ _ = false

module _ {I : Type 0} where
  nodes_of : String → List (String × Node I) → List (Ref × Node I)
  nodes_of proposal nodes = map (λ e. ((proposal, e.0), e.1)) nodes

  -- The nodes of all plans, in the order of the two loops.
  unfoldable pub all_nodes : List (String × Plan I) → List (Ref × Node I)
  unfolding nodes_of
  all_nodes [] = []
  all_nodes ((proposal, plan) ∷ plans) = nodes_of proposal plan.nodes ++ all_nodes plans

  -- The second test of `select`.
  fits : ℕ → Option NodeReadiness → Ref → Node I → Runtime I → Option Bool
  unfolding same_readiness
  fits fuel none ref node rt = some true
  fits fuel (some wanted) ref node rt = do
    current ← readiness fuel ref node rt
    some (same_readiness wanted current)

  -- The loops of `select`, on the nodes that are left.
  unfoldable pub select_from :
      ℕ
      → (Ref → Node I → Option Bool)
      → Option NodeReadiness
      → Runtime I
      → List (Ref × Node I)
      → Option (List Ref)
  unfolding fits
  select_from fuel include wanted rt [] = some []
  select_from fuel include wanted rt ((ref, node) ∷ nodes) = do
    included ← include ref node
    rest ← select_from fuel include wanted rt nodes
    fit ← fits fuel wanted ref node rt
    some (if included && fit then ref ∷ rest else rest)

  -- `select`
  unfoldable pub select :
      ℕ → (Ref → Node I → Option Bool) → Option NodeReadiness → Runtime I → Option (List Ref)
  unfolding all_nodes select_from
  select fuel include wanted rt = select_from fuel include wanted rt (all_nodes rt.plans)

  unfoldable pub launchable : ℕ → Runtime I → Option (List Ref)
  unfolding select is_deferred is_settled_state
  launchable fuel rt =
      select fuel
        (λ ref node.
          some (is_deferred node.execution && not (is_settled_state (opportunity_of rt node))))
        (some is_ready) rt

  unfoldable pub pending_nodes : ℕ → Runtime I → Option (List Ref)
  unfolding select
  pending_nodes fuel rt =
      select fuel (λ ref node. some (is_pending (opportunity_of rt node))) none rt

  unfoldable pub unsettled : ℕ → Runtime I → Option (List Ref)
  unfolding select is_settled_state
  unsettled fuel rt =
      select fuel (λ ref node. some (not (is_settled_state (opportunity_of rt node)))) none rt

  unfoldable pub consumers : ℕ → String → Runtime I → Option (List Ref)
  unfolding select is_settled_state names
  consumers fuel candidate rt =
      select fuel
        (λ ref node. some (
          not (is_settled_state (opportunity_of rt node))
          && names (candidate_of node.execution) candidate))
        none rt

  unfoldable pub due : ℕ → ℕ → Runtime I → Option (List Ref)
  unfolding select
  due fuel settled_decision_seq rt =
      select fuel
        (λ ref node. some (
          is_pending (opportunity_of rt node) && leb node.latest_decision_seq settled_decision_seq))
        none rt

  unfoldable pub drain_blocked : ℕ → Runtime I → Option (List Ref)
  unfolding select is_settled_state
  drain_blocked fuel rt =
      select fuel (λ ref node. some (not (is_settled_state (opportunity_of rt node))))
        (some is_blocked) rt

  -- `isMatchable` of a node that is there.
  unfoldable pub can_match : ℕ → Runtime I → ℕ → Ref → Node I → Option Bool
  unfolding is_matchable
  can_match fuel rt sequence ref node = do
    r ← dependency_readiness fuel rt ref true
    some (is_matchable node (opportunity_of rt node) sequence r)

  unfoldable pub matchable : ℕ → ℕ → Runtime I → Option (List Ref)
  unfolding select can_match
  matchable fuel sequence rt = select fuel (can_match fuel rt sequence) none rt

  -- A write to an opportunity.
  unfoldable pub with_opportunity : ℕ → Opportunity → Runtime I → Runtime I
  with_opportunity address o rt = record rt {
    opportunities = update ℕ_discrete rt.opportunities address o;
  }

  claimed_by :
      ActorActionIdentity
      → ActionKeyMatch
      → Node I
      → Runtime I
      → Option Opportunity
      → Runtime I × Bool
  unfolding with_opportunity claim
  claimed_by actor relation node rt none = (rt, false)
  claimed_by actor relation node rt (some o) =
      let (o', taken) = claim actor relation o in (with_opportunity node.opportunity o' rt, taken)

  claim_node :
      ℕ
      → ActorActionIdentity
      → ActionKeyMatch
      → Ref
      → Option (Node I)
      → Runtime I
      → Option (Runtime I × Bool)
  unfolding claimed_by can_match
  claim_node fuel actor relation ref none rt = some (rt, false)
  claim_node fuel actor relation ref (some node) rt = do
    able ← can_match fuel rt (actor_decision_sequence actor) ref node
    some (
        if able
        then claimed_by actor relation node rt (rt.opportunities node.opportunity)
        else (rt, false))

  -- `claimMatch`, of the names and the identity of a node: whether the prediction is claimed.
  unfoldable pub claim_match :
      ℕ
      → Ref
      → String
      → ActorActionIdentity
      → ActionKeyMatch
      → Runtime I
      → Option (Runtime I × Bool)
  unfolding claim_node
  claim_match fuel ref id actor relation rt =
      claim_node fuel actor relation ref (has_identity id (node_of rt ref)) rt

  -- `miss`
  missed_by :
      ActorActionIdentity → Option (Node I) → Runtime I → Runtime I × Option PredictionSettlement
  unfolding with_opportunity
  missed_by actor none rt = (rt, none)
  missed_by actor (some node) rt = elim (rt.opportunities node.opportunity) [
    | none ↦ (rt, none)
    | some o ↦ (with_opportunity node.opportunity (miss actor o).0 rt, (miss actor o).1)
  ]

  unfoldable pub miss_node :
      Ref → ActorActionIdentity → Runtime I → Runtime I × Option PredictionSettlement
  unfolding missed_by
  miss_node ref actor rt = missed_by actor (node_of rt ref) rt

  unfoldable pub dependency_node : String → Dependency → Runtime I → Option (Node I)
  dependency_node proposal dependency rt = parent rt proposal dependency

  unfoldable pub clear_plans : Runtime I → Runtime I
  clear_plans rt = record rt { plans = [] }
