-- ===== src/Plan/Materialize.antt =====
-- src/plan-runtime.ts: the parts of `commit` that make the nodes of a plan. The text that
-- names a node, `JSON.stringify` of its four parts, and the comparison of inputs are parameters.
use pi_speculative_action.Prelude.{
  ℕ, suc, ◌+◌, Bool, true, false, ◌&&◌, ◌||◌, not, Option, none, some, String, String_discrete,
  List, [], ◌∷◌, ◌++◌, map, if◌then◌else◌, has, get, keys, values, update, ℕ_discrete,
}
use pi_speculative_action.Numbers.{Number}
use pi_speculative_action.Settlement.{PlanActionIdentity}
use pi_speculative_action.Plan.Proposal.{Action, Dependency}
use pi_speculative_action.Plan.Opportunity.{pending}
use pi_speculative_action.Plan.State.{
  NodeExecution, deferred, preparing, Node, Plan, Runtime, horizon, latest_horizon,
}
use pi_speculative_action.Plan.Replacement.{same_plan_action_execution}

-- The argument of `commit`. The map of the actions is in the order of its entries.
pub record Input (I : Type 0) : Type 0 where
  pub id : String
  pub source : String
  pub revision : ℕ
  pub actions : List (String × Action I)
  pub upserted : List (Action I)
  pub ordered : List (Action I)
  pub anchor_decision_seq : Option Number

pub record Materialized (I : Type 0) : Type 0 where
  pub id : String
  pub source : String
  pub revision : ℕ
  pub actions : List (Action I)

-- The result of an accepted update. A node that is retired is given without its readiness.
pub record Accepted (I : Type 0) : Type 0 where
  pub plan : Materialized I
  pub upserted : List (Action I)
  pub removed : List String
  pub retired : List (Node I)

abbrev pub has_text : String → List String → Bool
has_text = has String_discrete

abbrev pub differ : String → String → Bool
differ a b = elim (String_discrete a b) [ yes _ ↦ false | no _ ↦ true ]

-- `add` of a set.
unfoldable pub with_text : String → List String → List String
with_text s set = if has_text s set then set else set ++ (s ∷ [])

unfoldable pub with_address : ℕ → List ℕ → List ℕ
with_address a set = if has ℕ_discrete a set then set else set ++ (a ∷ [])

unfoldable pub is_unstarted : NodeExecution → Bool
is_unstarted deferred = true
is_unstarted preparing = true
is_unstarted _ = false

-- `!dependency.proposalID`
unfoldable pub is_local : Dependency → Bool
is_local d = elim d.cross [ none ↦ true | some c ↦ false ]

unfoldable pub any_dependency : (Dependency → Bool) → List Dependency → Bool
any_dependency test [] = false
any_dependency test (d ∷ ds) = test d || any_dependency test ds

module _ {I : Type 0} where
  unfoldable pub nodes_in : Option (Plan I) → List (String × Node I)
  nodes_in none = []
  nodes_in (some plan) = plan.nodes

  unfoldable pub plan_snapshot : Plan I → Materialized I
  plan_snapshot plan = record {
    id = plan.id;
    source = plan.source;
    revision = plan.revision;
    actions = map (λ node. node.action) (values plan.nodes);
  }

  module _ (same_input : I → I → Bool) where
    -- Whether the node of an action is replaced, from those before it.
    unfoldable pub is_replaced : List String → List String → Option (Node I) → Action I → Bool
    unfolding any_dependency is_local
    is_replaced touched replaced none action = false
    is_replaced touched replaced (some previous) action =
        (has_text action.id touched
          && not (same_plan_action_execution same_input previous.action action))
        || any_dependency (λ d. is_local d && has_text d.action_id replaced) action.depends_on

    -- The first loop, over the order.
    unfoldable pub replaced_from :
        List String → List (String × Node I) → List String → List (Action I) → List String
    unfolding is_replaced with_text
    replaced_from touched nodes replaced [] = replaced
    replaced_from touched nodes replaced (action ∷ actions) =
        replaced_from touched nodes
          (if is_replaced touched replaced (get String_discrete action.id nodes) action
            then with_text action.id replaced
            else replaced)
          actions

  -- The keys of the nodes that have no action left.
  unfoldable pub removed_from : List (String × Action I) → List (String × Node I) → List String
  removed_from actions [] = []
  removed_from actions ((id, node) ∷ nodes) =
      let rest = removed_from actions nodes in
      if has_text id (keys actions) then rest else id ∷ rest

  -- The nodes of the names in `retiredIDs` that are there.
  unfoldable pub retired_from : List (String × Node I) → List String → List (Node I)
  retired_from nodes [] = []
  retired_from nodes (id ∷ ids) = elim (get String_discrete id nodes) [
    | none ↦ retired_from nodes ids
    | some node ↦ node ∷ retired_from nodes ids
  ]

  -- `newNode`; the opportunity is made at the next address.
  unfoldable pub new_node :
      (String → String → String → ℕ → String) → String → String → ℕ → Action I → ℕ → ℕ → Node I
  new_node named id source revision action anchor address = record {
    identity = record {
      is_operation = action.is_operation;
      id = named source id action.id revision;
      source = source;
      proposal_id = id;
      action_id = action.id;
    };
    action = action;
    action_key = none;
    anchor_decision_seq = anchor;
    earliest_decision_seq = anchor + 1;
    expected_decision_seq = anchor + horizon action + 1;
    latest_decision_seq = anchor + latest_horizon action + 1;
    critical_path_steps = 1;
    valid_dependencies = true;
    execution = deferred;
    opportunity = address;
    observation = none;
  }

  -- A node that is kept.
  unfoldable pub kept_node : List String → ℕ → Action I → Node I → Node I
  unfolding is_unstarted
  kept_node touched anchor action previous =
      if has_text action.id touched && is_unstarted previous.execution
      then record previous { action = action; anchor_decision_seq = anchor }
      else record previous { action = action }

  unfoldable pub with_new_opportunity : PlanActionIdentity → Runtime I → Runtime I
  with_new_opportunity identity rt = record rt {
    opportunities =
        update ℕ_discrete rt.opportunities rt.next_opportunity
          (record { identity = identity; state = pending });
    next_opportunity = suc rt.next_opportunity;
  }
