-- ===== src/Plan/Apply.antt =====
-- src/plan-runtime.ts: `apply`, which checks an update against its plan, works out the actions that
-- the plan has after it, and commits them.
pub mod Accepted
pub mod Ending
mod Examples
use pi_speculative_action.Prelude.{
  ℕ, leb, Bool, true, false, ◌&&◌, ◌||◌, not, Option, none, some, String, String_discrete, List, [],
  ◌∷◌, ◌++◌, map, if◌then◌else◌, get, put, delete, keys, is_some,
}
use pi_speculative_action.Numbers.{Number}
use pi_speculative_action.Order.{Outcome, exhausted, rejected, finished, dependency_order}
use pi_speculative_action.Plan.Proposal.{
  Action, RawAction, Dependency, PlanUpdate, proposal, delta, Rejection, proposal_missing,
  source_mismatch, stale_revision, invalid_dependency,
}
use pi_speculative_action.Plan.Capture.{Result, ok, refused, capture}
use pi_speculative_action.Plan.State.{Ref, Node, Plan, Runtime, node_of, parent}
use pi_speculative_action.Plan.Replacement.{same_plan_action_execution}
use pi_speculative_action.Plan.Materialize.{
  Input, has_text, differ, with_text, is_local, any_dependency, nodes_in,
}
use pi_speculative_action.Plan.Commit.{UpdateResult, unfinished, rejected_update, commit}

abbrev pub Actions : Type 0 → Type 0
Actions I = List (String × Action I)

module _ {A R : Type 0} where
  abbrev pub update_id : PlanUpdate A R → String
  update_id (proposal id source revision actions retain) = id
  update_id (delta id source revision upsert remove) = id

  abbrev pub update_source : PlanUpdate A R → String
  update_source (proposal id source revision actions retain) = source
  update_source (delta id source revision upsert remove) = source

  abbrev pub update_revision : PlanUpdate A R → R
  update_revision (proposal id source revision actions retain) = revision
  update_revision (delta id source revision upsert remove) = revision

  abbrev pub is_proposal : PlanUpdate A R → Bool
  is_proposal (proposal id source revision actions retain) = true
  is_proposal (delta id source revision upsert remove) = false

  -- `upserted`
  offered : PlanUpdate A R → List A
  offered (proposal id source revision actions retain) = actions
  offered (delta id source revision upsert remove) = upsert

module _ {I : Type 0} where
  -- The tests of an update against the current plan; a delta needs one.
  unfoldable pub refusal : Bool → Option (Plan I) → String → ℕ → Option Rejection
  refusal whole none source revision = if whole then none else some proposal_missing
  refusal whole (some plan) source revision =
      if differ plan.source source
      then some source_mismatch
      else if leb revision plan.revision
      then some stale_revision
      else none

  unfoldable pub put_all : List (Action I) → Actions I → Actions I
  put_all [] actions = actions
  put_all (action ∷ rest) actions = put_all rest (put String_discrete action.id action actions)

  unfoldable pub delete_all : List String → Actions I → Actions I
  delete_all [] actions = actions
  delete_all (id ∷ ids) actions = delete_all ids (delete String_discrete id actions)

  -- The actions of the current plan.
  unfoldable pub actions_in : Option (Plan I) → Actions I
  unfolding nodes_in
  actions_in plan = map (λ e. (e.0, e.1.action)) (nodes_in plan)

  -- A dependency of a node that is to stay must be retained before it, or be there.
  lacks : Runtime I → String → List String → Dependency → Bool
  lacks rt id retained d = elim d.cross [
    | none ↦ not (has_text d.action_id retained)
    | some c ↦ not (is_some (parent rt id d))
  ]

  -- `current.graph.ordered`
  order_of : Runtime I → Option (Plan I) → List Ref
  order_of rt none = []
  order_of rt (some plan) = elim (rt.graphs plan.graph) [ none ↦ [] | some graph ↦ graph.ordered ]

  -- The vertices that a dependency gives the traversal: none at all where its plan is another one
  -- and has the node, a missing one where that is not so.
  vertices_of : Runtime I → String → Actions I → List Dependency → List (Option String)
  vertices_of rt id actions [] = []
  vertices_of rt id actions (d ∷ ds) =
      let rest = vertices_of rt id actions ds in
      elim d.cross [
        | none ↦
            (if is_some (get String_discrete d.action_id actions) then some d.action_id else none)
            ∷ rest
        | some (name, pin) ↦
            if differ name id && is_some (parent rt id d) then rest else none ∷ rest
      ]

  unfoldable pub action_edges : Runtime I → String → Actions I → String → List (Option String)
  unfolding vertices_of
  action_edges rt id actions name = elim (get String_discrete name actions) [
    | none ↦ []
    | some action ↦ vertices_of rt id actions action.depends_on
  ]

  named_actions : Actions I → List String → List (Action I)
  named_actions actions [] = []
  named_actions actions (name ∷ names) = elim (get String_discrete name actions) [
    | none ↦ named_actions actions names
    | some action ↦ action ∷ named_actions actions names
  ]

  module _ (same_input : I → I → Bool) where
    -- The last test of the loop that retains descendants.
    is_unfit : Action I → Option (Action I) → Bool
    unfolding any_dependency is_local
    is_unfit action none = not (any_dependency is_local action.depends_on)
    is_unfit action (some replacement) =
        not (same_plan_action_execution same_input action replacement)

    or_else : Action I → Option (Action I) → Action I
    or_else action none = action
    or_else action (some replacement) = replacement

    -- One turn of that loop.
    retain_node :
        Runtime I → String → Option (Node I) → Actions I × List String → Actions I × List String
    unfolding is_unfit or_else lacks any_dependency with_text
    retain_node rt id none kept = kept
    retain_node rt id (some node) (actions, retained) =
        let action = node.action in
        let replacement = get String_discrete action.id actions in
        if differ node.identity.proposal_id id
          || any_dependency (lacks rt id retained) action.depends_on
          || is_unfit action replacement
        then (actions, retained)
        else (
          put String_discrete action.id (or_else action replacement) actions,
          with_text action.id retained,
        )

    retain_all : Runtime I → String → List Ref → Actions I × List String → Actions I × List String
    unfolding retain_node
    retain_all rt id [] kept = kept
    retain_all rt id (ref ∷ refs) kept =
        retain_all rt id refs (retain_node rt id (node_of rt ref) kept)

    retain_descendants : Bool → Runtime I → String → Option (Plan I) → Actions I → Actions I
    unfolding retain_all order_of
    retain_descendants retain rt id current actions =
        if retain then (retain_all rt id (order_of rt current) (actions, [])).0 else actions

    -- The actions of the plan once the update is applied.
    unfoldable pub actions_after : PlanUpdate (Action I) ℕ → Runtime I → Actions I
    unfolding retain_descendants
    actions_after (proposal id source revision actions retain) rt =
        retain_descendants retain rt id (get String_discrete id rt.plans) (put_all actions [])
    actions_after (delta id source revision upsert remove) rt =
        put_all upsert (delete_all remove (actions_in (get String_discrete id rt.plans)))

    module _ (named : String → String → String → ℕ → String) (fuel : ℕ) where
      -- The last step of `apply`, on the order of the actions.
      pub commit_ordered :
          String
          → String
          → ℕ
          → Actions I
          → List (Action I)
          → Option Number
          → Runtime I
          → Outcome (List String)
          → UpdateResult I
      unfolding named_actions
      commit_ordered id source revision actions upserted anchor rt exhausted = unfinished
      commit_ordered id source revision actions upserted anchor rt rejected =
          rejected_update invalid_dependency
      commit_ordered id source revision actions upserted anchor rt (finished names) =
          commit same_input named fuel
            (record {
              id = id;
              source = source;
              revision = revision;
              actions = actions;
              upserted = upserted;
              ordered = named_actions actions names;
              anchor_decision_seq = anchor;
            })
            rt

      -- `apply`, once the update is captured and the actions are worked out.
      pub apply_actions :
          Option Rejection
          → String
          → String
          → ℕ
          → Actions I
          → List (Action I)
          → Option Number
          → Runtime I
          → UpdateResult I
      unfolding commit_ordered
      apply_actions (some reason) id source revision actions upserted anchor rt =
          rejected_update reason
      apply_actions none id source revision actions upserted anchor rt =
          commit_ordered id source revision actions upserted anchor rt
            (dependency_order String_discrete (action_edges rt id actions) fuel (keys actions))

      -- `apply` of an update that was captured before.
      unfoldable pub apply_captured :
          PlanUpdate (Action I) ℕ → Option Number → Runtime I → UpdateResult I
      unfolding apply_actions offered
      apply_captured update anchor rt =
          let id = update_id update in
          apply_actions
            (refusal (is_proposal update) (get String_discrete id rt.plans) (update_source update)
              (update_revision update))
            id (update_source update) (update_revision update) (actions_after update rt)
            (offered update) anchor rt

      unfoldable pub apply :
          (I → Option I)
          → PlanUpdate (RawAction I) (Option Number)
          → Option Number
          → Runtime I
          → UpdateResult I
      unfolding apply_captured
      apply snapshot update anchor rt = elim (capture snapshot update true) [
        | refused reason ↦ rejected_update reason
        | ok captured ↦ apply_captured captured anchor rt
      ]
