-- ===== src/Plan/Commit.antt =====
-- src/plan-runtime.ts: `commit` with the graph that it makes. Plans are named
-- by their identifiers, also in the set of a graph. The fuel is that of the two traversals.
pub mod Shapes
pub mod Ending
use pi_speculative_action.Prelude.{
  ℕ, suc, max, leb, Bool, true, false, ◌&&◌, ◌||◌, not, Option, none, some, String, String_discrete,
  List, [], ◌∷◌, ◌++◌, map, if◌then◌else◌, has, get, put, delete, keys, values, update, ℕ_discrete,
  is_some,
}
use pi_speculative_action.Numbers.{Number, non_negative_count as sequence}
use pi_speculative_action.Order.{Outcome, exhausted, rejected, finished, dependency_order}
use pi_speculative_action.Plan.Proposal.{
  Action, RawAction, Dependency, PlanUpdate, proposal, delta, Rejection, proposal_missing,
  source_mismatch, stale_revision, invalid_dependency,
}
use pi_speculative_action.Plan.Capture.{Result, ok, refused, capture}
use pi_speculative_action.Plan.State.{
  Ref, Ref-discrete, Node, Plan, Graph, Runtime, node_of, parent,
}
use pi_speculative_action.Plan.Timing.{recompute}
use pi_speculative_action.Plan.Timing.Edges.{edges}
use pi_speculative_action.Plan.Replacement.{same_plan_action_execution}
use pi_speculative_action.Plan.Materialize.{
  Input, Accepted, has_text, differ, with_text, with_address, is_local, any_dependency, nodes_in,
  plan_snapshot, replaced_from, removed_from, retired_from, new_node, kept_node,
  with_new_opportunity,
}

-- `crashed` is the exception of a loop over an order that there is not.
pub data UpdateResult (I : Type 0) : Type 0 where
  unfinished crashed : UpdateResult I
  rejected_update : Rejection → UpdateResult I
  accepted : Runtime I → Accepted I → UpdateResult I

-- The plans of some graphs but the current one.
joined : String → List String → List String → List String
unfolding with_text
joined id [] set = set
joined id (name ∷ names) set = joined id names (if differ name id then with_text name set else set)

module _ {I : Type 0} where
  graph_of : Option (Plan I) → List ℕ
  graph_of none = []
  graph_of (some plan) = plan.graph ∷ []

  -- `plans` of a graph.
  plans_of : Runtime I → ℕ → List String
  plans_of rt address = elim (rt.graphs address) [ none ↦ [] | some graph ↦ graph.plans ]

  -- The graphs of the plans that some dependencies name.
  connect : Runtime I → List Dependency → List ℕ → List ℕ
  unfolding with_address
  connect rt [] set = set
  connect rt (d ∷ ds) set = connect rt ds (elim d.cross [
    | none ↦ set
    | some (name, id) ↦ elim (get String_discrete name rt.plans) [
      | none ↦ set
      | some plan ↦ with_address plan.graph set
    ]
  ])

  connected : Runtime I → List (Action I) → List ℕ → List ℕ
  unfolding connect
  connected rt [] set = set
  connected rt (action ∷ actions) set = connected rt actions (connect rt action.depends_on set)

  joined_graphs : Runtime I → String → List ℕ → List String → List String
  unfolding joined plans_of
  joined_graphs rt id [] set = set
  joined_graphs rt id (address ∷ addresses) set =
      joined_graphs rt id addresses (joined id (plans_of rt address) set)

  -- `plan.graph = graph`
  in_graph : ℕ → List String → List (String × Plan I) → List (String × Plan I)
  in_graph address names [] = []
  in_graph address names ((name, plan) ∷ plans) =
      (name, if has_text name names then record plan { graph = address } else plan)
      ∷ in_graph address names plans

  unfoldable pub refs_of : Runtime I → List String → List Ref
  unfolding nodes_in
  refs_of rt [] = []
  refs_of rt (name ∷ names) =
      map (λ id. (name, id)) (keys (nodes_in (get String_discrete name rt.plans)))
      ++ refs_of rt names

  unfoldable pub revision_after : Option (Plan I) → ℕ → ℕ
  revision_after none revision = suc revision
  revision_after (some plan) revision = max plan.next_revision (suc revision)

  module _ (same_input : I → I → Bool) (named : String → String → String → ℕ → String) where
    -- One turn of the loop over `input.actions`.
    make_node :
        Input I
        → List String
        → List String
        → Action I
        → Option (Node I)
        → Runtime I
        → Node I × Runtime I
    unfolding kept_node new_node with_new_opportunity
    make_node input touched replaced action previous rt =
        let made =
          new_node named input.id input.source input.revision action
            (sequence input.anchor_decision_seq) rt.next_opportunity in
        let fresh : Node I × Runtime I = (made, with_new_opportunity made.identity rt) in
        elim previous [
          | none ↦ fresh
          | some node ↦
              if has_text action.id replaced
              then fresh
              else (kept_node touched (sequence input.anchor_decision_seq) action node, rt)
        ]

    pub make_nodes :
        Input I
        → List String
        → List String
        → List (String × Node I)
        → List (String × Action I)
        → Runtime I
        → List (String × Node I) × Runtime I
    unfolding make_node
    make_nodes input touched replaced nodes [] rt = ([], rt)
    make_nodes input touched replaced nodes ((id, action) ∷ actions) rt =
        let (node, rt') =
          make_node input touched replaced action (get String_discrete id nodes) rt in
        let (rest, rt'') = make_nodes input touched replaced nodes actions rt' in
        ((id, node) ∷ rest, rt'')

    -- The graph of the new plan, with the plans that share ancestry with it.
    pub regraph :
        Input I
        → List (String × Node I)
        → Option (Plan I)
        → Runtime I
        → List String × Plan I × Runtime I
    unfolding graph_of connected joined_graphs in_graph revision_after with_text
    regraph input nodes current rt =
        let names =
          with_text input.id (
            joined_graphs rt input.id (connected rt (values input.actions) (graph_of current))
              []) in
        let next : Plan I = record {
          id = input.id;
          source = input.source;
          revision = input.revision;
          next_revision = revision_after current input.revision;
          nodes = nodes;
          graph = rt.next_graph;
        } in
        (
          names,
          next,
          record rt {
            plans = in_graph rt.next_graph names (put String_discrete input.id next rt.plans);
          },
        )

    -- The order of the graph is taken, the graph is written at its address and settled.
    pub settle_graph : List String → Accepted I → Runtime I → Outcome (List Ref) → UpdateResult I
    settle_graph names result rt exhausted = unfinished
    settle_graph names result rt rejected = crashed
    settle_graph names result rt (finished refs) =
        let graph : Graph = record { plans = names; ordered = refs } in
        accepted
          (recompute graph (record rt {
            graphs = update ℕ_discrete rt.graphs rt.next_graph graph;
            next_graph = suc rt.next_graph;
          }))
          result

    upserted_beyond : List String → List String → List (Action I) → List (Action I)
    upserted_beyond touched replaced [] = []
    upserted_beyond touched replaced (action ∷ actions) =
        let rest = upserted_beyond touched replaced actions in
        if has_text action.id replaced && not (has_text action.id touched)
        then action ∷ rest
        else rest

    unfoldable pub commit : ℕ → Input I → Runtime I → UpdateResult I
    unfolding make_nodes regraph settle_graph upserted_beyond refs_of replaced_from removed_from
        retired_from plan_snapshot nodes_in
    commit fuel input rt =
        let current = get String_discrete input.id rt.plans in
        let nodes = nodes_in current in
        let touched = map (λ action. action.id) input.upserted in
        let replaced = replaced_from same_input touched nodes [] input.ordered in
        let removed = removed_from input.actions nodes in
        let (made, rt') = make_nodes input touched replaced nodes input.actions rt in
        let (names, next, rt'') = regraph input made current rt' in
        settle_graph names
          (record {
            plan = plan_snapshot next;
            upserted = input.upserted ++ upserted_beyond touched replaced input.ordered;
            removed = removed;
            retired = retired_from nodes (removed ++ replaced);
          })
          rt'' (dependency_order Ref-discrete (edges rt'') fuel (refs_of rt'' names))
