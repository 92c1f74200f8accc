-- ===== src/Plan/Commit/Shapes.antt =====
-- src/plan-runtime.ts: the plans that `commit` leaves.
use pi_speculative_action.Prelude.{
  ℕ, suc, Bool, subst, Option, none, some, String, String_discrete, List, [], ◌∷◌, map, get, put,
  update, ℕ_discrete, ◌≡◌, ◌≢◌, refl, ◌∙◌, arith, ap, ap₂, get-put_self, get-put_ne,
}
use pi_speculative_action.Order.{Outcome, exhausted, rejected, finished}
use pi_speculative_action.Plan.Proposal.{Action}
use pi_speculative_action.Plan.State.{Ref, Node, Plan, Graph, Runtime}
use pi_speculative_action.Plan.Timing.{recompute}
use pi_speculative_action.Plan.Timing.Shapes.{
  NodeShape, node_shapes, shape_of, shape_at, recompute-shape_at,
}
use pi_speculative_action.Plan.Materialize.{nodes_in, replaced_from, Input, Accepted}
use pi_speculative_action.Plan.Commit.{
  accepted, make_node, make_nodes, in_graph, revision_after, regraph, settle_graph, commit,
}

module _ {I : Type 0} where
  -- The actions of nodes, by their keys.
  abbrev pub node_actions : List (String × NodeShape I) → List (String × Action I)
  node_actions [] = []
  node_actions ((id, node) ∷ nodes) = (id, node.action) ∷ node_actions nodes

  in_graph-shape_of :
      (address : ℕ) (names : List String) (plans : List (String × Plan I)) (name : String)
      → shape_of (get String_discrete name (in_graph address names plans))
        ≡ shape_of (get String_discrete name plans)
  unfolding in_graph get
  in_graph-shape_of address names [] name = refl
  in_graph-shape_of address names ((other, plan) ∷ plans) name =
      ground (arith, in_graph-shape_of address names plans name)

  module _ (same_input : I → I → Bool) (named : String → String → String → ℕ → String) where
    make_node-plans :
        (input : Input I) (touched replaced : List String) (action : Action I)
        (previous : Option (Node I)) (rt : Runtime I)
        → ((make_node same_input named input touched replaced action previous rt).0.action ≡ action)
          × ((make_node same_input named input touched replaced action previous rt).1.plans
              ≡ rt.plans)
    unfolding make_node
    make_node-plans input touched replaced action none rt = (refl, refl)
    make_node-plans input touched replaced action (some node) rt = ground arith

    make_nodes-plans :
        (input : Input I) (touched replaced : List String) (nodes : List (String × Node I))
        (actions : List (String × Action I)) (rt : Runtime I)
        → (node_actions
              (node_shapes (make_nodes same_input named input touched replaced nodes actions rt).0)
            ≡ actions)
          × ((make_nodes same_input named input touched replaced nodes actions rt).1.plans
              ≡ rt.plans)
    unfolding make_nodes
    make_nodes-plans input touched replaced nodes [] rt = (refl, refl)
    make_nodes-plans input touched replaced nodes ((id, action) ∷ actions) rt =
        let m =
          make_node same_input named input touched replaced action (get String_discrete id nodes)
            rt in
        let (a, p) =
          make_node-plans input touched replaced action (get String_discrete id nodes) rt in
        let (b, q) = make_nodes-plans input touched replaced nodes actions m.1 in
        (ap₂ (λ (x : Action I) (xs : List (String × Action I)). (id, x) ∷ xs) a b, q ∙ p)

    settle_graph-shape_at :
        (names : List String) (result : Accepted I) (rt : Runtime I) (o : Outcome (List Ref))
        {rt' : Runtime I} {result' : Accepted I}
        → settle_graph same_input named names result rt o ≡ accepted rt' result'
        → (name : String) → shape_at rt' name ≡ shape_at rt name
    unfolding settle_graph
    settle_graph-shape_at names result rt exhausted h name = cc
    settle_graph-shape_at names result rt rejected h name = cc
    settle_graph-shape_at names result rt (finished refs) {rt'} h name =
        let graph : Graph = record { plans = names; ordered = refs } in
        let settled : Runtime I = record rt {
          graphs = update ℕ_discrete rt.graphs rt.next_graph graph;
          next_graph = suc rt.next_graph;
        } in
        let e : recompute graph settled ≡ rt' = cc in
        subst (λ r. shape_at r name ≡ shape_at rt name) e (recompute-shape_at graph settled name)

    -- The plan that is committed, and the others.
    pub record Committed (input : Input I) (rt rt' : Runtime I) : Type 0 where
      pub nodes : List (String × NodeShape I)
      pub there :
          shape_at rt' input.id
          ≡ some (record {
            source = input.source;
            revision = input.revision;
            next_revision = revision_after (get String_discrete input.id rt.plans) input.revision;
            nodes = nodes;
          })
      pub actions : node_actions nodes ≡ input.actions
      pub others : (name : String) → name ≢ input.id → shape_at rt' name ≡ shape_at rt name

    pub commit-Committed :
        (fuel : ℕ) (input : Input I) (rt : Runtime I) {rt' : Runtime I} {result : Accepted I}
        → commit same_input named fuel input rt ≡ accepted rt' result
        → Committed input rt rt'
    unfolding commit regraph
    commit-Committed fuel input rt {rt'} h =
        let touched = map (λ (action : Action I). action.id) input.upserted in
        let current = get String_discrete input.id rt.plans in
        let nodes = nodes_in current in
        let replaced = replaced_from same_input touched nodes [] input.ordered in
        let made = make_nodes same_input named input touched replaced nodes input.actions rt in
        let kept = make_nodes-plans input touched replaced nodes input.actions rt in
        let g = regraph same_input named input made.0 current made.1 in
        let seen : (name : String)
            → shape_at rt' name
              ≡ shape_of (get String_discrete name (put String_discrete input.id g.1 rt.plans)) =
          λ name.
            settle_graph-shape_at g.0 _ g.2 _ h name
            ∙ in_graph-shape_of made.1.next_graph g.0
                (put String_discrete input.id g.1 made.1.plans) name
            ∙ ap
                (λ (p : List (String × Plan I)).
                  shape_of (get String_discrete name (put String_discrete input.id g.1 p)))
                kept.1 in
        record {
          nodes = node_shapes made.0;
          there = seen input.id ∙ ap shape_of (get-put_self String_discrete input.id g.1 rt.plans);
          actions = kept.0;
          others = λ name n.
              seen name ∙ ap shape_of (get-put_ne String_discrete input.id name g.1 rt.plans n);
        }
