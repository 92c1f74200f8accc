-- ===== src/Plan/Timing/Shapes.antt =====
-- src/plan-runtime.ts: what `recompute` leaves of a plan, which is all but the windows of its nodes.
use pi_speculative_action.Prelude.{
  ℕ, ◌+◌, Option, none, some, String, String_discrete, List, [], ◌∷◌, reverse, get, put, ◌≡◌, refl,
  ◌∙◌, inl, inr, arith, get-put_self, get-put_ne, Option-cases,
}
use pi_speculative_action.Settlement.{PlanActionIdentity}
use pi_speculative_action.Plan.Proposal.{Action, Dependency}
use pi_speculative_action.Plan.State.{
  Ref, Node, Plan, Graph, Runtime, node_of, node_in, set_node, put_in, parent, ref_of, pinned,
  has_identity,
}
use pi_speculative_action.Plan.Timing.{
  recompute, forward, forward_one, backward, backward_one, timed, raise, raise_parents,
}
use pi_speculative_action.Plan.Timing.Edges.{Rewrites}
use pi_speculative_action.Plan.Timing.Forward.{timed-Rewrites}

pub record NodeShape (I : Type 0) : Type 0 where
  pub identity : PlanActionIdentity
  pub action : Action I

pub record Shape (I : Type 0) : Type 0 where
  pub source : String
  pub revision : ℕ
  pub next_revision : ℕ
  pub nodes : List (String × NodeShape I)

module _ {I : Type 0} where
  abbrev pub node_shape : Node I → NodeShape I
  node_shape node = record { identity = node.identity; action = node.action }

  abbrev pub node_shapes : List (String × Node I) → List (String × NodeShape I)
  node_shapes [] = []
  node_shapes ((id, node) ∷ nodes) = (id, node_shape node) ∷ node_shapes nodes

  abbrev pub shape : Plan I → Shape I
  shape plan = record {
    source = plan.source;
    revision = plan.revision;
    next_revision = plan.next_revision;
    nodes = node_shapes plan.nodes;
  }

  abbrev pub shape_of : Option (Plan I) → Option (Shape I)
  shape_of none = none
  shape_of (some plan) = some (shape plan)

  abbrev pub shape_at : Runtime I → String → Option (Shape I)
  shape_at rt name = shape_of (get String_discrete name rt.plans)

  node_shapes-put :
      (id : String) (node old : Node I) (nodes : List (String × Node I))
      → get String_discrete id nodes ≡ some old
      → node_shape node ≡ node_shape old
      → node_shapes (put String_discrete id node nodes) ≡ node_shapes nodes
  unfolding get put
  node_shapes-put id node old [] h e = cc
  node_shapes-put id node old ((j, n) ∷ nodes) h e =
      ground (arith, node_shapes-put id node old nodes)

  put-shape_of :
      (rt : Runtime I) (ref : Ref) (node old : Node I) (plan : Plan I)
      → get String_discrete ref.0 rt.plans ≡ some plan
      → get String_discrete ref.1 plan.nodes ≡ some old
      → node_shape node ≡ node_shape old
      → (name : String)
      → shape_of (
          get String_discrete name (
            put String_discrete ref.0
              (record plan { nodes = put String_discrete ref.1 node plan.nodes })
              rt.plans))
        ≡ shape_at rt name
  put-shape_of rt ref node old plan e k same name = elim (String_discrete name ref.0) [
    | yes p ↦ rw (
      p,
      get-put_self String_discrete ref.0
          (record plan { nodes = put String_discrete ref.1 node plan.nodes }) rt.plans,
      e,
      node_shapes-put ref.1 node old plan.nodes k same,
    )
    | no p ↦ rw (
        get-put_ne String_discrete ref.0 name
          (record plan { nodes = put String_discrete ref.1 node plan.nodes }) rt.plans p)
  ]

  pub set_node-shape_at :
      (rt : Runtime I) (ref : Ref) (node : Node I)
      → Rewrites rt ref node
      → (name : String) → shape_at (set_node ref node rt) name ≡ shape_at rt name
  unfolding set_node put_in node_of node_in
  set_node-shape_at rt ref node w name = elim (Option-cases (get String_discrete ref.0 rt.plans)) [
    | inl e ↦ cc (rw (node_of, e, node_in) at w.there)
    | inr (plan, e) ↦
        rw (e, put_in)
          (put-shape_of rt ref node w.old plan e (rw (node_of, e, node_in) at w.there)
            (ground arith) name)
  ]

  forward-shape_at :
      (refs : List Ref) (rt : Runtime I) (name : String)
      → shape_at (forward refs rt) name ≡ shape_at rt name
  unfolding forward forward_one
  forward-shape_at [] rt name = refl
  forward-shape_at (ref ∷ refs) rt name =
      forward-shape_at refs (forward_one ref rt) name ∙ elim (Option-cases (node_of rt ref)) [
        | inl e ↦ rw (forward_one, e)
        | inr (node, e) ↦
            rw (forward_one, e)
              (set_node-shape_at rt ref (timed rt node) (timed-Rewrites rt ref node e) name)
      ]

  pinned-eq-some :
      (cross : Option (String × String)) (m : Option (Node I)) {node : Node I}
      → pinned cross m ≡ some node
      → m ≡ some node
  unfolding pinned has_identity
  pinned-eq-some none m h = h
  pinned-eq-some (some c) none h = cc
  pinned-eq-some (some c) (some n) h = ground arith

  parent-node_of :
      (rt : Runtime I) (proposal : String) (d : Dependency) {node : Node I}
      → parent rt proposal d ≡ some node
      → node_of rt (ref_of proposal d) ≡ some node
  unfolding parent
  parent-node_of rt proposal d h = pinned-eq-some d.cross (node_of rt (ref_of proposal d)) h

  raise_parents-shape_at :
      (steps : ℕ) (proposal : String) (ds : List Dependency) (rt : Runtime I) (name : String)
      → shape_at (raise_parents steps proposal ds rt) name ≡ shape_at rt name
  unfolding raise_parents raise
  raise_parents-shape_at steps proposal [] rt name = refl
  raise_parents-shape_at steps proposal (d ∷ ds) rt name =
      raise_parents-shape_at steps proposal ds _ name ∙ elim (Option-cases (parent rt proposal d)) [
        | inl e ↦ rw e
        | inr (above, e) ↦ rw e (
            set_node-shape_at rt (ref_of proposal d) _
              (record {
                old = above;
                there = parent-node_of rt proposal d e;
                same_identity = refl;
                same_action = refl;
              })
              name)
      ]

  backward-shape_at :
      (refs : List Ref) (rt : Runtime I) (name : String)
      → shape_at (backward refs rt) name ≡ shape_at rt name
  unfolding backward backward_one
  backward-shape_at [] rt name = refl
  backward-shape_at (ref ∷ refs) rt name =
      backward-shape_at refs (backward_one ref rt) name ∙ elim (Option-cases (node_of rt ref)) [
        | inl e ↦ rw (backward_one, e)
        | inr (node, e) ↦
            rw (backward_one, e)
              (raise_parents-shape_at (node.critical_path_steps + 1) node.identity.proposal_id
                  node.action.depends_on _ name
                ∙ set_node-shape_at rt ref _
                    (record { old = node; there = e; same_identity = refl; same_action = refl })
                    name)
      ]

  pub recompute-shape_at :
      (graph : Graph) (rt : Runtime I) (name : String)
      → shape_at (recompute graph rt) name ≡ shape_at rt name
  unfolding recompute
  recompute-shape_at graph rt name =
      backward-shape_at (reverse graph.ordered) _ name ∙ forward-shape_at graph.ordered rt name
