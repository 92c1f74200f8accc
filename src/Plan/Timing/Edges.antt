-- ===== src/Plan/Timing/Edges.antt =====
-- src/plan-runtime.ts: the graph that the parents of the nodes make, which a pass over the nodes
-- leaves as it is.
use pi_speculative_action.Prelude.{
  Option, none, some, String, List, [], ◌∷◌, is_some, ◌≡◌, ◌≢◌, refl, ◌∙◌, arith, ap, ap₂, fun_ext,
}
use pi_speculative_action.Plan.Proposal.{Dependency}
use pi_speculative_action.Plan.State.{
  Ref, Ref-discrete, Node, Runtime, node_of, parent, ref_of, set_node, pinned,
}
use pi_speculative_action.Plan.Access.{node_of-set_node_self, node_of-set_node_ne}

module _ {I : Type 0} where
  unfoldable pub present : Option (Node I) → Ref → List (Option Ref) → List (Option Ref)
  present none ref refs = refs
  present (some node) ref refs = some ref ∷ refs

  -- The parents that are there, by name.
  unfoldable pub present_parents : Runtime I → String → List Dependency → List (Option Ref)
  unfolding present
  present_parents rt proposal [] = []
  present_parents rt proposal (d ∷ ds) =
      present (parent rt proposal d) (ref_of proposal d) (present_parents rt proposal ds)

  unfoldable pub edges_of : Runtime I → Option (Node I) → List (Option Ref)
  edges_of rt none = []
  edges_of rt (some node) = present_parents rt node.identity.proposal_id node.action.depends_on

  -- The dependencies that the traversal of the graph follows.
  unfoldable pub edges : Runtime I → Ref → List (Option Ref)
  unfolding edges_of
  edges rt ref = edges_of rt (node_of rt ref)

  -- A write that keeps what a node is.
  pub record Rewrites (rt : Runtime I) (ref : Ref) (node : Node I) : Type 0 where
    pub old : Node I
    pub there : node_of rt ref ≡ some old
    pub same_identity : node.identity ≡ old.identity
    pub same_action : node.action ≡ old.action

  module _ (rt : Runtime I) (ref : Ref) (node : Node I) (w : Rewrites rt ref node) where
    pub parent_ne :
        (proposal : String) (d : Dependency)
        → ref_of proposal d ≢ ref
        → parent (set_node ref node rt) proposal d ≡ parent rt proposal d
    unfolding parent ref_of
    parent_ne proposal d h =
        ap (pinned d.cross) (node_of-set_node_ne rt ref node (ref_of proposal d) h)

    pub parent_self :
        (proposal : String) (d : Dependency)
        → ref_of proposal d ≡ ref
        → parent (set_node ref node rt) proposal d ≡ pinned d.cross (some node)
    unfolding parent
    parent_self proposal d h = rw (h, node_of-set_node_self rt ref node w.there)

    parent_old :
        (proposal : String) (d : Dependency)
        → ref_of proposal d ≡ ref
        → parent rt proposal d ≡ pinned d.cross (some w.old)
    unfolding parent
    parent_old proposal d h = rw (h, w.there)

    pinned-is_some :
        (cross : Option (String × String))
        → is_some (pinned cross (some node)) ≡ is_some (pinned cross (some w.old))
    unfolding pinned
    pinned-is_some none = refl
    pinned-is_some (some (p, i)) =
        let same : node.identity.id ≡ w.old.identity.id = ap (λ x. x.id) w.same_identity in
        ground arith

    pub parent-is_some :
        (proposal : String) (d : Dependency)
        → is_some (parent (set_node ref node rt) proposal d) ≡ is_some (parent rt proposal d)
    parent-is_some proposal d = elim (Ref-discrete (ref_of proposal d) ref) [
      | yes p ↦ rw (parent_self proposal d p, parent_old proposal d p) (pinned-is_some d.cross)
      | no p ↦ rw (parent_ne proposal d p)
    ]

    present_eq :
        (a b : Option (Node I)) (r : Ref) (refs : List (Option Ref))
        → is_some a ≡ is_some b
        → present a r refs ≡ present b r refs
    unfolding present
    present_eq none none r refs h = refl
    present_eq none (some y) r refs h = cc
    present_eq (some x) none r refs h = cc
    present_eq (some x) (some y) r refs h = refl

    present_parents_eq :
        (proposal : String) (ds : List Dependency)
        → present_parents (set_node ref node rt) proposal ds ≡ present_parents rt proposal ds
    unfolding present_parents
    present_parents_eq proposal [] = refl
    present_parents_eq proposal (d ∷ ds) = rw (present_parents_eq proposal ds) (
        present_eq _ _ (ref_of proposal d) (present_parents rt proposal ds)
          (parent-is_some proposal d))

    edges_of_eq : (m : Option (Node I)) → edges_of (set_node ref node rt) m ≡ edges_of rt m
    unfolding edges_of
    edges_of_eq none = refl
    edges_of_eq (some other) = present_parents_eq other.identity.proposal_id other.action.depends_on

    -- Such a write leaves the graph.
    pub edges-set_node : edges (set_node ref node rt) ≡ edges rt
    unfolding edges
    edges-set_node = fun_ext λ r. elim (Ref-discrete r ref) [
      | yes p ↦
          rw (p, node_of-set_node_self rt ref node w.there, w.there, edges_of)
            (present_parents_eq _ _
              ∙ ap₂ (present_parents rt) (ap (λ i. i.proposal_id) w.same_identity)
                  (ap (λ a. a.depends_on) w.same_action))
      | no p ↦ rw (node_of-set_node_ne rt ref node r p) (edges_of_eq (node_of rt r))
    ]
