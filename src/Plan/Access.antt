-- ===== src/Plan/Access.antt =====
-- Reads and writes of the nodes of src/plan-runtime.ts.
use pi_speculative_action.Prelude.{
  some, String_discrete, get, put, ◌≡◌, ◌≢◌, refl, inl, inr, arith, get-put_self, get-put_ne,
  Option-cases, ap,
}
use pi_speculative_action.Plan.State.{Ref, Node, Runtime, node_of, node_in, set_node, put_in}

module _ {I : Type 0} (rt : Runtime I) (ref : Ref) (node : Node I) where
  -- A write is read back.
  pub node_of-set_node_self :
      {old : Node I} → node_of rt ref ≡ some old → node_of (set_node ref node rt) ref ≡ some node
  unfolding node_of set_node
  node_of-set_node_self h = elim (Option-cases (get String_discrete ref.0 rt.plans)) [
    | inl e ↦ cc (rw (e, node_in) at h)
    | inr (plan, e) ↦
        rw (e, put_in)
          (ground (
            arith,
            get-put_self String_discrete ref.0
                (record plan { nodes = put String_discrete ref.1 node plan.nodes }) rt.plans,
            get-put_self String_discrete ref.1 node plan.nodes,
          ))
  ]

  -- A write leaves the other nodes.
  pub node_of-set_node_ne :
      (other : Ref) → other ≢ ref → node_of (set_node ref node rt) other ≡ node_of rt other
  unfolding node_of set_node
  node_of-set_node_ne other h = elim (Option-cases (get String_discrete ref.0 rt.plans)) [
    | inl e ↦ rw (e, put_in) refl
    | inr (plan, e) ↦
        rw (e, put_in)
          (elim (String_discrete other.0 ref.0) [
            | yes p ↦ elim (String_discrete other.1 ref.1) [
              | yes q ↦ absurd (h (λ i. (p i, q i)))
              | no q ↦
                  rw
                    (
                      p,
                      get-put_self String_discrete ref.0
                          (record plan { nodes = put String_discrete ref.1 node plan.nodes })
                          rt.plans,
                      e,
                      node_in,
                    )
                    (get-put_ne String_discrete ref.1 other.1 node plan.nodes q)
            ]
            | no p ↦
                ap (λ x. node_in x other.1)
                  (get-put_ne String_discrete ref.0 other.0
                    (record plan { nodes = put String_discrete ref.1 node plan.nodes }) rt.plans p)
          ])
  ]
