-- ===== src/Plan/Commit/Ending.antt =====
-- src/plan-runtime.ts: the traversal that `commit` makes over the nodes of a graph has an end.
use pi_speculative_action.Prelude.{
  ap, Bool, subst, ℕ, ◌≤◌, true, Option, none, some, String, String_discrete, List, [], ◌∷◌, map,
  All, All-imp, All-append, All-map, All-has_self, has, has-map, has-append_left, has-append_right,
  get, keys, has-keys, get-keys, is_some, ◌≡◌, ◌≢◌, refl, arith,
}
use pi_speculative_action.Order.{Outcome, exhausted, rejected, finished, dependency_order}
use pi_speculative_action.Order.Complete.{Known, IsClosed, turns}
use pi_speculative_action.Order.Fuel.{dependency_order-Settled}
use pi_speculative_action.Plan.Proposal.{Dependency}
use pi_speculative_action.Plan.State.{
  Ref, Ref-discrete, Node, Plan, Runtime, node_in, node_of, parent, pinned, ref_of,
}
use pi_speculative_action.Plan.Timing.Edges.{edges, edges_of, present, present_parents}
use pi_speculative_action.Plan.Materialize.{Input, Accepted, nodes_in}
use pi_speculative_action.Plan.Commit.{commit, settle_graph, UpdateResult, unfinished, refs_of}

-- A computation on fuel that has one result as soon as there is enough fuel.
abbrev pub Ends : {I : Type 0} → (ℕ → UpdateResult I) → Type 0
Ends {I} run =
    (enough : ℕ) × (result : UpdateResult I) × (result ≢ unfinished)
    × ((fuel : ℕ) → enough ≤ fuel → run fuel ≡ result)

module _ {I : Type 0} (rt : Runtime I) where
  -- The nodes of all plans.
  unfoldable pub all_refs : List Ref
  all_refs = refs_of rt (keys rt.plans)

  unfoldable pub IsThere : Ref → Type 0
  IsThere ref = is_some (node_of rt ref) ≡ true

  unfoldable pub IsListed : Ref → Type 0
  IsListed ref = has Ref-discrete ref all_refs ≡ true

  node_in-keys :
      (name id : String) (plan : Option (Plan I))
      → is_some (node_in plan id) ≡ true
      → has Ref-discrete (name, id) (map (λ i. (name, i)) (keys (nodes_in plan))) ≡ true
  unfolding node_in nodes_in
  node_in-keys name id none h = cc
  node_in-keys name id (some plan) h =
      has-map (λ i. (name, i)) String_discrete Ref-discrete id (keys plan.nodes)
        (has-keys String_discrete id plan.nodes h)

  refs_of-listed :
      (name id : String) (names : List String)
      → has String_discrete name names ≡ true
      → IsThere (name, id)
      → has Ref-discrete (name, id) (refs_of rt names) ≡ true
  unfolding refs_of has node_of IsThere
  refs_of-listed name id [] h k = cc
  refs_of-listed name id (other ∷ names) h k = elim (String_discrete name other) [
    | yes e ↦
        has-append_left Ref-discrete (name, id) _ (refs_of rt names)
          (subst
            (λ n.
              has Ref-discrete (name, id)
                (map (λ i. (n, i)) (keys (nodes_in (get String_discrete n rt.plans))))
              ≡ true)
            e (node_in-keys name id (get String_discrete name rt.plans) k))
    | no n ↦
        has-append_right Ref-discrete (name, id) _ (refs_of rt names)
          (refs_of-listed name id names (ground arith) k)
  ]

  node_in-is_some :
      (plan : Option (Plan I)) (id : String)
      → is_some (node_in plan id) ≡ true
      → is_some plan ≡ true
  unfolding node_in
  node_in-is_some none id h = cc
  node_in-is_some (some plan) id h = refl

  pub IsThere-IsListed : (ref : Ref) → IsThere ref → IsListed ref
  unfolding IsListed all_refs IsThere node_of
  IsThere-IsListed (name, id) h =
      refs_of-listed name id (keys rt.plans)
        (has-keys String_discrete name rt.plans (node_in-is_some _ id h)) h

  nodes_in-IsThere :
      (name : String) (plan : Option (Plan I))
      → get String_discrete name rt.plans ≡ plan
      → All IsThere (map (λ id. (name, id)) (keys (nodes_in plan)))
  unfolding nodes_in IsThere node_of node_in
  nodes_in-IsThere name none e = tt
  nodes_in-IsThere name (some plan) e =
      All-map (λ id. (name, id)) IsThere (keys plan.nodes)
        (All-imp _ _ (λ id h. rw (e, node_in) (get-keys String_discrete id plan.nodes h))
          (keys plan.nodes) (All-has_self String_discrete (keys plan.nodes)))

  refs_of-IsThere : (names : List String) → All IsThere (refs_of rt names)
  unfolding refs_of
  refs_of-IsThere [] = tt
  refs_of-IsThere (name ∷ names) =
      All-append IsThere _ _ (nodes_in-IsThere name _ refl) (refs_of-IsThere names)

  pinned-is_some :
      (cross : Option (String × String)) (node : Option (Node I))
      → is_some (pinned cross node) ≡ true
      → is_some node ≡ true
  unfolding pinned
  pinned-is_some none there h = h
  pinned-is_some (some x) none h = cc
  pinned-is_some (some x) (some node) h = refl

  present-Known :
      (above : Option (Node I)) (ref : Ref) (refs : List (Option Ref))
      → (is_some above ≡ true → IsListed ref)
      → All (Known Ref-discrete (edges rt) all_refs) refs
      → All (Known Ref-discrete (edges rt) all_refs) (present above ref refs)
  unfolding present IsListed
  present-Known none ref refs h k = k
  present-Known (some node) ref refs h k = (h refl, k)

  present_parents-Known :
      (proposal : String) (ds : List Dependency)
      → All (Known Ref-discrete (edges rt) all_refs) (present_parents rt proposal ds)
  unfolding present_parents parent IsThere
  present_parents-Known proposal [] = tt
  present_parents-Known proposal (d ∷ ds) =
      present-Known (parent rt proposal d) (ref_of proposal d) _
        (λ h. IsThere-IsListed (ref_of proposal d) (pinned-is_some d.cross _ h))
        (present_parents-Known proposal ds)

  edges_of-Known :
      (node : Option (Node I)) → All (Known Ref-discrete (edges rt) all_refs) (edges_of rt node)
  unfolding edges_of
  edges_of-Known none = tt
  edges_of-Known (some node) =
      present_parents-Known node.identity.proposal_id node.action.depends_on

  edges-IsClosed : IsClosed Ref-discrete (edges rt) all_refs
  unfolding edges
  edges-IsClosed ref h = edges_of-Known (node_of rt ref)

  order-Settled :
      (names : List String)
      → (o : Outcome (List Ref)) × (o ≢ exhausted)
        × ((fuel : ℕ)
            → turns Ref-discrete (edges rt) all_refs ≤ fuel
            → dependency_order Ref-discrete (edges rt) fuel (refs_of rt names) ≡ o)
  unfolding IsListed
  order-Settled names =
      dependency_order-Settled Ref-discrete (edges rt) all_refs (refs_of rt names) edges-IsClosed
        (All-imp _ _ IsThere-IsListed (refs_of rt names) (refs_of-IsThere names))

module _ {I : Type 0} (same_input : I → I → Bool)
    (named : String → String → String → ℕ → String) where
  settle_graph-ne-unfinished :
      (names : List String) (result : Accepted I) (rt : Runtime I) (o : Outcome (List Ref))
      → o ≢ exhausted
      → settle_graph same_input named names result rt o ≢ unfinished
  unfolding settle_graph
  settle_graph-ne-unfinished names result rt exhausted h = absurd (h refl)
  settle_graph-ne-unfinished names result rt rejected h = λ e. cc
  settle_graph-ne-unfinished names result rt (finished refs) h = λ e. cc

  settle_graph-Ends :
      (names members : List String) (result : Accepted I) (rt : Runtime I)
      → Ends (λ fuel.
        settle_graph same_input named names result rt
          (dependency_order Ref-discrete (edges rt) fuel (refs_of rt members)))
  settle_graph-Ends names members result rt =
      let (o, ne, same) = order-Settled rt members in
      (
        turns Ref-discrete (edges rt) (all_refs rt),
        settle_graph same_input named names result rt o,
        settle_graph-ne-unfinished names result rt o ne,
        λ fuel l. ap (settle_graph same_input named names result rt) (same fuel l),
      )

  pub commit-Ends :
      (input : Input I) (rt : Runtime I) → Ends (λ fuel. commit same_input named fuel input rt)
  unfolding commit
  commit-Ends input rt = settle_graph-Ends _ _ _ _
