-- ===== src/Plan/Readiness/Complete.antt =====
-- src/plan-runtime.ts: the readiness of a node, as `dependencyReadiness` computes it, and its reasons.
use pi_speculative_action.Prelude.{
  ℕ, zero, suc, ◌≤◌, Bool, true, some, List, [], ◌∷◌, All, has, ap, ◌≡◌, ◌≢◌, ◌⊎◌, ◌↔◌, refl, sym,
  ◌∙◌, subst, arith, some-injective, inl, inr, Bool-cases, Option-cases,
}
use pi_speculative_action.Plan.State.{Ref, Ref-discrete, Node, Runtime, node_of}
use pi_speculative_action.Plan.Readiness.{
  Readiness, ready, waiting, blocked, same_ref, visit_node, follow, dependency_readiness,
}
use pi_speculative_action.Plan.Readiness.Reaching.{
  Follows, state_of, Reaches, here, IsOpen, AllReady,
}
use pi_speculative_action.Plan.Readiness.Sound.{
  IsVisited, visit_node-IsVisited, dependency_readiness-IsOpen,
}
use pi_speculative_action.Plan.Readiness.Blocked.{Stuck, follow-Stuck}
use pi_speculative_action.Plan.Readiness.Ending.{readiness_turns, follow-is_some}

module _ {I : Type 0} (rt : Runtime I) (root : Ref) (matching_now : Bool) where
  -- The dependencies of the node itself are ready.
  pub RootReady : Type 0
  RootReady =
      (node : Node I) × (node_of rt root ≡ some node)
      × All
          (λ d. Follows rt root matching_now d → state_of rt root matching_now root node d ≡ ready)
          node.action.depends_on

  same_ref_refl : same_ref root root ≡ true
  unfolding same_ref
  same_ref_refl = ground arith

  same_ref-eq : (ref : Ref) → same_ref ref root ≡ true → ref ≡ root
  unfolding same_ref
  same_ref-eq ref h = ground arith

  IsVisited-not-RootReady :
      (ref : Ref) (so_far so_far' : Readiness) (stack stack' : List Ref)
      (v : IsVisited rt root matching_now ref so_far stack so_far' stack')
      → same_ref ref root ≡ true
      → ¬ AllReady rt
          (same_ref ref root)
          matching_now
          v.node.identity.proposal_id
          v.node.action.depends_on
      → ¬ RootReady
  unfolding RootReady state_of
  IsVisited-not-RootReady ref so_far so_far' stack stack' v s n (node, there, all) =
      let q = same_ref-eq ref s in
      let same : node ≡ v.node =
        some-injective _ _ (sym there ∙ ap (node_of rt) (sym q) ∙ v.there) in
      n (
        subst
          (λ m.
            AllReady rt (same_ref ref root) matching_now m.identity.proposal_id m.action.depends_on)
          same
          (subst
            (λ x.
              All
                (λ d.
                  Follows rt root matching_now d → state_of rt root matching_now x node d ≡ ready)
                node.action.depends_on)
            (sym q) all))

  follow-Verdict :
      (fuel : ℕ) (visited stack : List Ref) (so_far : Readiness) {r : Readiness}
      → follow fuel rt root matching_now visited stack so_far ≡ some r
      → (r ≡ ready → so_far ≡ ready) × (r ≡ waiting → (so_far ≡ waiting) ⊎ ¬ RootReady)
  unfolding follow
  follow-Verdict zero visited stack so_far h = cc
  follow-Verdict (suc fuel) visited [] so_far h =
      let e = some-injective _ _ h in (λ k. e ∙ k, λ k. inl (e ∙ k))
  follow-Verdict (suc fuel) visited (ref ∷ stack) so_far h =
      elim (Bool-cases (has Ref-discrete ref visited)) [
        | inl e ↦ follow-Verdict fuel visited stack so_far (rw (e, follow) at h)
        | inr e ↦
            elim (Option-cases
              (visit_node rt root matching_now ref (node_of rt ref) so_far stack)) [
                | inl w ↦ let b = some-injective _ _ (rw (e, w, follow) at h) in (λ k. cc, λ k. cc)
                | inr ((so_far', stack'), w) ↦
                    let v =
                      visit_node-IsVisited rt root matching_now ref (node_of rt ref) so_far stack
                        refl w in
                    let (r, k) =
                      follow-Verdict fuel (ref ∷ visited) stack' so_far' (rw (e, w, follow) at h) in
                    (
                      λ x. v.checked.was_ready (r x),
                      λ x. elim (k x) [
                        | inl y ↦ elim (v.checked.was_waiting y) [
                          | inl z ↦ inl z
                          | inr (s, n) ↦
                              inr (IsVisited-not-RootReady ref so_far so_far' stack stack' v s n)
                        ]
                        | inr y ↦ inr y
                      ],
                    )
              ]
      ]

  dependency_readiness-RootReady :
      (fuel : ℕ) → dependency_readiness fuel rt root matching_now ≡ some ready → RootReady
  unfolding dependency_readiness follow has RootReady state_of
  dependency_readiness-RootReady zero h = cc
  dependency_readiness-RootReady (suc fuel) h =
      elim (Option-cases (visit_node rt root matching_now root (node_of rt root) ready [])) [
        | inl w ↦ cc (rw (w, follow) at h)
        | inr ((so_far, stack), w) ↦
            let v =
              visit_node-IsVisited rt root matching_now root (node_of rt root) ready [] refl w in
            let (r, k) = follow-Verdict fuel (root ∷ []) stack so_far (rw (w, follow) at h) in
            (v.node, v.there, v.checked.all_ready (r refl) same_ref_refl)
      ]

  -- Blocked exactly if something is not open that the node leads to, and else ready exactly if its
  -- own dependencies are.
  pub record IsReadiness (r : Readiness) : Type 0 where
    pub unblocked_iff :
        (r ≢ blocked) ↔ ((a : Ref) → Reaches rt root matching_now a → IsOpen rt root matching_now a)
    pub ready_iff : r ≢ blocked → (r ≡ ready) ↔ RootReady

  Stuck-not-IsOpen :
      Stuck rt root matching_now
      → ¬ ((a : Ref) → Reaches rt root matching_now a → IsOpen rt root matching_now a)
  unfolding Stuck
  Stuck-not-IsOpen (a, r, n) all = n (all a r)

  ready_of :
      (fuel : ℕ) (r : Readiness)
      → dependency_readiness fuel rt root matching_now ≡ some r
      → r ≢ blocked
      → RootReady
      → r ≡ ready
  unfolding dependency_readiness
  ready_of fuel ready h n k = refl
  ready_of fuel waiting h n k = elim ((follow-Verdict fuel [] (root ∷ []) ready h).1 refl) [
    | inl x ↦ cc
    | inr x ↦ absurd (x k)
  ]
  ready_of fuel blocked h n k = absurd (n refl)

  top-Reaches : (a : Ref) → has Ref-discrete a (root ∷ []) ≡ true → Reaches rt root matching_now a
  unfolding has
  top-Reaches a k =
      let e : a ≡ root = ground arith in subst (Reaches rt root matching_now) (sym e) here

  -- From `readiness_turns` many turns on, the readiness of a node ends with a result. It is blocked
  -- exactly if one of the nodes that dependencies lead to from it, itself among them, has left its
  -- plan, has invalid dependencies or has a dependency that is blocked; resources do not count.
  -- If it is not blocked, it is ready exactly if each dependency of the node is ready.
  pub dependency_readiness-IsReadiness :
      (fuel : ℕ)
      → readiness_turns rt ≤ fuel
      → (r : Readiness) × (dependency_readiness fuel rt root matching_now ≡ some r) × IsReadiness r
  unfolding dependency_readiness readiness_turns
  dependency_readiness-IsReadiness fuel l =
      let (r, h) = follow-is_some rt root matching_now fuel [] (root ∷ []) ready (omega arith) in
      (
        r,
        h,
        record {
          unblocked_iff = (
            λ n. dependency_readiness-IsOpen rt root matching_now fuel h n,
            λ all e.
                Stuck-not-IsOpen
                  (follow-Stuck rt root matching_now fuel [] (root ∷ []) ready top-Reaches (λ x. cc)
                    (h ∙ ap some e))
                  all,
          );
          ready_iff =
              λ n. (λ e. dependency_readiness-RootReady fuel (h ∙ ap some e), ready_of fuel r h n);
        },
      )
