-- ===== src/Plan/Readiness/Blocked.antt =====
-- src/plan-runtime.ts: `dependencyReadiness` blocks only where there is a reason.
use pi_speculative_action.Prelude.{
  ℕ, zero, suc, Bool, true, Option, none, some, List, [], ◌∷◌, All, has, has-cons, has-cons_self,
  ◌≡◌, ◌≢◌, refl, sym, ◌∙◌, subst, some-injective, inl, inr, Bool-cases, Option-cases,
}
use pi_speculative_action.Plan.State.{Ref, Ref-discrete, Node, Runtime, node_of}
use pi_speculative_action.Plan.Readiness.{Readiness, blocked, same_ref, visit_node, follow}
use pi_speculative_action.Plan.Readiness.Reaching.{
  Follows, state_of, Reaches, above, IsOpen, check_dependencies-none,
}
use pi_speculative_action.Plan.Readiness.Sound.{IsVisited, visit_node-IsVisited}

module _ {I : Type 0} (rt : Runtime I) (root : Ref) (matching_now : Bool) where
  visit_node-none :
      (ref : Ref) (found : Option (Node I)) (so_far : Readiness) (stack : List Ref)
      → node_of rt ref ≡ found
      → visit_node rt root matching_now ref found so_far stack ≡ none
      → ¬ IsOpen rt root matching_now ref
  unfolding visit_node state_of
  visit_node-none ref none so_far stack e h = λ o. cc (o.there)
  visit_node-none ref (some node) so_far stack e h = λ o.
      let same : o.node ≡ node = some-injective _ _ (sym o.there ∙ e) in
      check_dependencies-none rt (same_ref ref root) matching_now node.identity.proposal_id
        node.action.depends_on so_far stack
        (rw (subst (λ n. n.valid_dependencies ≡ true) same o.valid, visit_node) at h)
        (subst
          (λ n.
            All
              (λ d.
                Follows rt root matching_now d → state_of rt root matching_now ref n d ≢ blocked)
              n.action.depends_on)
          same o.passes)

  IsVisited-Reaches :
      (ref : Ref) (so_far so_far' : Readiness) (stack stack' : List Ref)
      → IsVisited rt root matching_now ref so_far stack so_far' stack'
      → Reaches rt root matching_now ref
      → ((a : Ref) → has Ref-discrete a stack ≡ true → Reaches rt root matching_now a)
      → (a : Ref) → has Ref-discrete a stack' ≡ true
      → Reaches rt root matching_now a
  IsVisited-Reaches ref so_far so_far' stack stack' v r all a k = elim (v.checked.origin a k) [
    | inl h ↦ all a h
    | inr (before, d, after, l, f, q) ↦
        subst (Reaches rt root matching_now) (sym q) (above ref v.node r v.there before d after l f)
  ]

  -- A reason to be blocked.
  unfoldable pub Stuck : Type 0
  Stuck = (a : Ref) × Reaches rt root matching_now a × ¬ IsOpen rt root matching_now a

  pub follow-Stuck :
      (fuel : ℕ) (visited stack : List Ref) (so_far : Readiness)
      → ((a : Ref) → has Ref-discrete a stack ≡ true → Reaches rt root matching_now a)
      → so_far ≢ blocked
      → follow fuel rt root matching_now visited stack so_far ≡ some blocked
      → Stuck
  unfolding follow has Stuck
  follow-Stuck zero visited stack so_far all n h = cc
  follow-Stuck (suc fuel) visited [] so_far all n h = absurd (n (some-injective _ _ h))
  follow-Stuck (suc fuel) visited (ref ∷ stack) so_far all n h =
      let rest : (a : Ref) → has Ref-discrete a stack ≡ true → Reaches rt root matching_now a =
        λ a k. all a (has-cons Ref-discrete a ref stack k) in
      let top = all ref (has-cons_self Ref-discrete ref stack) in
      elim (Bool-cases (has Ref-discrete ref visited)) [
        | inl e ↦ follow-Stuck fuel visited stack so_far rest n (rw (e, follow) at h)
        | inr e ↦
            elim (Option-cases
              (visit_node rt root matching_now ref (node_of rt ref) so_far stack)) [
                | inl w ↦ (ref, top, visit_node-none ref (node_of rt ref) so_far stack refl w)
                | inr ((so_far', stack'), w) ↦
                    let v =
                      visit_node-IsVisited rt root matching_now ref (node_of rt ref) so_far stack
                        refl w in
                    follow-Stuck fuel (ref ∷ visited) stack' so_far'
                      (IsVisited-Reaches ref so_far so_far' stack stack' v top rest)
                      (v.checked.unblocked n) (rw (e, w, follow) at h)
              ]
      ]
