-- ===== src/Plan/Readiness/Ending.antt =====
-- src/plan-runtime.ts: `dependencyReadiness` ends, since it expands a node once.
use pi_speculative_action.Prelude.{
  ℕ, zero, suc, ◌+◌, ◌≤◌, ◌<◌, Bool, true, false, Option, none, some, List, [], ◌∷◌, has, length,
  ◌≡◌, if◌then◌else◌, has-cons_self, subst, refl, arith, inl, inr, Bool-cases, Option-cases,
}
use pi_speculative_action.Plan.State.{Ref, Ref-discrete, Node, Runtime, node_of}
use pi_speculative_action.Plan.Commit.Ending.{all_refs, IsThere, IsListed, IsThere-IsListed}
use pi_speculative_action.Plan.Readiness.{Readiness, blocked, visit_node, follow}
use pi_speculative_action.Plan.Readiness.Sound.{IsVisited, visit_node-IsVisited}

module _ {I : Type 0} (rt : Runtime I) where
  -- The number of the dependencies of a node.
  unfoldable pub degree : Option (Node I) → ℕ
  degree none = 0
  degree (some node) = length node.action.depends_on

  unfoldable pub weight : List Ref → List Ref → ℕ
  unfolding degree
  weight visited [] = 0
  weight visited (a ∷ refs) =
      (if has Ref-discrete a visited then 0 else degree (node_of rt a)) + weight visited refs

  -- Turns enough: each node is expanded once.
  unfoldable pub readiness_turns : ℕ
  unfolding weight
  readiness_turns = suc (suc (weight [] (all_refs rt)))

  weight-cons-le :
      (ref : Ref) (visited refs : List Ref) → weight (ref ∷ visited) refs ≤ weight visited refs
  unfolding weight has
  weight-cons-le ref visited [] = omega arith
  weight-cons-le ref visited (a ∷ refs) = ground (arith, weight-cons-le ref visited refs)

  weight-visit :
      (ref : Ref) (visited refs : List Ref)
      → has Ref-discrete ref visited ≡ false
      → has Ref-discrete ref refs ≡ true
      → weight (ref ∷ visited) refs + degree (node_of rt ref) ≤ weight visited refs
  unfolding weight has
  weight-visit ref visited [] e h = cc
  weight-visit ref visited (a ∷ refs) e h = elim (Ref-discrete ref a) [
    | yes p ↦
        subst
          (λ b.
            weight (ref ∷ visited) (b ∷ refs) + degree (node_of rt ref) ≤ weight visited (b ∷ refs))
          p
          (ground
            (arith, has-cons_self Ref-discrete ref visited, weight-cons-le ref visited refs, e))
    | no n ↦ ground (arith, weight-visit ref visited refs e (ground arith))
  ]

  module _ (root : Ref) (matching_now : Bool) where
    popped :
        (ref : Ref) (visited stack : List Ref) (so_far so_far' : Readiness) (stack' : List Ref)
        {fuel : ℕ}
        → has Ref-discrete ref visited ≡ false
        → IsVisited rt root matching_now ref so_far stack so_far' stack'
        → length (ref ∷ stack) + weight visited (all_refs rt) < suc fuel
        → length stack' + weight (ref ∷ visited) (all_refs rt) < fuel
    unfolding IsThere IsListed degree
    popped ref visited stack so_far so_far' stack' e v l =
        let w =
          weight-visit ref visited (all_refs rt) e (IsThere-IsListed rt ref (rw (v.there) refl)) in
        let d : degree (node_of rt ref) ≡ length v.node.action.depends_on = rw (v.there) refl in
        omega (arith, w, d, v.checked.short, l)

    pub follow-is_some :
        (fuel : ℕ) (visited stack : List Ref) (so_far : Readiness)
        → length stack + weight visited (all_refs rt) < fuel
        → (r : Readiness) × (follow fuel rt root matching_now visited stack so_far ≡ some r)
    unfolding follow
    follow-is_some zero visited stack so_far l = absurd (omega arith)
    follow-is_some (suc fuel) visited [] so_far l = (so_far, refl)
    follow-is_some (suc fuel) visited (ref ∷ stack) so_far l =
        elim (Bool-cases (has Ref-discrete ref visited)) [
          | inl e ↦ rw (e, follow) (follow-is_some fuel visited stack so_far (omega arith))
          | inr e ↦
              elim (Option-cases
                (visit_node rt root matching_now ref (node_of rt ref) so_far stack)) [
                  | inl w ↦ rw (e, w, follow) (blocked, refl)
                  | inr ((so_far', stack'), w) ↦
                      let v =
                        visit_node-IsVisited rt root matching_now ref (node_of rt ref) so_far stack
                          refl w in
                      rw (e, w, follow)
                        (follow-is_some fuel (ref ∷ visited) stack' so_far'
                          (popped ref visited stack so_far so_far' stack' e v l))
                ]
        ]
