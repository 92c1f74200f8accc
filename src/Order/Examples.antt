-- ===== src/Order/Examples.antt =====
-- src/dependency-order.ts: runs and instances on a graph of three vertices.
use pi_speculative_action.Prelude.{
  ℕ, zero, suc, Option, some, true, List, [], ◌∷◌, ◌≡◌, refl, has, All, ℕ_discrete, arith,
}
use pi_speculative_action.Order.{rejected, finished, dependency_order}
use pi_speculative_action.Order.Invariant.{DepsFirst}
use pi_speculative_action.Order.Sound.{dependency_order-DepsFirst}
use pi_speculative_action.Order.Complete.{Known, turns}
use pi_speculative_action.Order.Ranked.{Below, dependency_order_total}

-- 2 depends on 1 and 0, and 1 on 0.
abbrev chain : ℕ → List (Option ℕ)
chain (suc (suc zero)) = some 1 ∷ some 0 ∷ []
chain (suc zero) = some 0 ∷ []
chain _ = []

abbrev loop : ℕ → List (Option ℕ)
loop zero = some 1 ∷ []
loop (suc n) = some 0 ∷ []

chain_order : dependency_order ℕ_discrete chain 20 (2 ∷ 0 ∷ []) ≡ finished (0 ∷ 1 ∷ 2 ∷ [])
unfolding dependency_order ℕ_discrete
chain_order = refl

loop_rejected : dependency_order ℕ_discrete loop 20 (0 ∷ []) ≡ rejected
unfolding dependency_order ℕ_discrete
loop_rejected = refl

abbrev vertices : List ℕ
vertices = 0 ∷ 1 ∷ 2 ∷ []

dependency_order-DepsFirst_example :
    DepsFirst ℕ_discrete chain [] (0 ∷ 1 ∷ 2 ∷ [])
    × All (λ r. has ℕ_discrete r (0 ∷ 1 ∷ 2 ∷ []) ≡ true) (2 ∷ 0 ∷ [])
dependency_order-DepsFirst_example =
    dependency_order-DepsFirst ℕ_discrete chain 20 (2 ∷ 0 ∷ []) chain_order

chain_closed :
    (n : ℕ) → has ℕ_discrete n vertices ≡ true → All (Known ℕ_discrete chain vertices) (chain n)
unfolding has ℕ_discrete
chain_closed zero h = tt
chain_closed (suc zero) h = (refl, tt)
chain_closed (suc (suc zero)) h = (refl, (refl, tt))
chain_closed (suc (suc (suc n))) h = tt

chain_ranked : (n : ℕ) → All (Below ℕ_discrete chain (λ k. k) n) (chain n)
chain_ranked zero = tt
chain_ranked (suc zero) = (omega arith, tt)
chain_ranked (suc (suc zero)) = (omega arith, (omega arith, tt))
chain_ranked (suc (suc (suc n))) = tt

roots_known : All (λ r. has ℕ_discrete r vertices ≡ true) (2 ∷ [])
unfolding has ℕ_discrete
roots_known = (refl, tt)

dependency_order_total_example :
    (xs : List ℕ) × (dependency_order ℕ_discrete chain (turns ℕ_discrete chain vertices) (2 ∷ [])
      ≡ finished xs)
dependency_order_total_example =
    dependency_order_total ℕ_discrete chain (λ k. k) vertices (2 ∷ []) chain_closed roots_known
      chain_ranked
