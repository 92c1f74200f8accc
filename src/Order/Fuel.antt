-- ===== src/Order/Fuel.antt =====
-- src/dependency-order.ts: more turns than enough change nothing.
use pi_speculative_action.Prelude.{
  true, false, ℕ, zero, suc, ◌≤◌, Option, some, List, [], ◌∷◌, All, has, ◌≡◌, ◌≢◌, refl, inl, inr,
  arith, Option-cases,
}
use pi_speculative_action.Order.{
  turn, Entry, Traversal, Outcome, exhausted, rejected, finished, ◌>>=◌, fresh, drain, walk,
  dependency_order,
}
use pi_speculative_action.Order.Complete.{IsClosed, turns, dependency_order-ne-exhausted}

>>=-eq {ℓ κ} :
    {A : Type ℓ} {B : Type κ} (m m' : Outcome A) (f f' : A → Outcome B)
    → (m ≢ exhausted → m' ≡ m)
    → ((a : A) → f a ≢ exhausted → f' a ≡ f a)
    → (m >>= f) ≢ exhausted
    → (m' >>= f') ≡ (m >>= f)
>>=-eq exhausted m' f f' p q h = absurd (h refl)
>>=-eq rejected m' f f' p q h = rw (p (λ e. cc)) refl
>>=-eq (finished a) m' f f' p q h = rw (p (λ e. cc)) (q a h)

module _ {ℓ} {A : Type ℓ} (dec : Discrete A) (deps : A → List (Option A)) where
  drain_more :
      (fuel more : ℕ) (stack : List (Entry A)) (t : Traversal A)
      → fuel ≤ more
      → drain dec deps fuel stack t ≢ exhausted
      → drain dec deps more stack t ≡ drain dec deps fuel stack t
  unfolding drain
  drain_more zero more stack t l h = absurd (h refl)
  drain_more (suc fuel) zero stack t l h = absurd (omega arith)
  drain_more (suc fuel) (suc more) [] t l h = refl
  drain_more (suc fuel) (suc more) (entry ∷ rest) t l h =
      elim (Option-cases (turn dec deps entry rest t)) [
        | inl e ↦ rw (e, drain) refl
        | inr (next, e) ↦
            rw (e, drain)
              (drain_more fuel more next.0 next.1 (omega arith) (λ x. h (rw (e, drain) x)))
      ]

  walk_more :
      (fuel more : ℕ) (roots : List A) (t : Traversal A)
      → fuel ≤ more
      → walk dec deps fuel roots t ≢ exhausted
      → walk dec deps more roots t ≡ walk dec deps fuel roots t
  unfolding walk
  walk_more fuel more [] t l h = refl
  walk_more fuel more (root ∷ roots) t l h =
      >>=-eq (drain dec deps fuel ((some root, false) ∷ []) t) _ (walk dec deps fuel roots) _
        (drain_more fuel more _ t l) (λ u. walk_more fuel more roots u l) h

  -- The outcome of a traversal with enough turns.
  pub dependency_order-Settled :
      (vertices roots : List A)
      → IsClosed dec deps vertices
      → All (λ r. has dec r vertices ≡ true) roots
      → (o : Outcome (List A)) × (o ≢ exhausted)
        × ((fuel : ℕ) → turns dec deps vertices ≤ fuel → dependency_order dec deps fuel roots ≡ o)
  unfolding dependency_order
  dependency_order-Settled vertices roots c k =
      let ends = dependency_order-ne-exhausted dec deps vertices roots c k in
      (
        dependency_order dec deps (turns dec deps vertices) roots,
        ends,
        λ fuel l.
            >>=-eq (walk dec deps (turns dec deps vertices) roots fresh) _ _ _
              (walk_more (turns dec deps vertices) fuel roots fresh l) (λ t e. refl) ends,
      )
