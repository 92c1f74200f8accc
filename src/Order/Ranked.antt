-- ===== src/Order/Ranked.antt =====
-- src/dependency-order.ts: a graph with a rank, which is one without missing vertices and cycles, is
-- never rejected.

use pi_speculative_action.Prelude.{
  ℕ, zero, suc, ◌<◌, Bool, true, false, Option, none, some, List, [], ◌∷◌, ◌++◌, map, All, has, ◌≡◌,
  ◌≢◌, refl, subst, inl, inr, arith, Option-cases,
}
use pi_speculative_action.Order.{
  Entry, Traversal, rejected, finished, finished_of_ne, >>=-ne-rejected, fresh, unfinished, turn,
  visit, drain, walk, dependency_order,
}
use pi_speculative_action.Order.Invariant.{markers, Inv}
use pi_speculative_action.Order.Steps.{turn-Inv}
use pi_speculative_action.Order.Sound.{fresh-Inv, start-Inv, drain_sound}
use pi_speculative_action.Order.Complete.{IsClosed, turns, dependency_order-ne-exhausted}

module _ {ℓ} {A : Type ℓ} (dec : Discrete A) (deps : A → List (Option A)) (rank : A → ℕ) where
  abbrev pub Below : ℕ → Option A → Type 0
  Below k none = ⊥
  Below k (some p) = rank p < k

  -- Every dependency is there, at a lower rank.
  abbrev pub IsRanked : Type ℓ
  IsRanked = (n : A) → All (Below (rank n)) (deps n)

  -- A node under the nearest node under way.
  Under : A → List (Entry A) → Type 0
  Under p [] = Unit
  Under p ((d, false) ∷ rest) = Under p rest
  Under p ((none, true) ∷ rest) = Unit
  Under p ((some m, true) ∷ rest) = rank p < rank m

  UnderEntry : Option A → List (Entry A) → Type 0
  unfolding Under
  UnderEntry none rest = ⊥
  UnderEntry (some p) rest = Under p rest

  Chain : List (Entry A) → Type 0
  unfolding UnderEntry
  Chain [] = Unit
  Chain ((d, flag) ∷ rest) = UnderEntry d rest × Chain rest

  Under-marker :
      (p m : A) (stack : List (Entry A))
      → Under p stack
      → Chain stack
      → has dec m (markers stack) ≡ true
      → rank p < rank m
  unfolding has Chain
  Under-marker p m [] u c h = cc
  Under-marker p m ((none, flag) ∷ rest) u c h = absurd c.0
  Under-marker p m ((some n, false) ∷ rest) u c h = Under-marker p m rest u c.1 h
  Under-marker p m ((some n, true) ∷ rest) u c h = elim (dec m n) [
    | yes e ↦ rw e u
    | no e ↦
        let lower : rank n < rank m = Under-marker n m rest c.0 c.1 (ground arith) in omega arith
  ]

  Chain-pushed :
      (n : A) (ds : List (Option A)) (rest : List (Entry A))
      → All (Below (rank n)) ds
      → Chain ((some n, true) ∷ rest)
      → Chain (map unfinished ds ++ ((some n, true) ∷ rest))
  unfolding Chain
  Chain-pushed n [] rest h c = c
  Chain-pushed n (none ∷ ds) rest h c = absurd h.0
  Chain-pushed n (some p ∷ ds) rest h c = (at_top ds, Chain-pushed n ds rest h.1 c)
    where
      at_top : (es : List (Option A)) → Under p (map unfinished es ++ ((some n, true) ∷ rest))
      at_top [] = h.0
      at_top (e ∷ es) = at_top es

  -- No turn is a rejection, and the chain goes on.
  Goes : Option (List (Entry A) × Traversal A) → Type 0
  Goes none = ⊥
  Goes (some next) = Chain next.0

  visit-Goes :
      (state : Option Bool) (n : A) (rest : List (Entry A)) (t : Traversal A)
      → IsRanked
      → t.states n ≡ state
      → Inv dec deps ((some n, false) ∷ rest) t
      → Chain ((some n, false) ∷ rest)
      → Goes (visit dec deps state n rest t)
  unfolding visit Goes Chain
  visit-Goes (some true) n rest t r e v c = c.1
  visit-Goes (some false) n rest t r e v c =
      let lower : rank n < rank n = Under-marker n n rest c.0 c.1 (v.active n e) in omega arith
  visit-Goes none n rest t r e v c = Chain-pushed n (deps n) rest (r n) c

  turn-Goes :
      (entry : Entry A) (rest : List (Entry A)) (t : Traversal A)
      → IsRanked
      → Inv dec deps (entry ∷ rest) t
      → Chain (entry ∷ rest)
      → Goes (turn dec deps entry rest t)
  unfolding turn Goes Chain
  turn-Goes (none, flag) rest t r v c = c.0
  turn-Goes (some n, true) rest t r v c = c.1
  turn-Goes (some n, false) rest t r v c = visit-Goes (t.states n) n rest t r refl v c

  drain-ne-rejected :
      (fuel : ℕ) (stack : List (Entry A)) (t : Traversal A)
      → IsRanked
      → Inv dec deps stack t
      → Chain stack
      → drain dec deps fuel stack t ≢ rejected
  unfolding drain Goes
  drain-ne-rejected zero stack t r v c = λ e. cc
  drain-ne-rejected (suc fuel) [] t r v c = λ e. cc
  drain-ne-rejected (suc fuel) (entry ∷ rest) t r v c =
      elim (Option-cases (turn dec deps entry rest t)) [
        | inl e ↦ absurd (subst Goes e (turn-Goes entry rest t r v c))
        | inr (next, e) ↦ λ x.
            drain-ne-rejected fuel next.0 next.1 r (turn-Inv dec deps entry rest t e v)
              (subst Goes e (turn-Goes entry rest t r v c)) (rw (e, drain) at x)
      ]

  walk-ne-rejected :
      (fuel : ℕ) (roots : List A) (t : Traversal A)
      → IsRanked
      → Inv dec deps [] t
      → walk dec deps fuel roots t ≢ rejected
  unfolding walk Chain
  walk-ne-rejected fuel [] t r v = λ e. cc
  walk-ne-rejected fuel (root ∷ roots) t r v =
      >>=-ne-rejected (drain dec deps fuel ((some root, false) ∷ []) t) (walk dec deps fuel roots)
        (drain-ne-rejected fuel ((some root, false) ∷ []) t r (start-Inv dec deps root t v)
          (tt, tt))
        (λ u e.
          walk-ne-rejected fuel roots u r
            (drain_sound dec deps fuel ((some root, false) ∷ []) t e
              (start-Inv dec deps root t v)).0)

  -- A finite graph whose dependencies are all there, each at a lower rank than its node, gets an
  -- order: the traversal ends and does not reject it.
  pub dependency_order_total :
      (vertices roots : List A)
      → IsClosed dec deps vertices
      → All (λ r. has dec r vertices ≡ true) roots
      → IsRanked
      → (xs : List A) × (dependency_order dec deps (turns dec deps vertices) roots ≡ finished xs)
  unfolding dependency_order
  dependency_order_total vertices roots c k r =
      finished_of_ne (dependency_order dec deps (turns dec deps vertices) roots)
        (dependency_order-ne-exhausted dec deps vertices roots c k)
        (>>=-ne-rejected (walk dec deps (turns dec deps vertices) roots fresh) _
          (walk-ne-rejected (turns dec deps vertices) roots fresh r (fresh-Inv dec deps))
          (λ t e x. cc))
