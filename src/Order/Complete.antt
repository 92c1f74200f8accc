-- ===== src/Order/Complete.antt =====
-- src/dependency-order.ts: the traversal ends, and it rejects no graph that has an order.
use mathlib.Core.Option.{some-injective}
use pi_speculative_action.Prelude.{
  ℕ, zero, suc, ◌+◌, ◌≤◌, ◌<◌, Bool, true, false, Option, none, some, List, [], ◌∷◌, map, All, has,
  update, length, length-append, length-map, ◌≡◌, ◌≢◌, refl, subst, inl, inr, arith, Option-cases,
  All-append,
}
use pi_speculative_action.Order.{
  Entry, Traversal, exhausted, >>=-ne-exhausted, fresh, unfinished, turn, visit, drain, walk,
  dependency_order,
}

module _ {ℓ} {A : Type ℓ} (dec : Discrete A) (deps : A → List (Option A)) (vertices : List A) where
  -- A dependency is missing or one of the vertices.
  abbrev pub Known : Option A → Type 0
  Known none = Unit
  Known (some n) = has dec n vertices ≡ true

  -- The vertices hold the dependencies of each of them.
  abbrev pub IsClosed : Type ℓ
  IsClosed = (n : A) → has dec n vertices ≡ true → All Known (deps n)

  weight : (A → Option Bool) → List A → ℕ
  weight s [] = 0
  weight s (v ∷ vs) = (elim (s v) [ none ↦ suc (length (deps v)) | some _ ↦ 0 ]) + weight s vs

  -- Turns enough for one root: each vertex is opened once.
  unfoldable pub turns : ℕ
  unfolding weight
  turns = suc (suc (weight (λ _. none) vertices))

  weight-update-le :
      (s : A → Option Bool) (n : A) (b : Bool) (vs : List A)
      → weight (update dec s n b) vs ≤ weight s vs
  unfolding weight
  weight-update-le s n b [] = omega arith
  weight-update-le s n b (v ∷ vs) = ground (arith, weight-update-le s n b vs)

  weight-open :
      (s : A → Option Bool) (n : A) (b : Bool) (vs : List A)
      → s n ≡ none
      → has dec n vs ≡ true
      → weight (update dec s n b) vs + suc (length (deps n)) ≤ weight s vs
  unfolding weight has
  weight-open s n b [] e h = cc
  weight-open s n b (v ∷ vs) e h = elim (dec n v) [
    | yes p ↦ ground (arith, weight-update-le s n b vs)
    | no p ↦ ground (arith, weight-open s n b vs)
  ]

  weight-le : (s : A → Option Bool) (vs : List A) → weight s vs ≤ weight (λ _. none) vs
  unfolding weight
  weight-le s [] = omega arith
  weight-le s (v ∷ vs) = ground (arith, weight-le s vs)

  KnownEntry : Entry A → Type 0
  KnownEntry e = Known e.0

  All-pushed : (ds : List (Option A)) → All Known ds → All KnownEntry (map unfinished ds)
  unfolding KnownEntry
  All-pushed [] h = tt
  All-pushed (d ∷ ds) h = (h.0, All-pushed ds h.1)

  measure : List (Entry A) → Traversal A → ℕ
  measure stack t = length stack + weight t.states vertices

  Falls : List (Entry A) → Traversal A → List (Entry A) × Traversal A → Type 0
  Falls stack t next = (measure next.0 next.1 < measure stack t) × All KnownEntry next.0

  visit-Falls :
      (state : Option Bool) (n : A) (rest : List (Entry A)) (t : Traversal A)
      {next : List (Entry A) × Traversal A}
      → IsClosed
      → t.states n ≡ state
      → All KnownEntry ((some n, false) ∷ rest)
      → visit dec deps state n rest t ≡ some next
      → Falls ((some n, false) ∷ rest) t next
  unfolding visit Falls measure KnownEntry
  visit-Falls (some true) n rest t c e k h =
      subst (Falls ((some n, false) ∷ rest) t) (some-injective _ _ h) (omega arith, k.1)
  visit-Falls (some false) n rest t c e k h = cc
  visit-Falls none n rest t c e k h =
      subst (Falls ((some n, false) ∷ rest) t) (some-injective _ _ h) (
        omega (
          arith,
          length-append (map unfinished (deps n)) ((some n, true) ∷ rest),
          length-map (unfinished {A = A}) (deps n),
          weight-open t.states n false vertices e k.0,
        ),
        All-append KnownEntry _ _ (All-pushed (deps n) (c n k.0)) (k.0, k.1),
      )

  -- A turn goes down in the measure and stays among the vertices.
  turn-Falls :
      (entry : Entry A) (rest : List (Entry A)) (t : Traversal A)
      {next : List (Entry A) × Traversal A}
      → IsClosed
      → All KnownEntry (entry ∷ rest)
      → turn dec deps entry rest t ≡ some next
      → Falls (entry ∷ rest) t next
  unfolding turn Falls measure
  turn-Falls (none, flag) rest t c k h = cc
  turn-Falls (some n, true) rest t c k h =
      subst (Falls ((some n, true) ∷ rest) t) (some-injective _ _ h)
        (omega (arith, weight-update-le t.states n true vertices), k.1)
  turn-Falls (some n, false) rest t c k h = visit-Falls (t.states n) n rest t c refl k h

  drain-ne-exhausted :
      (fuel : ℕ) (stack : List (Entry A)) (t : Traversal A)
      → IsClosed
      → All KnownEntry stack
      → measure stack t < fuel
      → drain dec deps fuel stack t ≢ exhausted
  unfolding drain Falls
  drain-ne-exhausted zero stack t c k m = absurd (omega arith)
  drain-ne-exhausted (suc fuel) [] t c k m = λ e. cc
  drain-ne-exhausted (suc fuel) (entry ∷ rest) t c k m =
      elim (Option-cases (turn dec deps entry rest t)) [
        | inl e ↦ λ x. cc (rw (e, drain) at x)
        | inr (next, e) ↦
            let (less, known) = turn-Falls entry rest t c k e in
            λ x. drain-ne-exhausted fuel next.0 next.1 c known (omega arith) (rw (e, drain) at x)
      ]

  walk-ne-exhausted :
      (roots : List A) (t : Traversal A)
      → IsClosed
      → All (λ r. has dec r vertices ≡ true) roots
      → walk dec deps turns roots t ≢ exhausted
  unfolding walk turns measure KnownEntry
  walk-ne-exhausted [] t c k = λ e. cc
  walk-ne-exhausted (root ∷ roots) t c k =
      >>=-ne-exhausted (drain dec deps turns ((some root, false) ∷ []) t)
        (walk dec deps turns roots)
        (drain-ne-exhausted turns ((some root, false) ∷ []) t c (k.0, tt)
          (omega (arith, weight-le t.states vertices)))
        (λ u. walk-ne-exhausted roots u c k.1)

  -- Where the vertices hold the roots and the dependencies of one another, the traversal comes to an
  -- end: `turns` many turns for a root are enough.
  pub dependency_order-ne-exhausted :
      (roots : List A)
      → IsClosed
      → All (λ r. has dec r vertices ≡ true) roots
      → dependency_order dec deps turns roots ≢ exhausted
  unfolding dependency_order
  dependency_order-ne-exhausted roots c k =
      >>=-ne-exhausted (walk dec deps turns roots fresh) _ (walk-ne-exhausted roots fresh c k)
        (λ t e. cc)
