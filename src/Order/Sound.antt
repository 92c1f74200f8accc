-- ===== src/Order/Sound.antt =====
-- src/dependency-order.ts: what an order that the traversal returns is.
use mathlib.Core.Option.{some-injective}
use pi_speculative_action.Prelude.{
  ℕ, zero, suc, Bool, true, false, Option, none, some, List, [], ◌∷◌, All, has, ◌≡◌, refl, inl, inr,
  arith, Option-cases, subst, map, sym, ◌++◌,
}
use pi_speculative_action.Order.{
  Entry, Traversal, finished, >>=-eq-finished, fresh, unfinished, turn, visit, drain, walk,
  dependency_order,
}
use pi_speculative_action.Order.Invariant.{is_done, DepsFirst, Inv}
use pi_speculative_action.Order.Steps.{turn-Inv}

module _ {ℓ} {A : Type ℓ} (dec : Discrete A) (deps : A → List (Option A)) where
  -- What a later traversal keeps of an earlier one: its nodes stay done.
  abbrev pub Grows : Traversal A → Traversal A → Type ℓ
  Grows t u = (n : A) → is_done (t.states n) ≡ true → is_done (u.states n) ≡ true

  -- The node of an entry is done.
  abbrev pub EndsDone : Traversal A → Entry A → Type 0
  EndsDone u (none, flag) = Unit
  EndsDone u (some n, flag) = is_done (u.states n) ≡ true

  turn-Grows :
      (entry : Entry A) (rest : List (Entry A)) (t : Traversal A)
      {next : List (Entry A) × Traversal A}
      → turn dec deps entry rest t ≡ some next
      → Grows t next.1
  unfolding turn visit
  turn-Grows (none, flag) rest t h m k = cc
  turn-Grows (some n, true) rest t h m k = ground arith
  turn-Grows (some n, false) rest t h m k = ground arith

  All-later :
      (u : Traversal A) (xs ys : List (Entry A)) → All (EndsDone u) (xs ++ ys) → All (EndsDone u) ys
  All-later u [] ys h = h
  All-later u (x ∷ xs) ys h = All-later u xs ys h.1

  visit-EndsDone :
      (state : Option Bool) (n : A) (rest : List (Entry A)) (t u : Traversal A)
      {next : List (Entry A) × Traversal A}
      → t.states n ≡ state
      → visit dec deps state n rest t ≡ some next
      → Grows next.1 u
      → All (EndsDone u) next.0
      → All (EndsDone u) ((some n, false) ∷ rest)
  unfolding visit
  visit-EndsDone (some true) n rest t u {next} e h g k =
      let p = some-injective _ _ h in
      (g n (rw (← p) (rw e refl)), subst (λ x. All (EndsDone u) x.0) (sym p) k)
  visit-EndsDone (some false) n rest t u e h g k = cc
  visit-EndsDone none n rest t u {next} e h g k =
      let p = some-injective _ _ h in
      let k' = subst (λ x. All (EndsDone u) x.0) (sym p) k in
      All-later u (map unfinished (deps n)) ((some n, true) ∷ rest) k'

  turn-EndsDone :
      (entry : Entry A) (rest : List (Entry A)) (t u : Traversal A)
      {next : List (Entry A) × Traversal A}
      → turn dec deps entry rest t ≡ some next
      → Grows next.1 u
      → All (EndsDone u) next.0
      → All (EndsDone u) (entry ∷ rest)
  unfolding turn
  turn-EndsDone (none, flag) rest t u h g k = cc
  turn-EndsDone (some n, true) rest t u h g k =
      let p = some-injective _ _ h in
      (g n (rw (← p) (ground arith)), subst (λ x. All (EndsDone u) x.0) (sym p) k)
  turn-EndsDone (some n, false) rest t u h g k = visit-EndsDone (t.states n) n rest t u refl h g k

  -- What the loop over one root leaves behind.
  pub drain_sound :
      (fuel : ℕ) (stack : List (Entry A)) (t : Traversal A) {u : Traversal A}
      → drain dec deps fuel stack t ≡ finished u
      → Inv dec deps stack t
      → Inv dec deps [] u × Grows t u × All (EndsDone u) stack
  unfolding drain
  drain_sound zero stack t h v = cc
  drain_sound (suc fuel) [] t h v = (ground (arith, v), ground arith, tt)
  drain_sound (suc fuel) (entry ∷ rest) t {u} h v =
      elim (Option-cases (turn dec deps entry rest t)) [
        | inl e ↦ cc (rw (e, drain) at h)
        | inr (next, e) ↦
            let (inv, grows, ends) =
              drain_sound fuel next.0 next.1 (rw (e, drain) at h)
                (turn-Inv dec deps entry rest t e v) in
            (
              inv,
              λ n k. grows n (turn-Grows entry rest t e n k),
              turn-EndsDone entry rest t u e grows ends,
            )
      ]

  pub start-Inv :
      (root : A) (t : Traversal A) → Inv dec deps [] t → Inv dec deps ((some root, false) ∷ []) t
  start-Inv root t v = record {
    stacked = tt;
    tracked = v.tracked;
    sorted = v.sorted;
    active = v.active;
  }

  pub fresh-Inv : Inv dec deps [] fresh
  unfolding has
  fresh-Inv = record { stacked = tt; tracked = λ n. refl; sorted = tt; active = λ n h. cc }

  walk_sound :
      (fuel : ℕ) (roots : List A) (t : Traversal A) {u : Traversal A}
      → walk dec deps fuel roots t ≡ finished u
      → Inv dec deps [] t
      → Inv dec deps [] u × Grows t u × All (λ r. is_done (u.states r) ≡ true) roots
  unfolding walk
  walk_sound fuel [] t h v = (ground (arith, v), ground arith, tt)
  walk_sound fuel (root ∷ roots) t {u} h v =
      let (s, e, g) = >>=-eq-finished (drain dec deps fuel ((some root, false) ∷ []) t) _ h in
      let (inv, grows, ends) =
        drain_sound fuel ((some root, false) ∷ []) t e (start-Inv root t v) in
      let (inv', grows', ends') = walk_sound fuel roots s g inv in
      (inv', λ n k. grows' n (grows n k), (grows' root ends.0, ends'))

  dones-in :
      (s : A → Option Bool) (xs roots : List A)
      → ((n : A) → is_done (s n) ≡ has dec n xs)
      → All (λ r. is_done (s r) ≡ true) roots
      → All (λ r. has dec r xs ≡ true) roots
  dones-in s xs [] tracked h = tt
  dones-in s xs (r ∷ roots) tracked h = (rw (← tracked r) h.0, dones-in s xs roots tracked h.1)

  -- If the traversal returns an order, then no node stands in it twice, every node stands behind all
  -- its dependencies, no dependency of a node in it is missing, and every root stands in it.
  pub dependency_order-DepsFirst :
      (fuel : ℕ) (roots : List A) {xs : List A}
      → dependency_order dec deps fuel roots ≡ finished xs
      → DepsFirst dec deps [] xs × All (λ r. has dec r xs ≡ true) roots
  unfolding dependency_order
  dependency_order-DepsFirst fuel roots {xs} h =
      let (s, e, g) = >>=-eq-finished (walk dec deps fuel roots fresh) _ h in
      let (inv, grows, ends) = walk_sound fuel roots fresh e fresh-Inv in
      let p : s.ordered ≡ xs = cc in
      (
        subst (DepsFirst dec deps []) p inv.sorted,
        subst (λ l. All (λ r. has dec r l ≡ true) roots) p
            (dones-in s.states s.ordered roots inv.tracked ends),
      )
