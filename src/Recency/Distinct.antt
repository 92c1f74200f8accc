-- ===== src/Recency/Distinct.antt =====
-- src/bounded-recency-map.ts: no key stands twice in the map.
use pi_speculative_action.Prelude.{
  ◌<◌, some, ◌≡◌, get, delete-cons_ne, delete-cons_eq, ◌≤◌, List, [], ◌∷◌, ◌++◌, length, All,
  All-append, ◌≢◌, sym, arith, delete,
}
use pi_speculative_action.Recency.{shift, refreshed}

module _ {ℓ κ} {K : Type ℓ} {V : Type κ} where
  -- No key stands twice.
  abbrev pub Distinct : List (K × V) → Type ℓ
  Distinct [] = Unit
  Distinct ((k, v) ∷ m) = All (λ e. e.0 ≢ k) m × Distinct m

  pub shift-Distinct : (m : List (K × V)) → Distinct m → Distinct (shift m).0
  unfolding shift
  shift-Distinct [] h = tt
  shift-Distinct ((k, v) ∷ m) h = h.1

  pub snoc-Distinct :
      (m : List (K × V)) (k : K) (v : V)
      → Distinct m
      → All (λ e. e.0 ≢ k) m
      → Distinct (m ++ ((k, v) ∷ []))
  snoc-Distinct [] k v h new = (tt, tt)
  snoc-Distinct ((j, w) ∷ m) k v h new = (
    All-append (λ e. e.0 ≢ j) m ((k, v) ∷ []) h.0 ((λ e. new.0 (sym e)), tt),
    snoc-Distinct m k v h.1 new.1,
  )

module _ {ℓ κ} {K : Type ℓ} {V : Type κ} (dec : Discrete K) where
  All-delete {μ} :
      (P : K × V → Type μ) (k : K) (m : List (K × V)) → All P m → All P (delete dec k m)
  unfolding delete
  All-delete P k [] h = tt
  All-delete P k ((j, w) ∷ m) h = elim (dec k j) [
    | yes e ↦ rw (delete-cons_eq dec k j w m e) (All-delete P k m h.1)
    | no n ↦ rw (delete-cons_ne dec k j w m n) ((h.0, All-delete P k m h.1))
  ]

  delete_fresh : (k : K) (m : List (K × V)) → All (λ e. e.0 ≢ k) (delete dec k m)
  unfolding delete
  delete_fresh k [] = tt
  delete_fresh k ((j, w) ∷ m) = elim (dec k j) [
    | yes e ↦ rw (delete-cons_eq dec k j w m e) (delete_fresh k m)
    | no n ↦ rw (delete-cons_ne dec k j w m n) (((λ e. n (sym e)), delete_fresh k m))
  ]

  delete-Distinct : (k : K) (m : List (K × V)) → Distinct m → Distinct (delete dec k m)
  unfolding delete
  delete-Distinct k [] h = tt
  delete-Distinct k ((j, w) ∷ m) h = elim (dec k j) [
    | yes e ↦ rw (delete-cons_eq dec k j w m e) (delete-Distinct k m h.1)
    | no n ↦
        rw (delete-cons_ne dec k j w m n)
          ((All-delete (λ e. e.0 ≢ j) k m h.0, delete-Distinct k m h.1))
  ]

  pub refreshed-Distinct :
      (k : K) (v : V) (m : List (K × V)) → Distinct m → Distinct (refreshed dec k v m)
  unfolding refreshed
  refreshed-Distinct k v m h =
      snoc-Distinct (delete dec k m) k v (delete-Distinct k m h) (delete_fresh k m)

  pub length-delete_le : (k : K) (m : List (K × V)) → length (delete dec k m) ≤ length m
  unfolding delete
  length-delete_le k [] = omega arith
  length-delete_le k ((j, w) ∷ m) = elim (dec k j) [
    | yes e ↦ rw (delete-cons_eq dec k j w m e) (omega (arith, length-delete_le k m))
    | no n ↦ rw (delete-cons_ne dec k j w m n) (omega (arith, length-delete_le k m))
  ]

  pub length-delete_lt :
      (k : K) (m : List (K × V)) (w : V) → get dec k m ≡ some w → length (delete dec k m) < length m
  unfolding get delete
  length-delete_lt k [] w h = cc
  length-delete_lt k ((j, v) ∷ m) w h = elim (dec k j) [
    | yes e ↦ rw (delete-cons_eq dec k j v m e) (omega (arith, length-delete_le k m))
    | no n ↦
        rw (delete-cons_ne dec k j v m n) (omega (arith, length-delete_lt k m w (ground arith)))
  ]
