-- ===== src/Prelude/Assoc.antt =====
-- A `Map` as an association list in insertion order: `set` writes in place or appends.
use mathlib.Core.Bool.{true}
use mathlib.Core.Path.{◌≡◌, refl}
use mathlib.Core.Logic.{◌≢◌}
use mathlib.Core.List.{List, [], ◌∷◌, map}
use mathlib.Core.Option.{Option, none, some}
use native.Mathlib.Omega.{arith}
use pi_speculative_action.Prelude.Lists.{has}
use pi_speculative_action.Prelude.Tests.{is_some}

module _ {ℓ κ} {K : Type ℓ} {V : Type κ} where
  abbrev pub keys : List (K × V) → List K
  keys = map (λ e. e.0)

  abbrev pub values : List (K × V) → List V
  values = map (λ e. e.1)

module _ {ℓ κ} {K : Type ℓ} {V : Type κ} (dec : Discrete K) where
  unfoldable pub get : K → List (K × V) → Option V
  get k [] = none
  get k ((j, v) ∷ m) = elim (dec k j) [ yes _ ↦ some v | no _ ↦ get k m ]

  unfoldable pub put : K → V → List (K × V) → List (K × V)
  put k v [] = (k, v) ∷ []
  put k v ((j, w) ∷ m) = elim (dec k j) [ yes _ ↦ (j, v) ∷ m | no _ ↦ (j, w) ∷ put k v m ]

  unfoldable pub delete : K → List (K × V) → List (K × V)
  delete k [] = []
  delete k ((j, w) ∷ m) = elim (dec k j) [ yes _ ↦ delete k m | no _ ↦ (j, w) ∷ delete k m ]

  pub get-put_self : (k : K) (v : V) (m : List (K × V)) → get k (put k v m) ≡ some v
  unfolding get put
  get-put_self k v [] = ground arith
  get-put_self k v ((j, w) ∷ m) = ground (arith, get-put_self k v m)

  pub get-put_ne : (k j : K) (v : V) (m : List (K × V)) → j ≢ k → get j (put k v m) ≡ get j m
  unfolding get put
  get-put_ne k j v [] h = ground arith
  get-put_ne k j v ((i, w) ∷ m) h = ground (arith, get-put_ne k j v m h)

  pub put-put : (k : K) (v w : V) (m : List (K × V)) → put k w (put k v m) ≡ put k w m
  unfolding put
  put-put k v w [] = ground arith
  put-put k v w ((j, x) ∷ m) = ground (arith, put-put k v w m)

  pub get-delete_self : (k : K) (m : List (K × V)) → get k (delete k m) ≡ none
  unfolding get delete
  get-delete_self k [] = refl
  get-delete_self k ((j, w) ∷ m) = ground (arith, get-delete_self k m)

  pub get-delete_ne : (k j : K) (m : List (K × V)) → j ≢ k → get j (delete k m) ≡ get j m
  unfolding get delete
  get-delete_ne k j [] h = refl
  get-delete_ne k j ((i, w) ∷ m) h = ground (arith, get-delete_ne k j m h)

  pub delete-cons_eq :
      (k j : K) (w : V) (m : List (K × V)) → k ≡ j → delete k ((j, w) ∷ m) ≡ delete k m
  unfolding delete
  delete-cons_eq k j w m e = ground arith

  pub delete-cons_ne :
      (k j : K) (w : V) (m : List (K × V)) → k ≢ j → delete k ((j, w) ∷ m) ≡ (j, w) ∷ delete k m
  unfolding delete
  delete-cons_ne k j w m n = ground arith

  pub has-keys : (k : K) (m : List (K × V)) → is_some (get k m) ≡ true → has dec k (keys m) ≡ true
  unfolding get has
  has-keys k [] h = cc
  has-keys k ((j, w) ∷ m) h = ground (arith, has-keys k m)

  pub get-keys : (k : K) (m : List (K × V)) → has dec k (keys m) ≡ true → is_some (get k m) ≡ true
  unfolding get has
  get-keys k [] h = cc
  get-keys k ((j, w) ∷ m) h = ground (arith, get-keys k m)
