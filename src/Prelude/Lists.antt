-- ===== src/Prelude/Lists.antt =====
-- Lists measured by native numbers, and membership decided by an equality test.
use Prim.Native.Nat.{ℕ, suc, ◌+◌}
use mathlib.Core.Path.{◌∙◌, ◌≡◌, refl, ap, sym, subst}
use mathlib.Core.Logic.{◌⊎◌, inr, ◌≢◌}
use mathlib.Core.Bool.{Bool, true, false}
use mathlib.Core.List.{
  reverse, reverse-cons, head-eq_of_cons-eq, tail-eq_of_cons-eq, List, [], ◌∷◌, ◌++◌, map,
}
use mathlib.Core.Option.{Option, some}
use native.Mathlib.Omega.{arith}

module _ {ℓ} {A : Type ℓ} where
  abbrev pub length : List A → ℕ
  length [] = 0
  length (x ∷ xs) = suc (length xs)

  -- A predicate of every element, as a type that computes.
  abbrev pub All {κ} : (A → Type κ) → List A → Type κ
  All P [] = Unit
  All P (x ∷ xs) = P x × All P xs

  pub length-append : (xs ys : List A) → length (xs ++ ys) ≡ length xs + length ys
  length-append [] ys = omega arith
  length-append (x ∷ xs) ys = omega (arith, length-append xs ys)

  pub All-imp {κ κ'} :
      (P : A → Type κ) (Q : A → Type κ')
      → ((a : A) → P a → Q a)
      → (xs : List A) → All P xs
      → All Q xs
  All-imp P Q imp [] h = tt
  All-imp P Q imp (x ∷ xs) h = (imp x h.0, All-imp P Q imp xs h.1)

  pub All-append {κ} : (P : A → Type κ) (xs ys : List A) → All P xs → All P ys → All P (xs ++ ys)
  All-append P [] ys h k = k
  All-append P (x ∷ xs) ys h k = (h.0, All-append P xs ys h.1 k)

  pub All-split {κ} : (P : A → Type κ) (xs ys : List A) → All P (xs ++ ys) → All P xs × All P ys
  All-split P [] ys h = (tt, h)
  All-split P (x ∷ xs) ys h = let (a, b) = All-split P xs ys h.1 in ((h.0, a), b)

  pub All-reverse {κ} : (P : A → Type κ) (xs : List A) → All P (reverse xs) → All P xs
  All-reverse P [] h = tt
  All-reverse P (x ∷ xs) h =
      let (a, b) = All-split P (reverse xs) (x ∷ []) (subst (All P) (reverse-cons x xs) h) in
      (b.0, All-reverse P xs a)

  pub All-pair {κ ι} :
      (P : A → Type κ) (Q : A → Type ι) (xs : List A)
      → All P xs
      → All Q xs
      → All (λ x. P x × Q x) xs
  All-pair P Q [] h k = tt
  All-pair P Q (x ∷ xs) h k = ((h.0, k.0), All-pair P Q xs h.1 k.1)

  pub empty_of_length : (xs : List A) → length xs ≡ 0 → xs ≡ []
  empty_of_length [] h = refl
  empty_of_length (x ∷ xs) h = absurd (omega arith)

module _ {ℓ κ} {A : Type ℓ} {B : Type κ} where
  pub length-map : (f : A → B) (xs : List A) → length (map f xs) ≡ length xs
  length-map f [] = refl
  length-map f (x ∷ xs) = ap suc (length-map f xs)

  pub map-append : (f : A → B) (xs ys : List A) → map f (xs ++ ys) ≡ map f xs ++ map f ys
  map-append f [] ys = refl
  map-append f (x ∷ xs) ys = ap (λ t. f x ∷ t) (map-append f xs ys)

module _ {ℓ} {A : Type ℓ} (dec : Discrete A) where
  -- `includes`, `has`: whether the list holds the element.
  unfoldable pub has : A → List A → Bool
  has a [] = false
  has a (x ∷ xs) = elim (dec a x) [ yes _ ↦ true | no _ ↦ has a xs ]

  pub has-cons_self : (a : A) (xs : List A) → has a (a ∷ xs) ≡ true
  unfolding has
  has-cons_self a xs = ground arith

  pub has-cons : (a x : A) (xs : List A) → has a xs ≡ true → has a (x ∷ xs) ≡ true
  unfolding has
  has-cons a x xs h = ground arith

  pub has-append :
      (a : A) (xs ys : List A) → has a (xs ++ ys) ≡ true → (has a xs ≡ true) ⊎ (has a ys ≡ true)
  unfolding has
  has-append a [] ys h = inr h
  has-append a (x ∷ xs) ys h = ground (arith, has-append a xs ys)

  pub has-append_left : (a : A) (xs ys : List A) → has a xs ≡ true → has a (xs ++ ys) ≡ true
  unfolding has
  has-append_left a [] ys h = ground arith
  has-append_left a (x ∷ xs) ys h = ground (arith, has-append_left a xs ys)

  pub has-append_right : (a : A) (xs ys : List A) → has a ys ≡ true → has a (xs ++ ys) ≡ true
  unfolding has
  has-append_right a [] ys h = h
  has-append_right a (x ∷ xs) ys h = ground (arith, has-append_right a xs ys)

  pub has-cons_false :
      (a x : A) (xs : List A) → has a (x ∷ xs) ≡ false → (x ≢ a) × (has a xs ≡ false)
  unfolding has
  has-cons_false a x xs h = (λ e. ground arith, ground arith)

  pub All-has {κ} : (P : A → Type κ) (a : A) (xs : List A) → All P xs → has a xs ≡ true → P a
  unfolding has
  All-has P a [] h k = cc
  All-has P a (x ∷ xs) h k = elim (dec a x) [
    | yes e ↦ subst P (sym e) h.0
    | no e ↦ All-has P a xs h.1 (ground arith)
  ]

  pub has-snoc :
      (a b : A) (xs : List A)
      → has a (xs ++ (b ∷ [])) ≡ elim (dec a b) [ yes _ ↦ true | no _ ↦ has a xs ]
  unfolding has
  has-snoc a b [] = refl
  has-snoc a b (x ∷ xs) = ground (arith, has-snoc a b xs)

  pub All-has_self : (xs : List A) → All (λ a. has a xs ≡ true) xs
  unfolding has
  All-has_self [] = tt
  All-has_self (x ∷ xs) =
      (has-cons_self x xs, All-imp _ _ (λ a h. has-cons a x xs h) xs (All-has_self xs))

  -- A map as a function, and its update.
  abbrev pub update {κ} : {B : Type κ} → (A → Option B) → A → B → A → Option B
  update f k v a = elim (dec a k) [ yes _ ↦ some v | no _ ↦ f a ]

unfoldable pub list_discrete {ℓ} : {A : Type ℓ} → Discrete A → Discrete (List A)
list_discrete dec [] [] = yes refl
list_discrete dec [] (y ∷ ys) = no (λ e. cc)
list_discrete dec (x ∷ xs) [] = no (λ e. cc)
list_discrete dec (x ∷ xs) (y ∷ ys) = elim (dec x y) [
  | yes p ↦ elim (list_discrete dec xs ys) [
    | yes q ↦ yes (ap (λ t. t ∷ xs) p ∙ ap (λ t. y ∷ t) q)
    | no q ↦ no (λ e. q (tail-eq_of_cons-eq e))
  ]
  | no p ↦ no (λ e. p (head-eq_of_cons-eq e))
]

module _ {ℓ κ} {A : Type ℓ} {B : Type κ} (f : A → B) where
  pub has-map :
      (dec : Discrete A) (dec' : Discrete B) (a : A) (xs : List A)
      → has dec a xs ≡ true
      → has dec' (f a) (map f xs) ≡ true
  unfolding has
  has-map dec dec' a [] h = cc
  has-map dec dec' a (x ∷ xs) h = elim (dec a x) [
    | yes e ↦
        subst (λ b. has dec' b (map f (x ∷ xs)) ≡ true) (sym (ap f e))
          (has-cons_self dec' (f x) (map f xs))
    | no n ↦ has-cons dec' (f a) (f x) (map f xs) (has-map dec dec' a xs (ground arith))
  ]

  pub All-map {ι} : (P : B → Type ι) (xs : List A) → All (λ a. P (f a)) xs → All P (map f xs)
  All-map P [] h = tt
  All-map P (x ∷ xs) h = (h.0, All-map P xs h.1)
