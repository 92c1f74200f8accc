-- ===== src/Prelude/Slices.antt =====
-- Prefixes and suffixes of lists, `Array.slice`, measured by native numbers.
use Prim.Native.Nat.{ℕ, zero, suc, ◌+◌, ◌-◌, ◌≤◌, min}
use mathlib.Core.Path.{◌∙◌, sym, ◌≡◌, refl, ap}
use mathlib.Core.List.{map, append_assoc, List, [], ◌∷◌, ◌++◌}
use mathlib.Core.Option.{some-injective, Option, none, some}
use native.Mathlib.Omega.{arith}
use pi_speculative_action.Prelude.Lists.{length}

suc_add : (n m : ℕ) → suc n + m ≡ suc (n + m)
suc_add n m = omega arith

zero_add : (n : ℕ) → 0 + n ≡ n
zero_add n = omega arith

module _ {ℓ} {A : Type ℓ} where
  abbrev pub take : ℕ → List A → List A
  take zero xs = []
  take (suc n) [] = []
  take (suc n) (x ∷ xs) = x ∷ take n xs

  abbrev pub drop : ℕ → List A → List A
  drop zero xs = xs
  drop (suc n) [] = []
  drop (suc n) (x ∷ xs) = drop n xs

  -- `xs[n]`
  abbrev pub get_elem? : List A → ℕ → Option A
  get_elem? [] n = none
  get_elem? (x ∷ xs) zero = some x
  get_elem? (x ∷ xs) (suc n) = get_elem? xs n

  abbrev pub concat : List (List A) → List A
  concat [] = []
  concat (xs ∷ xss) = xs ++ concat xss

  -- `xs.slice(from, from + count)`
  abbrev pub slice : ℕ → ℕ → List A → List A
  slice from count xs = take count (drop from xs)

  pub take-append_drop : (n : ℕ) (xs : List A) → take n xs ++ drop n xs ≡ xs
  take-append_drop zero xs = refl
  take-append_drop (suc n) [] = refl
  take-append_drop (suc n) (x ∷ xs) = ap (λ t. x ∷ t) (take-append_drop n xs)

  pub length-take : (n : ℕ) (xs : List A) → length (take n xs) ≡ min n (length xs)
  length-take zero xs = omega arith
  length-take (suc n) [] = omega arith
  length-take (suc n) (x ∷ xs) = omega (arith, length-take n xs)

  pub length-drop : (n : ℕ) (xs : List A) → length (drop n xs) ≡ length xs - n
  length-drop zero xs = omega arith
  length-drop (suc n) [] = omega arith
  length-drop (suc n) (x ∷ xs) = omega (arith, length-drop n xs)

  pub take-all : (n : ℕ) (xs : List A) → length xs ≤ n → take n xs ≡ xs
  take-all zero [] h = refl
  take-all zero (x ∷ xs) h = absurd (omega arith)
  take-all (suc n) [] h = refl
  take-all (suc n) (x ∷ xs) h = ap (λ t. x ∷ t) (take-all n xs (omega arith))

  pub drop-nil : (n : ℕ) → drop n [] ≡ []
  drop-nil zero = refl
  drop-nil (suc n) = refl

  pub take-nil : (n : ℕ) → take n [] ≡ []
  take-nil zero = refl
  take-nil (suc n) = refl

  pub drop-add : (n m : ℕ) (xs : List A) → drop (n + m) xs ≡ drop m (drop n xs)
  drop-add zero m xs = rw (zero_add m) refl
  drop-add (suc n) m [] = rw (suc_add n m, drop-nil m) refl
  drop-add (suc n) m (x ∷ xs) = rw (suc_add n m) (drop-add n m xs)

  pub take-add : (n m : ℕ) (xs : List A) → take (n + m) xs ≡ take n xs ++ take m (drop n xs)
  take-add zero m xs = rw (zero_add m) refl
  take-add (suc n) m [] = rw (suc_add n m, take-nil m) refl
  take-add (suc n) m (x ∷ xs) = rw (suc_add n m) (ap (λ t. x ∷ t) (take-add n m xs))

  -- A slice is read in two parts.
  pub slice-add :
      (from n m : ℕ) (xs : List A)
      → slice from (n + m) xs ≡ slice from n xs ++ slice (from + n) m xs
  slice-add from n m xs = rw (drop-add from n xs) (take-add n m (drop from xs))

  pub drop-append_past :
      (n k : ℕ) (xs ys : List A) → length xs ≡ n → drop (n + k) (xs ++ ys) ≡ drop k ys
  drop-append_past zero k [] ys h = rw (zero_add k) refl
  drop-append_past zero k (x ∷ xs) ys h = absurd (omega arith)
  drop-append_past (suc n) k [] ys h = absurd (omega arith)
  drop-append_past (suc n) k (x ∷ xs) ys h =
      rw (suc_add n k) (drop-append_past n k xs ys (omega arith))

  pub take-append_within : (n : ℕ) (xs ys : List A) → n ≤ length xs → take n (xs ++ ys) ≡ take n xs
  take-append_within zero xs ys h = refl
  take-append_within (suc n) [] ys h = absurd (omega arith)
  take-append_within (suc n) (x ∷ xs) ys h =
      ap (λ t. x ∷ t) (take-append_within n xs ys (omega arith))

  -- A slice of a prefix.
  pub slice-append_within :
      (from n : ℕ) (xs ys : List A)
      → from + n ≤ length xs
      → slice from n (xs ++ ys) ≡ slice from n xs
  slice-append_within zero n xs ys h = take-append_within n xs ys (omega arith)
  slice-append_within (suc from) zero [] ys h = refl
  slice-append_within (suc from) (suc n) [] ys h = absurd (omega arith)
  slice-append_within (suc from) n (x ∷ xs) ys h = slice-append_within from n xs ys (omega arith)

  take-take : (n m : ℕ) (xs : List A) → n ≤ m → take n (take m xs) ≡ take n xs
  take-take zero m xs h = refl
  take-take (suc n) zero xs h = absurd (omega arith)
  take-take (suc n) (suc m) [] h = refl
  take-take (suc n) (suc m) (x ∷ xs) h = ap (λ t. x ∷ t) (take-take n m xs (omega arith))

  -- A slice of a slice.
  slice-take :
      (start n m : ℕ) (xs : List A) → start + n ≤ m → slice start n (take m xs) ≡ slice start n xs
  slice-take zero n m xs h = take-take n m xs (omega arith)
  slice-take (suc start) n zero xs h = absurd (omega arith)
  slice-take (suc start) n (suc m) [] h = refl
  slice-take (suc start) n (suc m) (x ∷ xs) h = slice-take start n m xs (omega arith)

  pub slice-slice :
      (from m start n : ℕ) (xs : List A)
      → start + n ≤ m
      → slice start n (slice from m xs) ≡ slice (from + start) n xs
  slice-slice from m start n xs h =
      slice-take start n m (drop from xs) h ∙ ap (take n) (sym (drop-add from start xs))

  pub slice-all : (xs : List A) → slice 0 (length xs) xs ≡ xs
  slice-all [] = refl
  slice-all (x ∷ xs) = ap (λ t. x ∷ t) (slice-all xs)

  pub length-slice :
      (from n : ℕ) (xs : List A) → length (slice from n xs) ≡ min n (length xs - from)
  length-slice from n xs = omega (arith, length-take n (drop from xs), length-drop from xs)

  pub concat-append : (xss yss : List (List A)) → concat (xss ++ yss) ≡ concat xss ++ concat yss
  concat-append [] yss = refl
  concat-append (xs ∷ xss) yss =
      rw (concat-append xss yss) (sym (append_assoc xs (concat xss) (concat yss)))

module _ {ℓ κ} {A : Type ℓ} {B : Type κ} where
  pub get_elem?-map :
      (f : A → B) (xs : List A) (i : ℕ) (x : A)
      → get_elem? xs i ≡ some x
      → get_elem? (map f xs) i ≡ some (f x)
  get_elem?-map f [] i x h = cc
  get_elem?-map f (y ∷ xs) zero x h = ap (λ t. some (f t)) (some-injective y x h)
  get_elem?-map f (y ∷ xs) (suc i) x h = get_elem?-map f xs i x h
