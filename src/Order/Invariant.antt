-- ===== src/Order/Invariant.antt =====
-- The invariant of the traversal of src/dependency-order.ts: what the stack, the states and the
-- order say of one another.
use pi_speculative_action.Prelude.{
  Bool, true, false, ◌||◌, Option, none, some, List, [], ◌∷◌, ◌++◌, All, has, ◌≡◌,
}
use pi_speculative_action.Order.{Entry, Traversal}

abbrev pub is_done : Option Bool → Bool
is_done none = false
is_done (some b) = b

module _ {ℓ} {A : Type ℓ} where
  abbrev pub settled : (A → Option Bool) → Option A → Bool
  settled states none = false
  settled states (some n) = is_done (states n)

  -- The nodes whose visit is under way, the innermost first.
  abbrev pub markers : List (Entry A) → List A
  markers [] = []
  markers ((none, flag) ∷ rest) = markers rest
  markers ((some n, true) ∷ rest) = n ∷ markers rest
  markers ((some n, false) ∷ rest) = markers rest

module _ {ℓ} {A : Type ℓ} (dec : Discrete A) where
  abbrev pub same : Option A → Option A → Bool
  same none none = true
  same none (some b) = false
  same (some a) none = false
  same (some a) (some b) = elim (dec a b) [ yes _ ↦ true | no _ ↦ false ]

  abbrev pub listed : Option A → List (Option A) → Bool
  listed d [] = false
  listed d (e ∷ es) = same d e || listed d es

  -- A dependency that is done, or stands in a list of entries.
  abbrev pub covered : (A → Option Bool) → List (Option A) → Option A → Bool
  covered states above d = settled states d || listed d above

  -- A dependency that stands before.
  abbrev pub Earlier : List A → Option A → Type 0
  Earlier before none = ⊥
  Earlier before (some p) = has dec p before ≡ true

  module _ (deps : A → List (Option A)) where
    -- Each node once, behind all its dependencies, none of them missing.
    abbrev pub DepsFirst : List A → List A → Type ℓ
    DepsFirst before [] = Unit
    DepsFirst before (x ∷ xs) =
        (has dec x before ≡ false)
        × All (Earlier before) (deps x)
        × DepsFirst (before ++ (x ∷ [])) xs

    -- The dependencies of a node under way are done or stand above it on the stack, and no node is
    -- under way twice.
    abbrev pub Stacked : (A → Option Bool) → List (Option A) → List (Entry A) → Type ℓ
    Stacked states above [] = Unit
    Stacked states above ((none, flag) ∷ rest) = Stacked states (none ∷ above) rest
    Stacked states above ((some n, false) ∷ rest) = Stacked states (some n ∷ above) rest
    Stacked states above ((some n, true) ∷ rest) =
        (states n ≡ some false)
        × All (λ d. covered states above d ≡ true) (deps n)
        × (has dec n (markers rest) ≡ false)
        × Stacked states (some n ∷ above) rest

    pub record Inv (stack : List (Entry A)) (t : Traversal A) : Type ℓ where
      pub stacked : Stacked t.states [] stack
      pub tracked : (n : A) → is_done (t.states n) ≡ has dec n t.ordered
      pub sorted : DepsFirst [] t.ordered
      pub active : (n : A) → t.states n ≡ some false → has dec n (markers stack) ≡ true
