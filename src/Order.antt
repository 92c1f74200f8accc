-- ===== src/Order.antt =====
-- src/dependency-order.ts: the dependency-first traversal with an explicit stack. The node type and
-- its equality are parameters, as the source is generic over `Node`; `dependencies` is a function
-- into a list, with `none` for a missing vertex.
pub mod Invariant
mod Steps
pub mod Sound
pub mod Complete
pub mod Fuel
pub mod Ranked
mod Examples
use pi_speculative_action.Prelude.{
  ℕ, zero, suc, Bool, true, false, Option, none, some, List, [], ◌∷◌, ◌++◌, map, update, ◌≡◌, ◌≢◌,
  refl,
}

abbrev pub Entry {ℓ} : Type ℓ → Type ℓ
Entry A = Option A × Bool

-- The two variables of the traversal. The map of the states is a function.
pub record Traversal {ℓ} (A : Type ℓ) : Type ℓ where
  pub states : A → Option Bool
  pub ordered : List A

-- The `undefined` of the source is `rejected`; `exhausted` is a traversal that ran out of fuel.
pub data Outcome {ℓ} (A : Type ℓ) : Type ℓ where
  exhausted rejected : Outcome A
  finished : A → Outcome A

infixl 5 ◌>>=◌
abbrev pub ◌>>=◌ {ℓ κ} : {A : Type ℓ} {B : Type κ} → Outcome A → (A → Outcome B) → Outcome B
exhausted >>= f = exhausted
rejected >>= f = rejected
finished a >>= f = f a

pub >>=-eq-finished {ℓ κ} :
    {A : Type ℓ} {B : Type κ} (m : Outcome A) (f : A → Outcome B) {b : B}
    → (m >>= f) ≡ finished b
    → (a : A) × (m ≡ finished a) × (f a ≡ finished b)
>>=-eq-finished exhausted f h = cc
>>=-eq-finished rejected f h = cc
>>=-eq-finished (finished a) f h = (a, refl, h)

pub >>=-ne-exhausted {ℓ κ} :
    {A : Type ℓ} {B : Type κ} (m : Outcome A) (f : A → Outcome B)
    → m ≢ exhausted
    → ((a : A) → f a ≢ exhausted)
    → (m >>= f) ≢ exhausted
>>=-ne-exhausted exhausted f h k = absurd (h refl)
>>=-ne-exhausted rejected f h k = λ e. cc
>>=-ne-exhausted (finished a) f h k = k a

pub >>=-ne-rejected {ℓ κ} :
    {A : Type ℓ} {B : Type κ} (m : Outcome A) (f : A → Outcome B)
    → m ≢ rejected
    → ((a : A) → m ≡ finished a → f a ≢ rejected)
    → (m >>= f) ≢ rejected
>>=-ne-rejected exhausted f h k = λ e. cc
>>=-ne-rejected rejected f h k = absurd (h refl)
>>=-ne-rejected (finished a) f h k = k a refl

pub finished_of_ne {ℓ} :
    {A : Type ℓ} (m : Outcome A) → m ≢ exhausted → m ≢ rejected → (a : A) × (m ≡ finished a)
finished_of_ne exhausted h k = absurd (h refl)
finished_of_ne rejected h k = absurd (k refl)
finished_of_ne (finished a) h k = (a, refl)

abbrev pub fresh {ℓ} : {A : Type ℓ} → Traversal A
fresh = record { states = λ _. none; ordered = [] }

abbrev pub unfinished {ℓ} : {A : Type ℓ} → Option A → Entry A
unfinished d = (d, false)

module _ {ℓ} {A : Type ℓ} (dec : Discrete A) (deps : A → List (Option A)) where
  -- A popped node that is not finished, by its state. The head of a stack is its top, so that the
  -- first dependency is the next entry.
  pub visit : Option Bool → A → List (Entry A) → Traversal A → Option (List (Entry A) × Traversal A)
  visit (some true) node rest t = some (rest, t)
  visit (some false) node rest t = none
  visit none node rest t = some (
    map unfinished (deps node) ++ ((some node, true) ∷ rest),
    record t { states = update dec t.states node false },
  )

  -- The body of the `while`, on the popped entry.
  pub turn : Entry A → List (Entry A) → Traversal A → Option (List (Entry A) × Traversal A)
  unfolding visit
  turn (none, flag) rest t = none
  turn (some node, true) rest t =
      some (
        rest,
        record { states = update dec t.states node true; ordered = t.ordered ++ (node ∷ []) },
      )
  turn (some node, false) rest t = visit (t.states node) node rest t

  -- The `while` of one root, on fuel.
  pub drain : ℕ → List (Entry A) → Traversal A → Outcome (Traversal A)
  unfolding turn
  drain zero stack t = exhausted
  drain (suc fuel) [] t = finished t
  drain (suc fuel) (entry ∷ rest) t = elim (turn entry rest t) [
    | none ↦ rejected
    | some next ↦ drain fuel next.0 next.1
  ]

  -- The `for` over the roots.
  pub walk : ℕ → List A → Traversal A → Outcome (Traversal A)
  unfolding drain
  walk fuel [] t = finished t
  walk fuel (root ∷ roots) t = do u ← drain fuel ((some root, false) ∷ []) t; walk fuel roots u

  unfoldable pub dependency_order : ℕ → List A → Outcome (List A)
  unfolding walk
  dependency_order fuel roots = do t ← walk fuel roots fresh; finished t.ordered
