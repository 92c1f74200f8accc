-- ===== src/Recency.antt =====
-- src/bounded-recency-map.ts: `BoundedRecencyMap`. The entries stand in the order of the `Map` that
-- the class extends, the oldest first. Keys are compared by a decision, and every value counts as a
-- value, `undefined` too. `evicted` is called with the value that `set` returns here.
pub mod Distinct
pub mod Bounded
pub mod Lookup
mod Examples
use pi_speculative_action.Prelude.{
  ℕ, ◌/◌, max, Bool, true, false, Option, none, some, List, [], ◌∷◌, ◌++◌, length, leb,
  if◌then◌else◌, get, delete,
}
use pi_speculative_action.Numbers.{Number, unit}

-- `Math.max(1, Math.floor(capacity))`, which is NaN for NaN.
pub data Capacity : Type 0 where
  not_a_number unlimited : Capacity
  at_most : ℕ → Capacity

unfoldable pub capacity_of : Number → Capacity
capacity_of Number.nan = not_a_number
capacity_of Number.infinity = unlimited
capacity_of Number.neg_infinity = at_most 1
capacity_of (Number.finite_pos n) = at_most (max 1 (n / unit))
capacity_of (Number.finite_neg n) = at_most 1

-- `this.size <= this.capacity`, which is false for NaN.
unfoldable pub within : ℕ → Capacity → Bool
within n not_a_number = false
within n unlimited = true
within n (at_most c) = leb n c

pub record RecencyMap {ℓ κ} (K : Type ℓ) (V : Type κ) : Type (ℓ ⊔ κ) where
  pub capacity : Capacity
  pub entries : List (K × V)

module _ {ℓ κ} {K : Type ℓ} {V : Type κ} where
  unfoldable pub create : Number → RecencyMap K V
  unfolding capacity_of
  create capacity = record { capacity = capacity_of capacity; entries = [] }

  -- Takes the first entry.
  unfoldable pub shift : List (K × V) → List (K × V) × Option V
  shift [] = ([], none)
  shift ((k, v) ∷ rest) = (rest, some v)

  unfoldable pub evict : RecencyMap K V → RecencyMap K V × Option V
  unfolding within shift
  evict m =
      if within (length m.entries) m.capacity
      then (m, none)
      else (let (rest, value) = shift m.entries in (record m { entries = rest }, value))

module _ {ℓ κ} {K : Type ℓ} {V : Type κ} (dec : Discrete K) where
  -- `super.delete(key); super.set(key, value)`
  unfoldable pub refreshed : K → V → List (K × V) → List (K × V)
  refreshed k v m = delete dec k m ++ ((k, v) ∷ [])

  unfoldable pub recall : K → RecencyMap K V → RecencyMap K V × Option V
  unfolding refreshed
  recall k m = elim (get dec k m.entries) [
    | none ↦ (m, none)
    | some v ↦ (record m { entries = refreshed k v m.entries }, some v)
  ]

  unfoldable pub set : K → V → RecencyMap K V → RecencyMap K V × Option V
  unfolding refreshed evict
  set k v m = evict (record m { entries = refreshed k v m.entries })

  unfoldable pub created : K → Option V → RecencyMap K V → RecencyMap K V × Option V × Option V
  unfolding set
  created k none m = (m, none, none)
  created k (some v) m = let (m', value) = set k v m in (m', some v, value)

  -- The factory gives `none` where it throws, and does not use the map itself. The last result is
  -- what `set` evicts.
  unfoldable pub get_or_create :
      K → (Unit {0} → Option V) → RecencyMap K V → RecencyMap K V × Option V × Option V
  unfolding recall created
  get_or_create k make m =
      let (m', cached) = recall k m in
      elim cached [ none ↦ created k (make tt) m' | some v ↦ (m', some v, none) ]
