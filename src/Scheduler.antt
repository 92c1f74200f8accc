-- ===== src/Scheduler.antt =====
-- src/scheduler.ts and the dimensions of src/system-resources.ts: the work of a forecast. An amount is
-- a natural number of the units of Numbers, a probability one of their squares, and arithmetic is
-- exact; an amount that is absent is `none`.
pub mod Ledger
pub mod Priority
pub mod Preemption
pub mod Resources
mod Examples
use pi_speculative_action.Prelude.{
  ℕ, zero, suc, ◌+◌, ◌*◌, ◌-◌, min, max, Bool, true, false, ◌&&◌, ◌||◌, not, Option, none, some,
  List, [], ◌∷◌, map, leb, if◌then◌else◌,
}
use pi_speculative_action.Numbers.{
  Number, unit, non_negative_finite, non_negative_count, positive_count,
}

pub data Dimension : Type 0 where
  cpu memory io gpu gpu_memory network : Dimension

-- `RESOURCE_DIMENSIONS`
abbrev pub dimensions : List Dimension
dimensions = cpu ∷ memory ∷ io ∷ gpu ∷ gpu_memory ∷ network ∷ []

-- `HardwareResources`
abbrev pub Resources : Type 0
Resources = Dimension → Option ℕ

pub data Demand : Type 0 where
  unspecified : Demand
  cpus : Number → Demand
  table : (Dimension → Option Number) → Demand

pub record Forecast : Type 0 where
  pub expected_duration : Option Number
  pub elapsed : Option Number
  pub demand : Demand
  pub batches : Option Number
  pub steps : Option Number
  pub confidence : Option Number
  pub hit : Option Number
  pub adoption : Option Number
  pub background : Bool
  pub actor_demand : Bool
  pub actor_hint : Bool
  pub resolved : Bool

-- `ScheduledWork`; the batches are `none` for Infinity.
pub record Work : Type 0 where
  pub expected_duration : Option ℕ
  pub elapsed : ℕ
  pub resources : Resources
  pub resource_units : ℕ
  pub batches : Option ℕ
  pub steps : ℕ
  pub confidence : ℕ
  pub background : Bool
  pub actor_demand : Bool
  pub actor_hint : Bool
  pub resolved : Bool

unfoldable pub amount : Option ℕ → ℕ
amount none = 0
amount (some n) = n

-- What one forecast demands of each dimension.
unfoldable pub demand_of : Demand → Resources
demand_of unspecified cpu = some unit
demand_of unspecified _ = none
demand_of (cpus n) cpu = some (positive_count (some n) * unit)
demand_of (cpus n) _ = none
demand_of (table t) key = elim (t key) [
  | none ↦ none
  | some n ↦ some (non_negative_finite (some n))
]

-- `Math.max(a ?? 0, b)` where there is a `b`.
unfoldable pub larger : Option ℕ → Option ℕ → Option ℕ
unfolding amount
larger a none = a
larger a (some b) = some (max (amount a) b)

unfoldable pub peak : List Forecast → Resources
unfolding larger demand_of
peak [] key = none
peak (f ∷ fs) key = larger (peak fs key) (demand_of f.demand key)

-- The product of the two probabilities, 1 where one is absent; what is negative or not finite is 0.
product : Number → Number → ℕ
product (Number.finite_pos a) (Number.finite_pos b) = a * b
product (Number.finite_neg a) (Number.finite_neg b) = (a + 1) * (b + 1)
product _ _ = 0

or_one : Option Number → Number
or_one none = Number.finite_pos unit
or_one (some n) = n

unfoldable pub confidence_of : Forecast → ℕ
unfolding product or_one
confidence_of f = min (unit * unit) (elim f.confidence [
  | none ↦ product (or_one f.hit) (or_one f.adoption)
  | some n ↦ non_negative_finite (some n) * unit
])

durations : List Forecast → List ℕ
durations [] = []
durations (f ∷ fs) = elim f.expected_duration [
  | none ↦ durations fs
  | some n ↦ non_negative_finite (some n) ∷ durations fs
]

-- `Math.max(start, ...xs)`
unfoldable pub most : ℕ → List ℕ → ℕ
most start [] = start
most start (x ∷ xs) = max x (most start xs)

-- `Math.min(...xs)`, Infinity for no number.
unfoldable pub least : List ℕ → Option ℕ
least [] = none
least (x ∷ xs) = some (elim (least xs) [ none ↦ x | some y ↦ min x y ])

longest : List ℕ → Option ℕ
unfolding most
longest [] = none
longest (x ∷ xs) = some (most x xs)

unfoldable pub every {ℓ} : {A : Type ℓ} → (A → Bool) → List A → Bool
every p [] = true
every p (x ∷ xs) = p x && every p xs

unfoldable pub any {ℓ} : {A : Type ℓ} → (A → Bool) → List A → Bool
any p [] = false
any p (x ∷ xs) = p x || any p xs

is_cons : List Forecast → Bool
is_cons [] = false
is_cons (f ∷ fs) = true

-- `evaluate`
unfoldable pub evaluate : List Forecast → Work
unfolding amount peak longest durations most least every any confidence_of is_cons
evaluate fs = record {
  expected_duration = longest (durations fs);
  elapsed = most 0 (map (λ f. non_negative_finite f.elapsed) fs);
  resources = peak fs;
  resource_units = max unit (amount (peak fs cpu));
  batches = least (map (λ f. non_negative_count f.batches) fs);
  steps = most 1 (map (λ f. positive_count f.steps) fs);
  confidence = most 0 (map confidence_of fs);
  background = is_cons fs && every (λ f. f.background) fs;
  actor_demand = any (λ f. f.actor_demand) fs;
  actor_hint = any (λ f. f.actor_hint) fs;
  resolved = any (λ f. f.resolved) fs;
}

within_steps : Option ℕ → ℕ → Bool
within_steps none n = false
within_steps (some b) n = leb b n

-- `ready`
unfoldable pub ready : Work → Bool
unfolding within_steps
ready w = w.actor_demand || w.resolved || within_steps w.batches w.steps
