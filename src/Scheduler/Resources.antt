-- ===== src/Scheduler/Resources.antt =====
-- src/scheduler.ts: `updateResources`, from a sample of the machine. Capacities are amounts; what is
-- available is any number, and is used where it is an amount.
pub mod Room
use pi_speculative_action.Prelude.{
  refl, inr, inl, Bool-cases, ℕ, ◌+◌, ◌*◌, ◌/◌, ◌≤◌, ◌≡◌, min, Bool, false, Option, none, some, leb,
  ◌==◌, if◌then◌else◌, arith,
}
use pi_speculative_action.Numbers.{Number, unit, positive_count}
use pi_speculative_action.Scheduler.{Dimension, Resources, cpu}
use pi_speculative_action.Scheduler.Ledger.{Scheduler, total}

-- `ExecutionResourceSnapshot`
pub record Snapshot : Type 0 where
  pub cpu_count : Number
  pub idle_cpu_count : Option Number
  pub capacity : Resources
  pub available : Dimension → Option Number

-- Whether the count is finite and at least 1.
unfoldable pub is_cpu_count : Number → Bool
is_cpu_count (Number.finite_pos n) = leb unit n
is_cpu_count _ = false

unfoldable pub capacity_of : Snapshot → Resources
capacity_of snapshot cpu = some (positive_count (some snapshot.cpu_count) * unit)
capacity_of snapshot key = snapshot.capacity key

-- The idle amount of a dimension. Without a sample the processors are idle where none is allocated.
unfoldable pub idle_of : Snapshot → ℕ → Dimension → Option Number
idle_of snapshot allocated cpu = elim snapshot.idle_cpu_count [
  | none ↦ some (Number.finite_pos (if allocated == 0 then unit else 0))
  | some n ↦ some n
]
idle_of snapshot allocated key = snapshot.available key

-- `Math.round` of the processors.
unfoldable pub rounded : Dimension → ℕ → ℕ
rounded cpu n = (n + unit / 2) / unit * unit
rounded _ n = n

unfoldable pub at_most : Option ℕ → ℕ → ℕ
at_most none n = n
at_most (some c) n = min c n

unfoldable pub admissible : Option ℕ → ℕ → Dimension → Option Number → Option ℕ
unfolding rounded at_most
admissible capacity allocated key (some (Number.finite_pos n)) =
    some (at_most capacity (allocated + rounded key n))
admissible capacity allocated key _ = capacity

module _ {ℓ ω κ} {J : Type ℓ} {O : Type ω} {K : Type κ} where
  -- `updateResources`
  unfoldable pub update_resources : Snapshot → Scheduler J O K → Scheduler J O K
  unfolding capacity_of admissible idle_of is_cpu_count
  update_resources snapshot s =
      if is_cpu_count snapshot.cpu_count
      then (record s {
        capacity = capacity_of snapshot;
        admission = λ key.
            let allocated = total s.entries key in
            admissible (capacity_of snapshot key) allocated key (idle_of snapshot allocated key);
      })
      else s
