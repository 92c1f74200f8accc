-- ===== src/Scheduler/Ledger.antt =====
-- src/scheduler.ts: the ledger of the entries, admission and the failure circuit. Jobs, owners and the
-- keys of executions are parameters, each with its equality; `watch` and the timer are not modelled.
pub mod Admission
pub mod Circuit
use pi_speculative_action.Prelude.{
  ℕ, ◌+◌, ◌-◌, ◌%◌, Bool, true, false, ◌&&◌, ◌||◌, not, Option, none, some, List, [], ◌∷◌, ◌++◌,
  ltb, leb, ◌==◌, if◌then◌else◌, get, put, delete, is_some,
}
use pi_speculative_action.Recency.{RecencyMap, recall, set}
use pi_speculative_action.Scheduler.{
  Dimension, cpu, memory, io, gpu, gpu_memory, network, dimensions, Resources, Forecast, Work,
  amount, evaluate, ready,
}

pub data Role : Type 0 where
  execution preparation actor : Role

-- The settings that an admission reads, normalized.
pub record Policy : Type 0 where
  pub failure_threshold : ℕ
  pub failure_retry_decisions : ℕ

-- The defaults of the two.
abbrev pub default_policy : Policy
default_policy = record { failure_threshold = 2; failure_retry_decisions = 4 }

pub record Scope {ω} (O : Type ω) : Type ω where
  pub owner : O
  pub limit : ℕ
  pub policy : Policy

pub record Entry {ℓ ω} (J : Type ℓ) (O : Type ω) : Type (ℓ ⊔ ω) where
  pub job : J
  pub scope : Scope O
  pub role : Role
  pub sequence : ℕ
  pub work : Work

pub record Decision : Type 0 where
  pub sequence : ℕ
  pub probes : ℕ
  pub allowed : Bool

pub record Failure {ω} (O : Type ω) : Type ω where
  pub count : ℕ
  pub decisions : List (O × Decision)

pub record Scheduler {ℓ ω κ} (J : Type ℓ) (O : Type ω) (K : Type κ) : Type (ℓ ⊔ ω ⊔ κ) where
  pub entries : List (J × Entry J O)
  pub failures : RecencyMap K (Failure O)
  pub sequence : ℕ
  pub decision_sequence : ℕ
  pub capacity : Resources
  pub admission : Resources

pub data Verdict : Type 0 where
  admitted outside_launch_window failure_circuit budget_exhausted : Verdict

pub data Shortage : Type 0 where
  scope_limit : Shortage
  short_of : Dimension → Shortage

unfoldable pub is_actor : Role → Bool
is_actor actor = true
is_actor _ = false

-- Whether a total is over a capacity, where an absent one is Infinity but for the graphics units.
unfoldable pub exceeds : Dimension → ℕ → Option ℕ → Bool
exceeds key n (some c) = ltb c n
exceeds gpu n none = ltb 0 n
exceeds gpu_memory n none = ltb 0 n
exceeds _ n none = false

module _ {ℓ ω} {J : Type ℓ} {O : Type ω} where
  unfoldable pub total : List (J × Entry J O) → Dimension → ℕ
  unfolding amount
  total [] key = 0
  total ((j, e) ∷ es) key = amount (e.work.resources key) + total es key

unfoldable pub demanded : Option Work → Dimension → ℕ
unfolding amount
demanded none key = 0
demanded (some w) key = amount (w.resources key)

unfoldable pub demanded_units : Option Work → ℕ
demanded_units none = 0
demanded_units (some w) = w.resource_units

unfoldable pub short : Resources → (Dimension → ℕ) → List Dimension → List Shortage
unfolding exceeds
short capacity totals [] = []
short capacity totals (key ∷ keys) =
    let rest = short capacity totals keys in
    if exceeds key (totals key) (capacity key) then short_of key ∷ rest else rest

module _ {ℓ ω} {J : Type ℓ} {O : Type ω} (decO : Discrete O) where
  unfoldable pub scoped : O → List (J × Entry J O) → ℕ
  scoped o [] = 0
  scoped o ((j, e) ∷ es) =
      (elim (decO e.scope.owner o) [ yes _ ↦ e.work.resource_units | no _ ↦ 0 ]) + scoped o es

  -- `shortages`, of the capacity that it measures by.
  unfoldable pub shortages :
      Resources → Option Work → Scope O → List (J × Entry J O) → List Shortage
  unfolding demanded demanded_units total scoped short
  shortages capacity incoming scope es =
      let rest = short capacity (λ key. demanded incoming key + total es key) dimensions in
      if ltb scope.limit (demanded_units incoming + scoped scope.owner es)
      then scope_limit ∷ rest
      else rest

unfoldable pub is_nil {ℓ} : {A : Type ℓ} → List A → Bool
is_nil [] = true
is_nil (x ∷ xs) = false

-- The decision of an owner about a failing execution, made once for each decision of the host.
unfoldable pub decide : Policy → ℕ → Option Decision → Decision
decide policy now none = record {
  sequence = now;
  probes = 1;
  allowed = 1 % policy.failure_retry_decisions == 0;
}
decide policy now (some d) = if d.sequence == now then d else (record {
  sequence = now;
  probes = d.probes + 1;
  allowed = (d.probes + 1) % policy.failure_retry_decisions == 0;
})

module _ {ω} {O : Type ω} (decO : Discrete O) where
  -- The circuit of an execution that has failed: whether it lets the work pass.
  unfoldable pub judge : Scope O → ℕ → Failure O → Failure O × Bool
  unfolding decide
  judge scope now f =
      if leb scope.policy.failure_threshold f.count
      then (let d = decide scope.policy now (get decO scope.owner f.decisions) in
          (record f { decisions = put decO scope.owner d f.decisions }, d.allowed))
      else (f, true)

module _ {ω κ} {O : Type ω} {K : Type κ} (decO : Discrete O) (decK : Discrete K) where
  -- `this.failures.get` and the circuit; the object that it finds is changed in its place.
  judge_found :
      K
      → Scope O
      → ℕ
      → RecencyMap K (Failure O)
      → Option (Failure O)
      → RecencyMap K (Failure O) × Bool
  unfolding judge
  judge_found k scope now m none = (m, true)
  judge_found k scope now m (some f) =
      let (f', passed) = judge decO scope now f in
      (record m { entries = put decK k f' m.entries }, passed)

  unfoldable pub circuit :
      Option K → Scope O → ℕ → RecencyMap K (Failure O) → RecencyMap K (Failure O) × Bool
  unfolding judge_found
  circuit none scope now m = (m, true)
  circuit (some k) scope now m =
      let (m', found) = recall decK k m in judge_found k scope now m' found

failures_of {ω} : {O : Type ω} → Option (Failure O) → ℕ
failures_of none = 0
failures_of (some f) = f.count

module _ {ℓ ω κ} {J : Type ℓ} {O : Type ω} {K : Type κ} (decJ : Discrete J) (decO : Discrete O)
    (decK : Discrete K) where
  unfoldable pub enter : J → Scope O → Role → Work → Scheduler J O K → Scheduler J O K
  enter job scope role work s =
      let entry : Entry J O = record {
        job = job;
        scope = scope;
        role = role;
        sequence = s.sequence;
        work = work;
      } in
      record s { entries = put decJ job entry s.entries; sequence = s.sequence + 1 }

  -- `admit`
  unfoldable pub admit :
      J → Scope O → Role → Work → Option K → Scheduler J O K → Scheduler J O K × Verdict
  unfolding circuit enter is_actor
  admit job scope role work identity s =
      if is_actor role || work.actor_demand
      then (enter job scope role work s, admitted)
      else if not (ready work)
      then (s, outside_launch_window)
      else (let (failures, passed) =
            circuit decO decK identity scope s.decision_sequence s.failures in
          let s' : Scheduler J O K = record s { failures = failures } in
          if not passed
          then (s', failure_circuit)
          else if not (is_nil (shortages decO s.admission (some work) scope s.entries))
          then (s', budget_exhausted)
          else (enter job scope role work s', admitted))

  refreshed_work : Work → Work → Work
  refreshed_work new old = record new {
    resources = old.resources;
    resource_units = old.resource_units;
  }

  -- `refresh`, with the work of the entry, if there is one.
  unfoldable pub refresh : J → List Forecast → Scheduler J O K → Scheduler J O K × Option Work
  unfolding refreshed_work
  refresh job fs s = elim (get decJ job s.entries) [
    | none ↦ (s, none)
    | some e ↦
        let work = refreshed_work (evaluate fs) e.work in
        (record s { entries = put decJ job (record e { work = work }) s.entries }, some work)
  ]

  unfoldable pub complete : J → Scheduler J O K → Scheduler J O K × Bool
  complete job s =
      (record s { entries = delete decJ job s.entries }, is_some (get decJ job s.entries))

  unfoldable pub has_job : J → Scheduler J O K → Bool
  has_job job s = is_some (get decJ job s.entries)

  unfoldable pub advance : Scheduler J O K → Scheduler J O K
  advance s = record s { decision_sequence = s.decision_sequence + 1 }

  -- `observe`
  unfoldable pub observe : K → Bool → Scheduler J O K → Scheduler J O K
  unfolding failures_of
  observe k true s =
      let (m, found) = recall decK k s.failures in
      let f : Failure O = record { count = failures_of found + 1; decisions = [] } in
      record s { failures = (set decK k f m).0 }
  observe k false s = record s {
    failures = record s.failures { entries = delete decK k s.failures.entries };
  }
