-- ===== src/Scheduler/Examples.antt =====
-- src/scheduler.ts: two owners on two processors.
use Prim.Native.Nat.{Ordering}
use pi_speculative_action.Numbers.{unit, Number}
use pi_speculative_action.Scheduler.{
  any, ready, Dimension, cpu, memory, io, gpu, gpu_memory, network, Resources, Work,
}
use pi_speculative_action.Scheduler.Priority.{then_by, prefer}
use pi_speculative_action.Scheduler.Ledger.{
  shortages, is_nil, is_actor, Entry, Scope, execution, Scheduler, default_policy, Failure, admit,
  admitted, judge, total, scoped,
}
use pi_speculative_action.Scheduler.Ledger.Admission.{Fits, admit-Fits}
use pi_speculative_action.Scheduler.Ledger.Circuit.{judged, judge-judged}
use pi_speculative_action.Scheduler.Preemption.{undrained, is_physical, preempt_for}
use pi_speculative_action.Scheduler.Preemption.Victims.{
  limits_of, IsSort, Selected, preempt_for-Selected,
}
use pi_speculative_action.Scheduler.Resources.Room.{Known, update_resources-shortages}
use pi_speculative_action.Scheduler.Resources.{Snapshot, update_resources, is_cpu_count}
use pi_speculative_action.Recency.{at_most}
use pi_speculative_action.Prelude.{
  Option, ◌*◌, ap, ◌∙◌, not, ◌⊎◌, ◌≤◌, ◌+◌, ℕ, ◌≡◌, refl, Bool, true, false, none, some, List, [],
  ◌∷◌, All, length, arith, ℕ_discrete, get, suc,
}

abbrev one_cpu : Resources
one_cpu cpu = some 1
one_cpu _ = none

abbrev two_cpus : Resources
two_cpus cpu = some 2
two_cpus _ = none

abbrev work : Work
work = record {
  expected_duration = none;
  elapsed = 0;
  resources = one_cpu;
  resource_units = 1;
  batches = some 1;
  steps = 1;
  confidence = 1;
  background = false;
  actor_demand = false;
  actor_hint = false;
  resolved = false;
}

abbrev demanded_work : Work
demanded_work = record work { actor_demand = true }

abbrev scope : ℕ → Scope ℕ
scope owner = record { owner = owner; limit = 4; policy = default_policy }

abbrev idle : Scheduler ℕ ℕ ℕ
idle = record {
  entries = [];
  failures = record { capacity = at_most 1024; entries = [] };
  sequence = 0;
  decision_sequence = 0;
  capacity = two_cpus;
  admission = two_cpus;
}

abbrev entry : ℕ → Entry ℕ ℕ
entry job = record { job = job; scope = scope 7; role = execution; sequence = job; work = work }

abbrev busy : Scheduler ℕ ℕ ℕ
busy = record idle { entries = (0, entry 0) ∷ (1, entry 1) ∷ []; sequence = 2 }

-- Insertion before the first element that the new one is not after.
insert {ℓ} : {A : Type ℓ} → (A → A → Ordering) → A → List A → List A
insert f x [] = x ∷ []
insert f x (y ∷ ys) = elim (f x y) [ Ordering.gt ↦ y ∷ insert f x ys | _ ↦ x ∷ (y ∷ ys) ]

sort {ℓ} : {A : Type ℓ} → (A → A → Ordering) → List A → List A
unfolding insert
sort f [] = []
sort f (x ∷ xs) = insert f x (sort f xs)

insert-All {ℓ} :
    {A : Type ℓ} (P : A → Type 0) (f : A → A → Ordering) (x : A) (xs : List A)
    → P x
    → All P xs
    → All P (insert f x xs)
unfolding insert
insert-All P f x [] h k = (h, tt)
insert-All P f x (y ∷ ys) h k =
    elim (f x y) as (λ o. All P (elim o [ Ordering.gt ↦ y ∷ insert f x ys | _ ↦ x ∷ (y ∷ ys) ])) [
      | Ordering.lt ↦ (h, k)
      | Ordering.eq ↦ (h, k)
      | Ordering.gt ↦ (k.0, insert-All P f x ys h k.1)
    ]

length-insert {ℓ} :
    {A : Type ℓ} (f : A → A → Ordering) (x : A) (xs : List A)
    → length (insert f x xs) ≡ suc (length xs)
unfolding insert
length-insert f x [] = refl
length-insert f x (y ∷ ys) = ground (arith, length-insert f x ys)

sort-IsSort {ℓ} : {A : Type ℓ} → IsSort {A = A} sort
unfolding sort
sort-IsSort {A = A} = record { keeps = sort-All; counts = length-sort }
  where
    sort-All : (P : A → Type 0) (f : A → A → Ordering) (xs : List A) → All P xs → All P (sort f xs)
    sort-All P f [] h = tt
    sort-All P f (x ∷ xs) h = insert-All P f x (sort f xs) h.0 (sort-All P f xs h.1)

    length-sort : (f : A → A → Ordering) (xs : List A) → length (sort f xs) ≡ length xs
    length-sort f [] = refl
    length-sort f (x ∷ xs) = length-insert f x (sort f xs) ∙ ap suc (length-sort f xs)

job_admitted :
    (admit ℕ_discrete ℕ_discrete ℕ_discrete 3 (scope 7) execution work none idle).1 ≡ admitted
unfolding admit ℕ_discrete ready is_nil shortages
job_admitted = refl

admit-Fits_example :
    ((key : Dimension)
      → Fits
          (total
            (admit ℕ_discrete ℕ_discrete ℕ_discrete 3 (scope 7) execution work none idle).0.entries
            key)
          (two_cpus key))
    × (scoped ℕ_discrete 7
          (admit ℕ_discrete ℕ_discrete ℕ_discrete 3 (scope 7) execution work none idle).0.entries
        ≤ 4)
unfolding get is_actor
admit-Fits_example =
    admit-Fits ℕ_discrete ℕ_discrete ℕ_discrete 3 (scope 7) execution work none idle no_job
      not_actor refl job_admitted
  where
    no_job : get ℕ_discrete 3 idle.entries ≡ none
    no_job = refl

    not_actor : is_actor execution ≡ false
    not_actor = refl

abbrev failing : Failure ℕ
failing = record { count = 2; decisions = [] }

-- The third decision after the failures is refused, as 4 does not divide 3.
judge-judged_example :
    (judge ℕ_discrete (scope 7) (5 + 2) (judged ℕ_discrete (scope 7) 5 2 failing)).1 ≡ false
unfolding get
judge-judged_example = judge-judged ℕ_discrete (scope 7) 5 2 failing (omega arith) no_decision
  where
    no_decision : get ℕ_discrete 7 failing.decisions ≡ none
    no_decision = refl

abbrev some_memory : Dimension → Option Number
some_memory memory = some (Number.finite_pos unit)
some_memory _ = none

abbrev snapshot : Snapshot
snapshot = record {
  cpu_count = Number.finite_pos (2 * unit);
  idle_cpu_count = none;
  capacity = two_cpus;
  available = some_memory;
}

update_resources-shortages_example :
    ((incoming : Option Work) (scope : Scope ℕ) (es : List (ℕ × Entry ℕ ℕ))
      → is_nil (shortages ℕ_discrete (update_resources snapshot busy).admission incoming scope es)
        ≡ true
      → is_nil (shortages ℕ_discrete (update_resources snapshot busy).capacity incoming scope es)
        ≡ true)
    × ((scope : Scope ℕ)
        → shortages ℕ_discrete (update_resources snapshot busy).admission none scope busy.entries
          ≡ shortages ℕ_discrete (update_resources snapshot busy).capacity none scope busy.entries)
unfolding is_cpu_count unit
update_resources-shortages_example =
    update_resources-shortages ℕ_discrete snapshot busy counted known
  where
    counted : is_cpu_count snapshot.cpu_count ≡ true
    counted = refl

    known : (key : Dimension) → Known key (snapshot.capacity key) (snapshot.available key)
    known cpu = tt
    known memory = tt
    known io = tt
    known gpu = tt
    known gpu_memory = tt
    known network = tt

abbrev any_job : ℕ → Bool
any_job job = true

abbrev none_drains : ℕ → Bool
none_drains job = false

preempt_for-Selected_example :
    (victims : List ℕ) × (preempt_for ℕ_discrete ℕ_discrete sort
        (scope 7)
        (some demanded_work)
        any_job
        none_drains
        busy
      ≡ some victims)
    × (((victims ≡ [])
          × (is_physical (some demanded_work) ≡ false)
          × (is_nil (
                shortages {J = ℕ} ℕ_discrete
                  (limits_of (some demanded_work) busy)
                  (some demanded_work)
                  (scope 7)
                  [])
              ≡ false))
        ⊎ (((is_physical (some demanded_work) ≡ true)
              ⊎ (is_nil (
                    shortages {J = ℕ} ℕ_discrete
                      (limits_of (some demanded_work) busy)
                      (some demanded_work)
                      (scope 7)
                      [])
                  ≡ true))
            × Selected ℕ_discrete ℕ_discrete
                (λ e. (e.job ≤ 1) × (not (none_drains e.job) ≡ true))
                two_cpus
                (limits_of (some demanded_work) busy)
                (scope 7)
                (some demanded_work)
                any_job
                (undrained none_drains busy.entries)
                victims))
preempt_for-Selected_example =
    preempt_for-Selected ℕ_discrete ℕ_discrete sort sort-IsSort (λ e. e.job ≤ 1) (scope 7)
      (some demanded_work) any_job none_drains busy (refl, (refl, tt))
      (omega arith, (omega arith, tt))

-- The later of two equal works gives way to a demand of an actor.
preempts :
    preempt_for ℕ_discrete ℕ_discrete sort (scope 7) (some demanded_work) any_job none_drains busy
    ≡ some (1 ∷ [])
unfolding preempt_for ℕ_discrete sort is_nil shortages is_actor any then_by prefer
preempts = refl
