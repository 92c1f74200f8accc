-- ===== src/Scheduler/Resources/Room.antt =====
-- src/scheduler.ts: the room that `updateResources` leaves for work.
use pi_speculative_action.Prelude.{
  ℕ, ◌+◌, ◌≡◌, true, false, Option, none, some, List, [], ◌∷◌, refl, ap, subst, inl, inr,
  Bool-cases, if◌then◌else◌, ltb, min, arith,
}
use pi_speculative_action.Numbers.{Number}
use pi_speculative_action.Scheduler.{
  Dimension, Resources, Work, cpu, memory, io, gpu, gpu_memory, network, dimensions,
}
use pi_speculative_action.Scheduler.Ledger.{
  Scheduler, Entry, Scope, Shortage, total, scoped, demanded, demanded_units, exceeds, short,
  shortages, is_nil,
}
use pi_speculative_action.Scheduler.Resources.{
  Snapshot, at_most, admissible, capacity_of, idle_of, is_cpu_count, update_resources,
}

-- What is available of the graphics units has a capacity.
abbrev pub Known : Dimension → Option ℕ → Option Number → Type 0
Known gpu none (some n) = ⊥
Known gpu_memory none (some n) = ⊥
Known _ capacity available = Unit

exceeds-at_most :
    (key : Dimension) (c m n : ℕ)
    → exceeds key n (some (min c m)) ≡ false
    → exceeds key n (some c) ≡ false
unfolding exceeds
exceeds-at_most key c m n h = ground arith

-- What an admission has room for, the capacity has room for.
admissible-within :
    (key : Dimension) (capacity : Option ℕ) (allocated n : ℕ) (idle : Option Number)
    → Known key capacity idle
    → exceeds key n (admissible capacity allocated key idle) ≡ false
    → exceeds key n capacity ≡ false
unfolding admissible at_most exceeds
admissible-within key (some c) allocated n (some (Number.finite_pos k)) w h = ground arith
admissible-within gpu none allocated n (some (Number.finite_pos k)) w h = absurd w
admissible-within gpu_memory none allocated n (some (Number.finite_pos k)) w h = absurd w
admissible-within cpu none allocated n (some (Number.finite_pos k)) w h = refl
admissible-within memory none allocated n (some (Number.finite_pos k)) w h = refl
admissible-within io none allocated n (some (Number.finite_pos k)) w h = refl
admissible-within network none allocated n (some (Number.finite_pos k)) w h = refl
admissible-within key capacity allocated n none w h = h
admissible-within key capacity allocated n (some Number.nan) w h = h
admissible-within key capacity allocated n (some Number.infinity) w h = h
admissible-within key capacity allocated n (some Number.neg_infinity) w h = h
admissible-within key capacity allocated n (some (Number.finite_neg k)) w h = h

-- What is allocated is over the admission only if it is over the capacity.
admissible-allocated :
    (key : Dimension) (capacity : Option ℕ) (allocated : ℕ) (idle : Option Number)
    → Known key capacity idle
    → exceeds key allocated (admissible capacity allocated key idle)
      ≡ exceeds key allocated capacity
unfolding admissible at_most exceeds
admissible-allocated key (some c) allocated (some (Number.finite_pos k)) w = ground arith
admissible-allocated gpu none allocated (some (Number.finite_pos k)) w = absurd w
admissible-allocated gpu_memory none allocated (some (Number.finite_pos k)) w = absurd w
admissible-allocated cpu none allocated (some (Number.finite_pos k)) w = ground arith
admissible-allocated memory none allocated (some (Number.finite_pos k)) w = ground arith
admissible-allocated io none allocated (some (Number.finite_pos k)) w = ground arith
admissible-allocated network none allocated (some (Number.finite_pos k)) w = ground arith
admissible-allocated key capacity allocated none w = refl
admissible-allocated key capacity allocated (some Number.nan) w = refl
admissible-allocated key capacity allocated (some Number.infinity) w = refl
admissible-allocated key capacity allocated (some Number.neg_infinity) w = refl
admissible-allocated key capacity allocated (some (Number.finite_neg k)) w = refl

short-within :
    (admission capacity : Resources) (totals : Dimension → ℕ) (keys : List Dimension)
    → ((key : Dimension) (n : ℕ)
        → exceeds key n (admission key) ≡ false
        → exceeds key n (capacity key) ≡ false)
    → is_nil (short admission totals keys) ≡ true
    → is_nil (short capacity totals keys) ≡ true
unfolding short is_nil
short-within admission capacity totals [] w h = refl
short-within admission capacity totals (key ∷ keys) w h =
    elim (Bool-cases (exceeds key (totals key) (admission key))) [
      | inl e ↦ cc (rw e at h)
      | inr e ↦
          rw (w key (totals key) e) (short-within admission capacity totals keys w (rw e at h))
    ]

short_eq :
    (admission capacity : Resources) (totals : Dimension → ℕ) (keys : List Dimension)
    → ((key : Dimension)
        → exceeds key (totals key) (admission key) ≡ exceeds key (totals key) (capacity key))
    → short admission totals keys ≡ short capacity totals keys
unfolding short
short_eq admission capacity totals [] w = refl
short_eq admission capacity totals (key ∷ keys) w =
    rw (w key, short_eq admission capacity totals keys w) refl

idle-Known :
    (snapshot : Snapshot) (allocated : ℕ) (key : Dimension)
    → Known key (snapshot.capacity key) (snapshot.available key)
    → Known key (capacity_of snapshot key) (idle_of snapshot allocated key)
unfolding capacity_of idle_of
idle-Known snapshot allocated cpu h = tt
idle-Known snapshot allocated memory h = h
idle-Known snapshot allocated io h = h
idle-Known snapshot allocated gpu h = h
idle-Known snapshot allocated gpu_memory h = h
idle-Known snapshot allocated network h = h

module _ {ℓ ω} {J : Type ℓ} {O : Type ω} (decO : Discrete O) where
  shortages-within :
      (admission capacity : Resources) (incoming : Option Work) (scope : Scope O)
      (es : List (J × Entry J O))
      → ((key : Dimension) (n : ℕ)
          → exceeds key n (admission key) ≡ false
          → exceeds key n (capacity key) ≡ false)
      → is_nil (shortages decO admission incoming scope es) ≡ true
      → is_nil (shortages decO capacity incoming scope es) ≡ true
  unfolding shortages is_nil
  shortages-within admission capacity incoming scope es w h =
      elim (Bool-cases (ltb scope.limit (demanded_units incoming + scoped decO scope.owner es))) [
        | inl e ↦ cc (rw e at h)
        | inr e ↦ rw e (
            short-within admission capacity (λ key. demanded incoming key + total es key) dimensions
              w (rw e at h))
      ]

  shortages_eq :
      (admission capacity : Resources) (scope : Scope O) (es : List (J × Entry J O))
      → ((key : Dimension)
          → exceeds key (total es key) (admission key) ≡ exceeds key (total es key) (capacity key))
      → shortages decO admission none scope es ≡ shortages decO capacity none scope es
  unfolding shortages demanded
  shortages_eq admission capacity scope es w =
      ap
        (λ rest.
          if ltb scope.limit (demanded_units none + scoped decO scope.owner es)
          then Shortage.scope_limit ∷ rest
          else rest)
        (short_eq admission capacity (λ key. demanded none key + total es key) dimensions
          (λ key.
            subst (λ n. exceeds key n (admission key) ≡ exceeds key n (capacity key))
              (no_demand (total es key)) (w key)))
    where
      no_demand : (n : ℕ) → n ≡ 0 + n
      no_demand n = omega arith

module _ {ℓ ω κ} {J : Type ℓ} {O : Type ω} {K : Type κ} (decO : Discrete O) where
  -- If a sample counts the processors, and gives the capacity of the graphics units that it says are
  -- available, then after it: work that is not short by the admissions, next to any entries, is not
  -- short by the capacities; and for the entries of the ledger alone, the admissions and the
  -- capacities give the same shortages, so that a sample makes nothing short that the machine can hold.
  pub update_resources-shortages :
      (snapshot : Snapshot) (s : Scheduler J O K)
      → is_cpu_count snapshot.cpu_count ≡ true
      → ((key : Dimension) → Known key (snapshot.capacity key) (snapshot.available key))
      → ((incoming : Option Work) (scope : Scope O) (es : List (J × Entry J O))
          → is_nil (shortages decO (update_resources snapshot s).admission incoming scope es) ≡ true
          → is_nil (shortages decO (update_resources snapshot s).capacity incoming scope es) ≡ true)
        × ((scope : Scope O)
            → shortages decO (update_resources snapshot s).admission none scope s.entries
              ≡ shortages decO (update_resources snapshot s).capacity none scope s.entries)
  unfolding update_resources
  update_resources-shortages snapshot s counted known = rw counted (
    λ incoming scope es. shortages-within decO _ (capacity_of snapshot) incoming scope es (λ key n.
        admissible-within key (capacity_of snapshot key) (total s.entries key) n _
          (idle-Known snapshot (total s.entries key) key (known key))),
    λ scope. shortages_eq decO _ (capacity_of snapshot) scope s.entries (λ key.
        admissible-allocated key (capacity_of snapshot key) (total s.entries key) _
          (idle-Known snapshot (total s.entries key) key (known key))),
  )
