-- ===== src/Scheduler/Ledger/Admission.antt =====
-- src/scheduler.ts: the ledger after an admission and after a refresh.
use pi_speculative_action.Scheduler.{
  evaluate, Forecast, ready, Dimension, Resources, Work, amount, dimensions, cpu, memory, io, gpu,
  gpu_memory, network,
}
use pi_speculative_action.Scheduler.Ledger.{
  refreshed_work, refresh, budget_exhausted, failure_circuit, outside_launch_window, scope_limit,
  demanded_units, Entry, Scope, Role, Scheduler, Verdict, admitted, Shortage, shortages, short,
  total, scoped, exceeds, demanded, is_nil, admit, enter, is_actor, circuit,
}
use pi_speculative_action.Prelude.{
  Option-cases, if◌then◌else◌, subst, some-injective, ltb_false→le, sym, ltb, ◌∙◌, ap, refl, ℕ, ◌+◌,
  ◌≤◌, ◌≡◌, Bool, true, false, not, ◌||◌, Option, none, some, List, [], ◌∷◌, get, put, arith,
  Bool-cases, inl, inr,
}

-- A total that a capacity allows.
abbrev pub Fits : ℕ → Option ℕ → Type 0
Fits n none = Unit
Fits n (some c) = n ≤ c

exceeds-Fits : (key : Dimension) (n : ℕ) (c : Option ℕ) → exceeds key n c ≡ false → Fits n c
unfolding exceeds
exceeds-Fits key n none h = tt
exceeds-Fits key n (some c) h = ground arith

short-cons :
    (capacity : Resources) (totals : Dimension → ℕ) (key : Dimension) (keys : List Dimension)
    → is_nil (short capacity totals (key ∷ keys)) ≡ true
    → (Fits (totals key) (capacity key)) × (is_nil (short capacity totals keys) ≡ true)
unfolding short is_nil
short-cons capacity totals key keys h =
    elim (Bool-cases (exceeds key (totals key) (capacity key))) [
      | inl e ↦ absurd (ground arith)
      | inr e ↦ (exceeds-Fits key (totals key) (capacity key) e, ground arith)
    ]

scope-short : (rest : List Shortage) → is_nil (scope_limit ∷ rest) ≡ true → ⊥
unfolding is_nil
scope-short rest h = ground arith

-- No dimension is short.
short-dimensions :
    (capacity : Resources) (totals : Dimension → ℕ)
    → is_nil (short capacity totals dimensions) ≡ true
    → (key : Dimension) → Fits (totals key) (capacity key)
short-dimensions capacity totals h key =
    let c = short-cons capacity totals cpu (memory ∷ io ∷ gpu ∷ gpu_memory ∷ network ∷ []) h in
    let m = short-cons capacity totals memory (io ∷ gpu ∷ gpu_memory ∷ network ∷ []) c.1 in
    let i = short-cons capacity totals io (gpu ∷ gpu_memory ∷ network ∷ []) m.1 in
    let g = short-cons capacity totals gpu (gpu_memory ∷ network ∷ []) i.1 in
    let v = short-cons capacity totals gpu_memory (network ∷ []) g.1 in
    let n = short-cons capacity totals network [] v.1 in
    elim key as (λ k. Fits (totals k) (capacity k)) [
      | cpu ↦ c.0
      | memory ↦ m.0
      | io ↦ i.0
      | gpu ↦ g.0
      | gpu_memory ↦ v.0
      | network ↦ n.0
    ]

module _ {ℓ ω} {J : Type ℓ} {O : Type ω} (decJ : Discrete J) (decO : Discrete O) where
  total-put_new :
      (job : J) (e : Entry J O) (es : List (J × Entry J O)) (key : Dimension)
      → get decJ job es ≡ none
      → total (put decJ job e es) key ≡ amount (e.work.resources key) + total es key
  unfolding total put get
  total-put_new job e [] key h = refl
  total-put_new job e ((j, d) ∷ es) key h = ground (arith, total-put_new job e es key)

  scoped-put_new :
      (owner : O) (job : J) (e : Entry J O) (es : List (J × Entry J O))
      → get decJ job es ≡ none
      → scoped decO owner (put decJ job e es)
        ≡ (elim (decO e.scope.owner owner) [ yes _ ↦ e.work.resource_units | no _ ↦ 0 ])
          + scoped decO owner es
  unfolding scoped put get
  scoped-put_new owner job e [] h = refl
  scoped-put_new owner job e ((j, d) ∷ es) h = ground (arith, scoped-put_new owner job e es)

  -- Another entry of the same resources under the same job.
  total-put_same :
      (job : J) (d e : Entry J O) (es : List (J × Entry J O)) (key : Dimension)
      → get decJ job es ≡ some d
      → e.work.resources key ≡ d.work.resources key
      → total (put decJ job e es) key ≡ total es key
  unfolding total put get
  total-put_same job d e [] key h p = cc
  total-put_same job d e ((j, x) ∷ es) key h p =
      ground (arith, total-put_same job d e es key, same_amount d e x key p)
    where
      same_amount :
          (d e x : Entry J O) (key : Dimension)
          → e.work.resources key ≡ d.work.resources key
          → Path (Option (Entry J O)) (some x) (some d)
          → amount (e.work.resources key) ≡ amount (x.work.resources key)
      same_amount d e x key p q =
          ap amount (p ∙ ap (λ t. t.work.resources key) (sym (some-injective x d q)))

  -- An admission that measures: the shortages are none.
  shortages-Fits :
      (capacity : Resources) (work : Work) (scope : Scope O) (es : List (J × Entry J O))
      → is_nil (shortages decO capacity (some work) scope es) ≡ true
      → ((key : Dimension) → Fits (amount (work.resources key) + total es key) (capacity key))
        × (work.resource_units + scoped decO scope.owner es ≤ scope.limit)
  unfolding shortages demanded demanded_units
  shortages-Fits capacity work scope es h =
      elim (Bool-cases (ltb scope.limit (work.resource_units + scoped decO scope.owner es))) [
        | inl e ↦ absurd (
            scope-short
              (short capacity (λ key. amount (work.resources key) + total es key) dimensions)
              (simp (e) at h))
        | inr e ↦ (
          short-dimensions capacity (λ key. amount (work.resources key) + total es key)
              (simp (e) at h),
          ltb_false→le _ _ e,
        )
      ]

-- The branches of an admission, by their tests.
branches {ℓ} : {A : Type ℓ} → Bool → Bool → Bool → Bool → A → A → A → A → A × Verdict
branches privileged ready_now passed room entered same after entered_after =
    if privileged
    then (entered, admitted)
    else if not ready_now
    then (same, outside_launch_window)
    else if not passed
    then (after, failure_circuit)
    else if not room
    then (after, budget_exhausted)
    else (entered_after, admitted)

branches-admitted {ℓ} :
    {A : Type ℓ} (b c d : Bool) (entered same after entered_after : A)
    → (branches false b c d entered same after entered_after).1 ≡ admitted
    → (d ≡ true) × ((branches false b c d entered same after entered_after).0 ≡ entered_after)
unfolding branches
branches-admitted true true true e s a x h = (refl, refl)
branches-admitted true true false e s a x h = (cc, cc)
branches-admitted true false d e s a x h = (cc, cc)
branches-admitted false c d e s a x h = (cc, cc)

own_units {ω} :
    {O : Type ω} (decO : Discrete O) (o : O) (n m l : ℕ)
    → n + m ≤ l
    → (elim (decO o o) [ yes _ ↦ n | no _ ↦ 0 ]) + m ≤ l
own_units decO o n m l h = ground arith

module _ {ℓ ω κ} {J : Type ℓ} {O : Type ω} {K : Type κ} (decJ : Discrete J) (decO : Discrete O)
    (decK : Discrete K) where
  admit-branches :
      (job : J) (scope : Scope O) (role : Role) (work : Work) (identity : Option K)
      (s : Scheduler J O K)
      → (is_actor role || work.actor_demand) ≡ false
      → admit decJ decO decK job scope role work identity s ≡ (
          let f = circuit decO decK identity scope s.decision_sequence s.failures in
          let s' : Scheduler J O K = record s { failures = f.0 } in
          branches false
            (ready work)
            f.1
            (is_nil (shortages decO s.admission (some work) scope s.entries))
            (enter decJ decO decK job scope role work s)
            s
            s'
            (enter decJ decO decK job scope role work s'))
  unfolding admit branches
  admit-branches job scope role work identity s h = rw (admit, h) refl

  enter-Fits :
      (job : J) (scope : Scope O) (role : Role) (work : Work) (s : Scheduler J O K)
      → get decJ job s.entries ≡ none
      → ((key : Dimension)
          → Fits (amount (work.resources key) + total s.entries key) (s.admission key))
      → work.resource_units + scoped decO scope.owner s.entries ≤ scope.limit
      → ((key : Dimension)
          → Fits (total (enter decJ decO decK job scope role work s).entries key) (s.admission key))
        × (scoped decO scope.owner (enter decJ decO decK job scope role work s).entries
            ≤ scope.limit)
  unfolding enter
  enter-Fits job scope role work s n f l =
      let e : Entry J O = record {
        job = job;
        scope = scope;
        role = role;
        sequence = s.sequence;
        work = work;
      } in
      (
        λ key. rw (total-put_new decJ decO job e s.entries key n) (f key),
        rw (scoped-put_new decJ decO scope.owner job e s.entries n) (
            own_units decO scope.owner work.resource_units (scoped decO scope.owner s.entries)
              scope.limit l),
      )

  -- Work that is neither an actor's nor demanded by one, if it is admitted under a new job, leaves the
  -- ledger within the admission of every dimension and within the limit of its scope.
  pub admit-Fits :
      (job : J) (scope : Scope O) (role : Role) (work : Work) (identity : Option K)
      (s : Scheduler J O K)
      → get decJ job s.entries ≡ none
      → is_actor role ≡ false
      → work.actor_demand ≡ false
      → (admit decJ decO decK job scope role work identity s).1 ≡ admitted
      → ((key : Dimension)
          → Fits
              (total (admit decJ decO decK job scope role work identity s).0.entries key)
              (s.admission key))
        × (scoped decO scope.owner (admit decJ decO decK job scope role work identity s).0.entries
            ≤ scope.limit)
  admit-Fits job scope role work identity s n r d h =
      let f = circuit decO decK identity scope s.decision_sequence s.failures in
      let s' : Scheduler J O K = record s { failures = f.0 } in
      let room = is_nil (shortages decO s.admission (some work) scope s.entries) in
      let e = admit-branches job scope role work identity s (ground arith) in
      let b =
        branches-admitted (ready work) f.1 room (enter decJ decO decK job scope role work s) s s'
          (enter decJ decO decK job scope role work s') (ap (λ x. x.1) (sym e) ∙ h) in
      let g = shortages-Fits decJ decO s.admission work scope s.entries b.0 in
      subst
        (λ x.
          ((key : Dimension) → Fits (total x.entries key) (s.admission key))
          × (scoped decO scope.owner x.entries ≤ scope.limit))
        (sym (ap (λ x. x.0) e ∙ b.1)) (enter-Fits job scope role work s' n g.0 g.1)

  -- A refresh changes no total: the work keeps what it holds.
  pub total-refresh :
      (job : J) (fs : List Forecast) (s : Scheduler J O K) (key : Dimension)
      → total (refresh decJ decO decK job fs s).0.entries key ≡ total s.entries key
  unfolding refresh refreshed_work
  total-refresh job fs s key = elim (Option-cases (get decJ job s.entries)) [
    | inl e ↦ rw (refresh, e) refl
    | inr (d, e) ↦
        rw (refresh, e)
          (total-put_same decJ decO job d
            (record d { work = refreshed_work decJ decO decK (evaluate fs) d.work }) s.entries key e
            refl)
  ]
