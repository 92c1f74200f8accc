-- ===== src/Scheduler/Preemption/Victims.antt =====
-- src/scheduler.ts: what `preemptFor` selects, and where it stops.
use Prim.Native.Nat.{Ordering}
use pi_speculative_action.Scheduler.{Resources, Work}
use pi_speculative_action.Scheduler.Ledger.{
  Scheduler, Entry, Scope, Shortage, shortages, is_actor, is_nil,
}
use pi_speculative_action.Scheduler.Preemption.{
  is_physical, undrained, preempt_for, last_first, filter, eligible, without, first, candidates,
  select,
}
use pi_speculative_action.Prelude.{
  if◌then◌else◌, ◌&&◌, not, ap, length-append, All-append, ◌∙◌, some-injective, sym,
  empty_of_length, All-pair, Option-cases, subst, has-cons, ◌<◌, refl, has-cons_self, Bool-cases, ℕ,
  zero, suc, ◌+◌, ◌≡◌, ◌⊎◌, inl, inr, Bool, true, false, Option, none, some, List, [], ◌∷◌, ◌++◌,
  length, values, All, All-imp, has, arith, keys,
}

-- What is used of the engine's `sort`: it keeps the elements and their number.
pub record IsSort {ℓ} {A : Type ℓ} (sort : (A → A → Ordering) → List A → List A)
    : Type (1 ⊔ ℓ) where
  pub keeps : (P : A → Type 0) (f : A → A → Ordering) (xs : List A) → All P xs → All P (sort f xs)
  pub counts : (f : A → A → Ordering) (xs : List A) → length (sort f xs) ≡ length xs

filter-All {ℓ} :
    {A : Type ℓ} (P : A → Type 0) (p : A → Bool) (xs : List A)
    → All P xs
    → All (λ x. P x × (p x ≡ true)) (filter p xs)
unfolding filter
filter-All P p [] h = tt
filter-All P p (x ∷ xs) h = elim (Bool-cases (p x)) [
  | inl e ↦ rw e ((h.0, e), filter-All P p xs h.1)
  | inr e ↦ rw e (filter-All P p xs h.1)
]

first-All {ℓ} :
    {A : Type ℓ} (P : A → Type 0) (xs : List A) {x : A} → All P xs → first xs ≡ some x → P x
unfolding first
first-All P [] h e = cc
first-All P (y ∷ xs) h e = subst P (some-injective y _ e) h.0

first-empty {ℓ} : {A : Type ℓ} (xs : List A) → first xs ≡ none → length xs ≡ 0
unfolding first
first-empty [] e = refl
first-empty (x ∷ xs) e = cc

is_nil-eq {ℓ} : {A : Type ℓ} (xs : List A) → is_nil xs ≡ true → xs ≡ []
unfolding is_nil
is_nil-eq [] h = refl
is_nil-eq (x ∷ xs) h = cc

module _ {ℓ ω} {J : Type ℓ} {O : Type ω} where
  -- Each entry stands under its job.
  abbrev pub Keyed : List (J × Entry J O) → Type ℓ
  Keyed = All (λ p. p.1.job ≡ p.0)

  values-All :
      (P : Entry J O → Type 0) (es : List (J × Entry J O)) → All (λ p. P p.1) es → All P (values es)
  values-All P [] h = tt
  values-All P (p ∷ es) h = (h.0, values-All P es h.1)

module _ {ℓ ω} {J : Type ℓ} {O : Type ω} (decJ : Discrete J) (decO : Discrete O) where
  has-keys :
      (es : List (J × Entry J O)) → Keyed es → All (λ p. has decJ p.1.job (keys es) ≡ true) es
  unfolding has
  has-keys [] h = tt
  has-keys (p ∷ es) h = (
    subst (λ j. has decJ j (p.0 ∷ keys es) ≡ true) (sym h.0) (has-cons_self decJ p.0 (keys es)),
    All-imp _ _ (λ q k. has-cons decJ q.1.job p.0 (keys es) k) es (has-keys es h.1),
  )

  length-without :
      (job : J) (es : List (J × Entry J O))
      → has decJ job (keys es) ≡ true
      → suc (length (without decJ decO job es)) ≡ length es
  unfolding without has
  length-without job [] h = cc
  length-without job ((j, e) ∷ es) h = ground (arith, length-without job es)

  without-All {κ} :
      (P : J × Entry J O → Type κ) (job : J) (es : List (J × Entry J O))
      → All P es
      → All P (without decJ decO job es)
  unfolding without
  without-All P job [] h = tt
  without-All P job ((j, e) ∷ es) h =
      elim (decJ j job)
        as (λ d. All P (elim d [ yes _ ↦ es | no _ ↦ (j, e) ∷ without decJ decO job es ])) [
          | yes p ↦ h.1
          | no p ↦ (h.0, without-All P job es h.1)
        ]

  -- The entries that are left when the victims are taken out.
  unfoldable pub spared : List J → List (J × Entry J O) → List (J × Entry J O)
  spared [] es = es
  spared (v ∷ vs) es = spared vs (without decJ decO v es)

  spared_snoc :
      (vs : List J) (v : J) (es : List (J × Entry J O))
      → spared (vs ++ (v ∷ [])) es ≡ without decJ decO v (spared vs es)
  unfolding spared
  spared_snoc [] v es = refl
  spared_snoc (w ∷ vs) v es = spared_snoc vs v (without decJ decO w es)

module _ {ℓ ω} {J : Type ℓ} {O : Type ω} (decJ : Discrete J) (decO : Discrete O)
    (P : Entry J O → Type 0) (capacity limits : Resources) (scope : Scope O)
    (incoming : Option Work) (can_preempt : J → Bool) where
  -- A job that may be a victim.
  abbrev pub Victim : J → Type (ℓ ⊔ ω)
  Victim v =
      (e : Entry J O) × (e.job ≡ v)
      × (P e)
      × (is_actor e.role ≡ false)
      × (e.work.actor_demand ≡ false)
      × (can_preempt v ≡ true)

  -- A selection from some entries: each victim is a job of one of them, taken once, and it ends where
  -- nothing is missing or no entry can be taken.
  pub record Selected (es : List (J × Entry J O)) (victims : List J) : Type (ℓ ⊔ ω) where
    pub allowed : All Victim victims
    pub once : length victims + length (spared decJ decO victims es) ≡ length es
    pub ended :
        (shortages decO limits incoming scope (spared decJ decO victims es) ≡ [])
        ⊎ (filter
              (eligible decJ decO capacity scope incoming can_preempt
                (shortages decO limits incoming scope (spared decJ decO victims es)))
              (values (spared decJ decO victims es))
            ≡ [])

module _ {ℓ ω} {J : Type ℓ} {O : Type ω} (decJ : Discrete J) (decO : Discrete O)
    (sort : (Entry J O → Entry J O → Ordering) → List (Entry J O) → List (Entry J O))
    (sorts : IsSort sort) (P : Entry J O → Type 0) (capacity limits : Resources) (scope : Scope O)
    (incoming : Option Work) (can_preempt : J → Bool) where
  eligible_lem :
      (missing : List Shortage) (e : Entry J O)
      → eligible decJ decO capacity scope incoming can_preempt missing e ≡ true
      → (is_actor e.role ≡ false) × (e.work.actor_demand ≡ false) × (can_preempt e.job ≡ true)
  unfolding eligible
  eligible_lem missing e h = ground arith

  -- The first of the candidates.
  first_lem :
      (missing : List Shortage) (es : List (J × Entry J O)) (e : Entry J O)
      → Keyed es
      → All (λ p. P p.1) es
      → first (candidates decJ decO sort capacity scope incoming can_preempt missing es) ≡ some e
      → Victim decJ decO P capacity limits scope incoming can_preempt e.job
        × (suc (length (without decJ decO e.job es)) ≡ length es)
  unfolding candidates
  first_lem missing es e k h f =
      let Q : Entry J O → Type 0 = λ x. P x × (has decJ x.job (keys es) ≡ true) in
      let test = eligible decJ decO capacity scope incoming can_preempt missing in
      let a = values-All Q es (All-pair _ _ es h (has-keys decJ decO es k)) in
      let c =
        sorts.keeps (λ x. Q x × (test x ≡ true)) (last_first decJ decO capacity)
          (filter test (values es)) (filter-All Q test (values es) a) in
      let r =
        first-All (λ x. Q x × (test x ≡ true))
          (sort (last_first decJ decO capacity) (filter test (values es))) c f in
      let q = eligible_lem missing e r.1 in
      ((e, refl, r.0.0, q.0, q.1, q.2), length-without decJ decO e.job es r.0.1)

  first-none :
      (missing : List Shortage) (es : List (J × Entry J O))
      → first (candidates decJ decO sort capacity scope incoming can_preempt missing es) ≡ none
      → filter (eligible decJ decO capacity scope incoming can_preempt missing) (values es) ≡ []
  unfolding candidates
  first-none missing es f =
      let xs =
        filter (eligible decJ decO capacity scope incoming can_preempt missing) (values es) in
      empty_of_length xs (
        sym (sorts.counts (last_first decJ decO capacity) xs)
        ∙ first-empty (sort (last_first decJ decO capacity) xs) f)

  select-Selected :
      (fuel : ℕ) (all : List (J × Entry J O)) (taken : List J)
      → Keyed (spared decJ decO taken all)
      → All (λ p. P p.1) (spared decJ decO taken all)
      → All (Victim decJ decO P capacity limits scope incoming can_preempt) taken
      → length taken + length (spared decJ decO taken all) ≡ length all
      → length (spared decJ decO taken all) < fuel
      → (victims : List J) × (select decJ decO sort fuel capacity limits scope incoming can_preempt
            (spared decJ decO taken all)
            taken
          ≡ some victims)
        × Selected decJ decO P capacity limits scope incoming can_preempt all victims
  unfolding select
  select-Selected zero all taken k h v n l = absurd (omega arith)
  select-Selected (suc fuel) all taken k h v n l =
      let es = spared decJ decO taken all in
      let missing = shortages decO limits incoming scope es in
      elim (Bool-cases (is_nil missing)) [
        | inl e ↦ (
          taken,
          rw (select, e) refl,
          record { allowed = v; once = n; ended = inl (is_nil-eq missing e) },
        )
        | inr e ↦
            elim (Option-cases
              (first (candidates decJ decO sort capacity scope incoming can_preempt missing es))) [
                | inl f ↦ (
                  taken,
                  rw (select, e, f) refl,
                  record { allowed = v; once = n; ended = inr (first-none missing es f) },
                )
                | inr (x, f) ↦
                    let r = first_lem missing es x k h f in
                    let s = spared_snoc decJ decO taken x.job all in
                    let ih =
                      select-Selected fuel all (taken ++ (x.job ∷ []))
                        (subst Keyed (sym s)
                          (without-All decJ decO (λ p. p.1.job ≡ p.0) x.job es k))
                        (subst (All (λ p. P p.1)) (sym s)
                          (without-All decJ decO (λ p. P p.1) x.job es h))
                        (All-append (Victim decJ decO P capacity limits scope incoming can_preempt)
                          taken (x.job ∷ []) v (r.0, tt))
                        (omega (arith, length-append taken (x.job ∷ []), ap length s, r.1, n))
                        (omega (arith, ap length s, r.1, l)) in
                    (
                      ih.0,
                      rw (select, e, f)
                          (ap
                              (λ t.
                                select decJ decO sort fuel capacity limits scope incoming
                                  can_preempt t (taken ++ (x.job ∷ [])))
                              (sym s)
                            ∙ ih.1),
                      ih.2,
                    )
              ]
      ]

filter-keeps {ℓ κ} :
    {A : Type ℓ} (P : A → Type κ) (p : A → Bool) (xs : List A) → All P xs → All P (filter p xs)
unfolding filter
filter-keeps P p [] h = tt
filter-keeps P p (x ∷ xs) h = elim (Bool-cases (p x)) [
  | inl e ↦ rw e (h.0, filter-keeps P p xs h.1)
  | inr e ↦ rw e (filter-keeps P p xs h.1)
]

-- The limits that a preemption measures by.
unfoldable pub limits_of {ℓ ω κ} :
    {J : Type ℓ} {O : Type ω} {K : Type κ} → Option Work → Scheduler J O K → Resources
limits_of incoming s = if is_physical incoming then s.capacity else s.admission

module _ {ℓ ω κ} {J : Type ℓ} {O : Type ω} {K : Type κ} (decJ : Discrete J) (decO : Discrete O)
    (sort : (Entry J O → Entry J O → Ordering) → List (Entry J O) → List (Entry J O)) where
  -- `preemptFor` ends. It selects nothing for work that is no demand of an actor and is short by itself;
  -- else each victim is the job of an entry that does not drain, is no actor's and may be preempted,
  -- none is taken twice, and it ends where nothing is missing or no entry is eligible. What holds of
  -- every entry holds of those of the victims.
  pub preempt_for-Selected :
      IsSort sort
      → (P : Entry J O → Type 0) (scope : Scope O) (incoming : Option Work)
        (can_preempt draining : J → Bool) (s : Scheduler J O K)
      → Keyed s.entries
      → All (λ p. P p.1) s.entries
      → (victims : List J) × (preempt_for decJ decO sort scope incoming can_preempt draining s
          ≡ some victims)
        × (((victims ≡ [])
              × (is_physical incoming ≡ false)
              × (is_nil (shortages {J = J} decO (limits_of incoming s) incoming scope []) ≡ false))
            ⊎ (((is_physical incoming ≡ true)
                  ⊎ (is_nil (shortages {J = J} decO (limits_of incoming s) incoming scope [])
                      ≡ true))
                × Selected decJ decO
                    (λ e. P e × (not (draining e.job) ≡ true))
                    s.capacity
                    (limits_of incoming s)
                    scope
                    incoming
                    can_preempt
                    (undrained draining s.entries)
                    victims))
  unfolding preempt_for undrained limits_of spared
  preempt_for-Selected sorts P scope incoming can_preempt draining s k h =
      let all = undrained draining s.entries in
      let Q : Entry J O → Type 0 = λ e. P e × (not (draining e.job) ≡ true) in
      elim (Bool-cases (
        not (is_physical incoming)
        && not (is_nil (shortages {J = J} decO (limits_of incoming s) incoming scope [])))) [
          | inl e ↦ ([], rw (preempt_for, e) refl, inl (refl, ground arith, ground arith))
          | inr e ↦
              let r =
                select-Selected decJ decO sort sorts Q s.capacity (limits_of incoming s) scope
                  incoming can_preempt (suc (length all)) all []
                  (filter-keeps (λ p. p.1.job ≡ p.0) (λ p. not (draining p.1.job)) s.entries k)
                  (filter-All (λ p. P p.1) (λ p. not (draining p.1.job)) s.entries h) tt
                  (omega arith) (omega arith) in
              (r.0, rw (preempt_for, e) r.1, inr (ground arith, r.2))
        ]
