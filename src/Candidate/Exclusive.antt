-- ===== src/Candidate/Exclusive.antt =====
-- src/candidate-execution.ts: the leases of an exclusive candidate.
use pi_speculative_action.Prelude.{
  ℕ, zero, suc, ◌+◌, ◌≤◌, Bool, true, false, String, List, [], ◌∷◌, ◌++◌, ◌≡◌, refl, subst, ◌∙◌,
  ◌⊎◌, inl, inr, arith, Bool-cases, All, All-append, if◌then◌else◌,
}
use pi_speculative_action.Candidate.{
  Candidate, ExecutionState, Lease, lease, exclusive_lease, LeaseState, active, spent, Reservation,
  shared, available, reserved, consumed, settle, acquire, take, finish, create, vacate, acquirable,
  has_succeeded, is_active,
}
use pi_speculative_action.Candidate.Board.{
  Board, Call, starts, succeeds, fails, cancels, acquires, releases, adopts, perform, run,
  settle_at, settle_on, with_lease, initial,
}

abbrev pub is_spent : LeaseState → Bool
is_spent spent = true
is_spent _ = false

abbrev count_if : Bool → ℕ
count_if true = 1
count_if false = 0

unfoldable pub actives : List Lease → ℕ
unfolding is_active
actives [] = 0
actives (l ∷ ls) = count_if (is_active l.state) + actives ls

unfoldable pub spents : List Lease → ℕ
spents [] = 0
spents (l ∷ ls) = count_if (is_spent l.state) + spents ls

abbrev pub IsExclusive : List Lease → Type 0
IsExclusive = All (λ l. l.kind ≡ exclusive_lease)

abbrev not_shared : Reservation → Bool
not_shared (shared owners) = false
not_shared _ = true

actives-snoc :
    (l : Lease) (ls : List Lease) → l.state ≡ active → actives (ls ++ (l ∷ [])) ≡ suc (actives ls)
unfolding actives
actives-snoc l [] e = ground arith
actives-snoc l (m ∷ ls) e = omega (arith, actives-snoc l ls e)

spents-snoc : (l : Lease) (ls : List Lease) → l.state ≡ active → spents (ls ++ (l ∷ [])) ≡ spents ls
unfolding spents
spents-snoc l [] e = ground arith
spents-snoc l (m ∷ ls) e = omega (arith, spents-snoc l ls e)

module _ {O : Type 0} where
  -- What the reservation says of the leases that are held and that were adopted.
  unfoldable pub Holds : Reservation → ExecutionState O → List Lease → Type 0
  unfolding has_succeeded
  Holds (shared owners) state ls = ⊥
  Holds available state ls = (actives ls ≡ 0) × (spents ls ≡ 0)
  Holds (reserved owner) state ls = (actives ls ≡ 1) × (spents ls ≡ 0)
  Holds consumed state ls = (actives ls ≡ 0) × (spents ls ≡ 1) × (has_succeeded state ≡ true)

  pub record IsHeld (b : Board O) : Type 0 where
    pub kinds : IsExclusive b.leases
    pub holds : Holds b.candidate.reservation b.candidate.execution b.leases

  -- A call of a lease does nothing, or ends one lease that was held.
  Settles : Bool → List Lease × Candidate O → List Lease → Candidate O → Type 0
  unfolding has_succeeded
  Settles adopt r ls c =
      ((r.0 ≡ ls) × (r.1 ≡ c))
      ⊎ ((actives ls ≡ suc (actives r.0))
          × (spents r.0 ≡ spents ls + count_if adopt)
          × (r.1.execution ≡ c.execution)
          × ((adopt ≡ false) ⊎ (has_succeeded c.execution ≡ true))
          × (r.1.reservation ≡ (if adopt then consumed else available)))

  settle-Settles :
      (adopt : Bool) (l : Lease) (ls : List Lease) (c : Candidate O)
      → l.kind ≡ exclusive_lease
      → not_shared c.reservation ≡ true
      → Settles adopt ((settle adopt l c).0 ∷ ls, (settle adopt l c).1) (l ∷ ls) c
  unfolding Settles settle actives spents vacate
  settle-Settles true l ls c e n = ground arith
  settle-Settles false l ls c e n = ground arith

  settle_at-Settles :
      (adopt : Bool) (i : ℕ) (ls : List Lease) (c : Candidate O)
      → IsExclusive ls
      → not_shared c.reservation ≡ true
      → Settles adopt (settle_at adopt i ls c) ls c
  unfolding Settles settle_at actives spents
  settle_at-Settles adopt i [] c k n = inl (refl, refl)
  settle_at-Settles adopt zero (l ∷ ls) c k n = settle-Settles adopt l ls c k.0 n
  settle_at-Settles adopt (suc i) (l ∷ ls) c k n =
      ground (arith, settle_at-Settles adopt i ls c k.1 n)

  settle_at-IsExclusive :
      (adopt : Bool) (i : ℕ) (ls : List Lease) (c : Candidate O)
      → IsExclusive ls
      → IsExclusive (settle_at adopt i ls c).0
  unfolding settle_at settle
  settle_at-IsExclusive adopt i [] c k = tt
  settle_at-IsExclusive adopt zero (l ∷ ls) c k = (ground (arith, k.0), k.1)
  settle_at-IsExclusive adopt (suc i) (l ∷ ls) c k = (k.0, settle_at-IsExclusive adopt i ls c k.1)

  Holds-settled :
      (adopt : Bool) (r : Reservation) (state : ExecutionState O) (ls ls' : List Lease)
      → Holds r state ls
      → actives ls ≡ suc (actives ls')
      → spents ls' ≡ spents ls + count_if adopt
      → (adopt ≡ false) ⊎ (has_succeeded state ≡ true)
      → Holds (if adopt then consumed else available) state ls'
  unfolding Holds
  Holds-settled adopt (shared owners) state ls ls' h a s k = absurd h
  Holds-settled true available state ls ls' h a s k = ground arith
  Holds-settled true (reserved owner) state ls ls' h a s k = ground arith
  Holds-settled true consumed state ls ls' h a s k = ground arith
  Holds-settled false available state ls ls' h a s k = ground arith
  Holds-settled false (reserved owner) state ls ls' h a s k = ground arith
  Holds-settled false consumed state ls ls' h a s k = ground arith

  Holds-not_shared :
      (r : Reservation) (state : ExecutionState O) (ls : List Lease)
      → Holds r state ls
      → not_shared r ≡ true
  unfolding Holds
  Holds-not_shared (shared owners) state ls h = absurd h
  Holds-not_shared _ state ls h = refl

  settle_on-IsHeld : (adopt : Bool) (i : ℕ) (b : Board O) → IsHeld b → IsHeld (settle_on adopt i b)
  unfolding settle_on Settles
  settle_on-IsHeld adopt i b v = record {
    kinds = settle_at-IsExclusive adopt i b.leases b.candidate v.kinds;
    holds =
        elim (settle_at-Settles adopt i b.leases b.candidate v.kinds
          (Holds-not_shared _ b.candidate.execution b.leases v.holds)) [
            | inl same ↦ rw (same.0, same.1) v.holds
            | inr s ↦
                rw (s.4, s.2)
                  (Holds-settled adopt b.candidate.reservation b.candidate.execution b.leases _
                    v.holds s.0 s.1 s.3)
          ];
  }

  take-IsHeld :
      (r : Reservation) (owner : String) (b : Board O)
      → b.candidate.reservation ≡ r
      → IsHeld b
      → IsHeld (with_lease (take r owner b.candidate) b)
  unfolding with_lease take Holds lease
  take-IsHeld (shared owners) owner b e v =
      absurd (subst (λ r. Holds r b.candidate.execution b.leases) e v.holds)
  take-IsHeld available owner b e v =
      let h : Holds available b.candidate.execution b.leases =
        subst (λ r. Holds r b.candidate.execution b.leases) e v.holds in
      record {
        kinds = All-append _ b.leases _ v.kinds (refl, tt);
        holds = (
          omega (arith, actives-snoc (lease owner exclusive_lease) b.leases refl, h.0),
          spents-snoc (lease owner exclusive_lease) b.leases refl ∙ h.1,
        );
      }
  take-IsHeld (reserved other) owner b e v = v
  take-IsHeld consumed owner b e v = v

  acquire-IsHeld :
      (owner : String) (b : Board O) → IsHeld b → IsHeld (with_lease (acquire owner b.candidate) b)
  unfolding acquire with_lease
  acquire-IsHeld owner b v = elim (Bool-cases (acquirable b.candidate.execution)) [
    | inl e ↦ rw (e, acquire) (take-IsHeld b.candidate.reservation owner b refl v)
    | inr e ↦ rw (e, acquire) v
  ]

  Holds-later :
      (r : Reservation) (state state' : ExecutionState O) (ls : List Lease)
      → (has_succeeded state ≡ true → state' ≡ state)
      → Holds r state ls
      → Holds r state' ls
  unfolding Holds
  Holds-later (shared owners) state state' ls keep h = h
  Holds-later available state state' ls keep h = h
  Holds-later (reserved owner) state state' ls keep h = h
  Holds-later consumed state state' ls keep h = (h.0, h.1, rw (keep h.2) h.2)

  execution-IsHeld :
      (b : Board O) (d : Candidate O)
      → d.reservation ≡ b.candidate.reservation
      → (has_succeeded b.candidate.execution ≡ true → d.execution ≡ b.candidate.execution)
      → IsHeld b
      → IsHeld (record b { candidate = d })
  execution-IsHeld b d e keep v = record {
    kinds = v.kinds;
    holds = rw e (Holds-later _ b.candidate.execution d.execution b.leases keep v.holds);
  }

  perform-IsHeld : (call : Call O) (b : Board O) → IsHeld b → IsHeld (perform call b)
  unfolding perform finish has_succeeded
  perform-IsHeld (starts at) b v = execution-IsHeld b _ (ground arith) (λ h. ground arith) v
  perform-IsHeld (succeeds output interval ms) b v =
      execution-IsHeld b _ (ground arith) (λ h. ground arith) v
  perform-IsHeld (fails cause ms) b v = execution-IsHeld b _ (ground arith) (λ h. ground arith) v
  perform-IsHeld (cancels cause ms) b v = execution-IsHeld b _ (ground arith) (λ h. ground arith) v
  perform-IsHeld (acquires owner) b v = acquire-IsHeld owner b v
  perform-IsHeld (releases i) b v = settle_on-IsHeld false i b v
  perform-IsHeld (adopts i) b v = settle_on-IsHeld true i b v

  run-IsHeld : (calls : List (Call O)) (b : Board O) → IsHeld b → IsHeld (run calls b)
  unfolding run
  run-IsHeld [] b v = v
  run-IsHeld (call ∷ calls) b v = run-IsHeld calls (perform call b) (perform-IsHeld call b v)

  at_most_one :
      (r : Reservation) (state : ExecutionState O) (ls : List Lease)
      → Holds r state ls
      → (actives ls + spents ls ≤ 1) × (spents ls ≡ 1 → has_succeeded state ≡ true)
  unfolding Holds
  at_most_one (shared owners) state ls h = absurd h
  at_most_one available state ls h = (omega arith, λ e. absurd (omega arith))
  at_most_one (reserved owner) state ls h = (omega arith, λ e. absurd (omega arith))
  at_most_one consumed state ls h = (omega arith, λ e. h.2)

  -- Whatever calls are made of an exclusive candidate and of the leases that it gives out, at most
  -- one of these is held or was adopted, and one was adopted only if the execution has succeeded.
  pub run-exclusive_at_most_one :
      (calls : List (Call O))
      → let b = run calls (initial exclusive_lease) in
        (actives b.leases + spents b.leases ≤ 1)
        × (spents b.leases ≡ 1 → has_succeeded b.candidate.execution ≡ true)
  unfolding initial create Holds actives spents
  run-exclusive_at_most_one calls =
      let b = run calls (initial exclusive_lease) in
      at_most_one b.candidate.reservation b.candidate.execution b.leases
        (run-IsHeld calls (initial exclusive_lease)
          (record { kinds = tt; holds = (refl, refl) })).holds
