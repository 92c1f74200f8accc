-- ===== src/Plan/Operations/Reservations.antt =====
-- src/plan-runtime.ts: the revisions that `reserveRevision` gives out.
use pi_speculative_action.Prelude.{
  ◌⊎◌, ℕ, ◌+◌, ◌≤◌, max, Option, some, String, String_discrete, List, [], ◌∷◌, get, get-put_self,
  none, All, subst, ◌≡◌, refl, arith, inl, inr,
}
use pi_speculative_action.Numbers.{increment, max_safe_integer}
use pi_speculative_action.Plan.State.{Plan, Runtime}
use pi_speculative_action.Plan.Operations.{reserve_revision, reserve_in}

-- A revision that is a safe integer.
abbrev pub IsSafe : Option ℕ → Type 0
IsSafe none = Unit
IsSafe (some r) = r ≤ max_safe_integer

-- The addition is exact where its result is safe.
increment-safe : (n : ℕ) → increment n ≤ max_safe_integer → increment n ≡ n + 1
unfolding increment
increment-safe n h = ground arith

increment-of_safe : (n : ℕ) → n ≤ max_safe_integer → increment n ≡ n + 1
unfolding increment
increment-of_safe n h = ground arith

-- Every minimum is reached by a revision that is behind a bound and behind those before.
abbrev pub Ascending : ℕ → List ℕ → List (Option ℕ) → Type 0
Ascending bound [] [] = Unit
Ascending bound (m ∷ ms) (some r ∷ rs) = (bound ≤ r) × (m ≤ r) × Ascending (r + 1) ms rs
Ascending bound _ _ = ⊥

behind_bound :
    (bound next revision r : ℕ)
    → (bound ≤ next) ⊎ (bound ≤ revision + 1)
    → next ≤ r
    → increment revision ≤ r
    → r ≤ max_safe_integer
    → bound ≤ r
behind_bound bound next revision r (inl h) n k s = omega arith
behind_bound bound next revision r (inr h) n k s =
    omega (arith, increment-safe revision (omega arith))

module _ {I : Type 0} where
  -- The revisions that are reserved one after another for a plan, for a list of minimums.
  unfoldable pub reservations : String → List ℕ → Runtime I → List (Option ℕ)
  reservations p [] rt = []
  reservations p (m ∷ ms) rt = let (rt', r) = reserve_revision p m rt in r ∷ reservations p ms rt'

  reserve_some :
      (p : String) (m : ℕ) (rt : Runtime I) (plan : Plan I)
      → get String_discrete p rt.plans ≡ some plan
      → (r : ℕ) × ((reserve_revision p m rt).1 ≡ some r)
        × (m ≤ r)
        × (plan.next_revision ≤ r)
        × (increment plan.revision ≤ r)
        × (get String_discrete p (reserve_revision p m rt).0.plans
            ≡ some (record plan { next_revision = increment r }))
  unfolding reserve_revision reserve_in
  reserve_some p m rt plan e =
      let r = max (max plan.next_revision (increment plan.revision)) m in
      (
        r,
        rw (reserve_revision, e, reserve_in) refl,
        omega arith,
        omega arith,
        omega arith,
        rw (reserve_revision, e, reserve_in)
            (get-put_self String_discrete p (record plan { next_revision = increment r }) rt.plans),
      )

  reservations_from :
      (p : String) (ms : List ℕ) (rt : Runtime I) (plan : Plan I) (bound : ℕ)
      → get String_discrete p rt.plans ≡ some plan
      → (bound ≤ plan.next_revision) ⊎ (bound ≤ plan.revision + 1)
      → All IsSafe (reservations p ms rt)
      → Ascending bound ms (reservations p ms rt)
  unfolding reservations
  reservations_from p [] rt plan bound e h safe = tt
  reservations_from p (m ∷ ms) rt plan bound e h safe =
      let (r, given, least, fresh, behind, kept) = reserve_some p m rt plan e in
      let s : IsSafe (some r) = subst IsSafe given safe.0 in
      let x = increment-of_safe r s in
      rw given (
        behind_bound bound plan.next_revision plan.revision r h fresh behind s,
        least,
        reservations_from p ms (reserve_revision p m rt).0
            (record plan { next_revision = increment r }) (r + 1) kept (inl (omega arith)) safe.1,
      )

  -- As long as the revisions that are reserved one after another for a plan that is there, for minimums
  -- that are counts, are safe integers, they are all behind its revision, reach the minimum that each
  -- was asked for, and no two of them are the same: each is behind those before.
  pub reservations-Ascending :
      (p : String) (ms : List ℕ) (rt : Runtime I) (plan : Plan I)
      → get String_discrete p rt.plans ≡ some plan
      → All IsSafe (reservations p ms rt)
      → Ascending (plan.revision + 1) ms (reservations p ms rt)
  reservations-Ascending p ms rt plan e safe =
      reservations_from p ms rt plan (plan.revision + 1) e (inr (omega arith)) safe
