-- ===== src/Scheduler/Preemption.antt =====
-- src/scheduler.ts: `preemptFor`. The order of `sort`, which is the engine's, is a parameter: a list of
-- the same entries. Whether a job may be preempted and whether it drains are parameters too.
pub mod Victims
use Prim.Native.Nat.{compare, Ordering}
use pi_speculative_action.Prelude.{
  zero, length, ◌++◌, suc, values, ℕ, Bool, true, false, ◌&&◌, ◌||◌, not, Option, none, some, List,
  [], ◌∷◌, if◌then◌else◌, ltb,
}
use pi_speculative_action.Scheduler.{Resources, Work, amount, any}
use pi_speculative_action.Scheduler.Priority.{prefer, then_by}
use pi_speculative_action.Scheduler.Ledger.{
  shortages, is_nil, Scheduler, Entry, Scope, Shortage, scope_limit, short_of, is_actor,
}

unfoldable pub filter {ℓ} : {A : Type ℓ} → (A → Bool) → List A → List A
filter p [] = []
filter p (x ∷ xs) = let rest = filter p xs in if p x then x ∷ rest else rest

unfoldable pub first {ℓ} : {A : Type ℓ} → List A → Option A
first [] = none
first (x ∷ xs) = some x

is_lt : Ordering → Bool
is_lt Ordering.lt = true
is_lt _ = false

module _ {ℓ ω} {J : Type ℓ} {O : Type ω} (decJ : Discrete J) (decO : Discrete O) where
  -- Whether the entry holds some of what is missing.
  unfoldable pub relieves : Scope O → Entry J O → Shortage → Bool
  relieves scope e scope_limit = elim (decO e.scope.owner scope.owner) [
    | yes _ ↦ true
    | no _ ↦ false
  ]
  relieves scope e (short_of key) = ltb 0 (amount (e.work.resources key))

  -- Whether the incoming work goes before that of the entry.
  outranks : Resources → Option Work → Entry J O → Bool
  unfolding is_lt
  outranks capacity none e = true
  outranks capacity (some w) e = w.actor_demand || is_lt (prefer capacity w e.work)

  unfoldable pub eligible :
      Resources → Scope O → Option Work → (J → Bool) → List Shortage → Entry J O → Bool
  unfolding relieves outranks
  eligible capacity scope incoming can_preempt missing e =
      not (is_actor e.role)
      && not e.work.actor_demand
      && can_preempt e.job
      && any (relieves scope e) missing
      && outranks capacity incoming e

  -- The comparison of `sort`.
  unfoldable pub last_first : Resources → Entry J O → Entry J O → Ordering
  last_first capacity a b =
      then_by (prefer capacity b.work a.work)
        (then_by (compare a.work.elapsed b.work.elapsed) (compare b.sequence a.sequence))

  -- The entries without the first one of the job.
  unfoldable pub without : J → List (J × Entry J O) → List (J × Entry J O)
  without job [] = []
  without job ((j, e) ∷ es) = elim (decJ j job) [ yes _ ↦ es | no _ ↦ (j, e) ∷ without job es ]

module _ {ℓ ω} {J : Type ℓ} {O : Type ω} (decJ : Discrete J) (decO : Discrete O)
    (sort : (Entry J O → Entry J O → Ordering) → List (Entry J O) → List (Entry J O)) where
  unfoldable pub candidates :
      Resources
      → Scope O
      → Option Work
      → (J → Bool)
      → List Shortage
      → List (J × Entry J O)
      → List (Entry J O)
  unfolding eligible filter last_first
  candidates capacity scope incoming can_preempt missing es =
      sort (last_first decJ decO capacity)
        (filter (eligible decJ decO capacity scope incoming can_preempt missing) (values es))

  -- The loop, on fuel; `capacity` orders the works, and `limits` is what they are measured by.
  unfoldable pub select :
      ℕ
      → Resources
      → Resources
      → Scope O
      → Option Work
      → (J → Bool)
      → List (J × Entry J O)
      → List J
      → Option (List J)
  unfolding candidates without first
  select zero capacity limits scope incoming can_preempt es victims = none
  select (suc fuel) capacity limits scope incoming can_preempt es victims =
      let missing = shortages decO limits incoming scope es in
      elim (is_nil missing) [
        | true ↦ some victims
        | false ↦ elim (first (candidates capacity scope incoming can_preempt missing es)) [
          | none ↦ some victims
          | some e ↦
              select fuel capacity limits scope incoming can_preempt (without decJ decO e.job es)
                (victims ++ (e.job ∷ []))
        ]
      ]

unfoldable pub is_physical : Option Work → Bool
is_physical none = true
is_physical (some w) = w.actor_demand

-- The entries that do not drain.
unfoldable pub undrained {ℓ ω} :
    {J : Type ℓ} {O : Type ω} → (J → Bool) → List (J × Entry J O) → List (J × Entry J O)
unfolding filter
undrained draining es = filter (λ e. not (draining e.1.job)) es

module _ {ℓ ω κ} {J : Type ℓ} {O : Type ω} {K : Type κ} (decJ : Discrete J) (decO : Discrete O)
    (sort : (Entry J O → Entry J O → Ordering) → List (Entry J O) → List (Entry J O)) where
  -- `preemptFor`
  unfoldable pub preempt_for :
      Scope O → Option Work → (J → Bool) → (J → Bool) → Scheduler J O K → Option (List J)
  unfolding select is_physical undrained
  preempt_for scope incoming can_preempt draining s =
      let es = undrained draining s.entries in
      let limits = if is_physical incoming then s.capacity else s.admission in
      if not (is_physical incoming)
        && not (is_nil (shortages {J = J} decO limits incoming scope []))
      then some []
      else select decJ decO sort (suc (length es)) s.capacity limits scope incoming can_preempt es
          []
