-- ===== src/Store/Retention.antt =====
-- src/candidate-stores.ts: `getOrCreate`, and the retention of results: `recordActorHit`, `trim` and
-- `retireExcess`. The orders of the engine's sorts, with the scores, are parameters, and so are the
-- limits for hot results, which the source multiplies by a fraction. Callbacks do not call the
-- store, so that the evidence of a ranked record is still the same when its turn comes.
use pi_speculative_action.Prelude.{
  ℕ, suc, ◌+◌, ◌-◌, Bool, true, false, ◌&&◌, Option, none, some, ℕ_discrete, List, [], ◌∷◌, map,
  length, leb, ◌==◌, if◌then◌else◌, update, is_some,
}
use pi_speculative_action.Numbers.{Number, non_negative_finite as finite_value}
use pi_speculative_action.Settlement.{ActionKeyMatch, exact_match}
use pi_speculative_action.Semantics.{
  ActionKey, ActionKeyProjector, action_key_projection_partitions,
}
use pi_speculative_action.Store.{
  Entry, IndexedEntry, ResultCacheEvidence, Scope, record_of, add, remove, is_registered,
}
use pi_speculative_action.Store.Lookup.{lookup_records}

-- An order that depends on the records.
abbrev pub Rank : Type 0 → Type 0
Rank A = (ℕ → Option IndexedEntry) → List (ℕ × A) → List (ℕ × A)

-- The first match that is registered and may be reused.
unfoldable pub reusable :
    (Entry → ActionKeyMatch → Bool)
    → Scope
    → List (ℕ × ActionKeyMatch)
    → Option (Entry × ActionKeyMatch)
unfolding is_registered
reusable can_reuse s [] = none
reusable can_reuse s ((a, m) ∷ ms) =
    let rest = reusable can_reuse s ms in
    elim (s.records a) [
      | none ↦ rest
      | some r ↦ if is_registered s a r && can_reuse r.entry m then some (r.entry, m) else rest
    ]

-- The result of `getOrCreate`: an entry, its match, and whether it was inserted.
abbrev pub Created : Type 0
Created = Entry × ActionKeyMatch × Bool

unfoldable pub created : Entry → Option Entry → Created
created entry none = (entry, exact_match, true)
created entry (some existing) = (existing, exact_match, false)

unfoldable pub get_or_create :
    List ActionKeyProjector
    → Rank ActionKeyMatch
    → ActionKey
    → Entry
    → (Entry → ActionKeyMatch → Bool)
    → Scope
    → Scope × Created
unfolding lookup_records reusable created add
get_or_create projectors rank key entry can_reuse s =
    elim (reusable can_reuse s (rank s.records (lookup_records projectors (λ e. false) key s))) [
      | some (existing, m) ↦ (s, (existing, m, false))
      | none ↦
          let (s', existing) = add entry (action_key_projection_partitions key projectors) s in
          (s', created entry existing)
    ]

-- `ResultCacheLimits`, read by `finiteLimit`.
pub record Limits : Type 0 where
  pub max_entries : ℕ
  pub max_bytes : ℕ

is_hot : Option ResultCacheEvidence → Bool
is_hot none = false
is_hot (some evidence) = evidence.hot

-- The registered entries whose records pass a test.
unfoldable pub entries_with : (IndexedEntry → Bool) → Scope → List ℕ → List (ℕ × Entry)
entries_with test s [] = []
entries_with test s (a ∷ rest_of) =
    let rest = entries_with test s rest_of in
    elim (s.records a) [ none ↦ rest | some r ↦ if test r then (a, r.entry) ∷ rest else rest ]

-- `cached`, with the addresses.
unfoldable pub cached : Scope → List (ℕ × Entry)
unfolding entries_with
cached s = entries_with (λ r. is_some r.result) s (map (λ e. e.1) s.entries)

-- The cached entries that are hot.
unfoldable pub hot_entries : Scope → List (ℕ × Entry)
unfolding entries_with is_hot
hot_entries s = entries_with (λ r. is_hot r.result) s (map (λ e. e.1) s.entries)

unfoldable pub bytes_of : Entry → ℕ
bytes_of e = finite_value e.estimated_bytes

unfoldable pub total_bytes : List (ℕ × Entry) → ℕ
unfolding bytes_of
total_bytes [] = 0
total_bytes ((a, e) ∷ es) = bytes_of e + total_bytes es

-- `withinBudget`
unfoldable pub within_budget : Limits → ℕ → ℕ → Bool
within_budget limits count bytes = leb count limits.max_entries && leb bytes limits.max_bytes

unfoldable pub is_at : Scope → ℕ → Entry → Bool
unfolding record_of
is_at s a e = elim (record_of s e) [ none ↦ false | some (b, r) ↦ a == b ]

-- The loop over the ranked entries.
unfoldable pub retire_ranked :
    Limits
    → (Entry → Bool)
    → (ℕ → Entry → Scope → Scope)
    → List (ℕ × Entry)
    → ℕ
    → ℕ
    → Scope
    → Scope × List Entry
unfolding within_budget is_at bytes_of
retire_ranked limits can_retire retire [] count bytes s = (s, [])
retire_ranked limits can_retire retire ((a, e) ∷ es) count bytes s =
    elim (within_budget limits count bytes) [
      | true ↦ (s, [])
      | false ↦ elim (can_retire e && is_at s a e) [
        | false ↦ retire_ranked limits can_retire retire es count bytes s
        | true ↦
            let (s', retired) =
              retire_ranked limits can_retire retire es (count - 1) (bytes - bytes_of e)
                (retire a e s) in
            (s', e ∷ retired)
      ]
    ]

unfoldable pub allowed : (Entry → Bool) → List (ℕ × Entry) → List (ℕ × Entry)
allowed can_retire [] = []
allowed can_retire ((a, e) ∷ es) =
    let rest = allowed can_retire es in if can_retire e then (a, e) ∷ rest else rest

-- `retireExcess`, of entries that have results.
unfoldable pub retire_excess :
    Rank Entry
    → Limits
    → (Entry → Bool)
    → (ℕ → Entry → Scope → Scope)
    → List (ℕ × Entry)
    → Scope
    → Scope × List Entry
unfolding within_budget total_bytes retire_ranked allowed
retire_excess rank limits can_retire retire entries s =
    if within_budget limits (length entries) (total_bytes entries)
    then (s, [])
    else retire_ranked limits can_retire retire (rank s.records (allowed can_retire entries))
        (length entries) (total_bytes entries) s

unfoldable pub trim : Rank Entry → Limits → (Entry → Bool) → Scope → Scope × List Entry
unfolding retire_excess cached remove
trim rank limits can_evict s =
    retire_excess rank limits can_evict (λ a e t. (remove e t).0) (cached s) s

-- A write to the evidence of a record.
unfoldable pub set_evidence : ℕ → ResultCacheEvidence → IndexedEntry → Scope → Scope
set_evidence a evidence r s = record s {
  records = update ℕ_discrete s.records a (record r { result = some evidence });
}

unfoldable pub demote : ℕ → Scope → Scope
unfolding set_evidence
demote a s = elim (s.records a) [
  | none ↦ s
  | some r ↦ elim r.result [
    | none ↦ s
    | some evidence ↦ set_evidence a (record evidence { hot = false }) r s
  ]
]

-- The record of a result that an actor took.
unfoldable pub hit : ℕ → Number → ResultCacheEvidence → IndexedEntry → Scope → Scope
hit a now evidence r s = record s {
  records = update ℕ_discrete s.records a (record r {
    result = some (record evidence {
      hot = true;
      actor_hits = suc evidence.actor_hits;
      last_actor_hit_at = some now;
    });
    recency = s.sequence;
  });
  sequence = suc s.sequence;
}

unfoldable pub demote_excess : Rank Entry → Option Limits → Scope → Scope × List Entry
unfolding retire_excess hot_entries demote
demote_excess rank none s = (s, [])
demote_excess rank (some limits) s =
    retire_excess rank limits (λ e. true) (λ a e t. demote a t) (hot_entries s) s

unfoldable pub record_actor_hit :
    Rank Entry → Entry → Option Limits → Number → Scope → Scope × List Entry
unfolding record_of hit demote_excess
record_actor_hit rank entry limits now s = elim (record_of s entry) [
  | none ↦ (s, [])
  | some (a, r) ↦ elim r.result [
    | none ↦ (s, [])
    | some evidence ↦ demote_excess rank limits (hit a now evidence r s)
  ]
]
