-- ===== src/Store/Lookup.antt =====
-- src/candidate-stores.ts: `lookupRecords` before its sort, without inputs and views.
use pi_speculative_action.Prelude.{
  ℕ, Bool, Option, none, some, ℕ_discrete, List, [], ◌∷◌, ◌++◌, map, put, if◌then◌else◌, ◌>>=◌,
}
use pi_speculative_action.Settlement.{ActionKeyMatch}
use pi_speculative_action.Semantics.{
  ActionKey, ActionKeyProjector, action_key_match, action_key_projection_partitions,
}
use pi_speculative_action.Store.{Entry, Partition, exact, projection, Scope, is_registered}

module _ (projectors : List ActionKeyProjector) where
  -- The members that `lookupRecords` looks at for a key, without those of inputs and views.
  unfoldable pub union_all : (Partition → List ℕ) → List Partition → List ℕ
  union_all partitions [] = []
  union_all partitions (p ∷ ps) = partitions p ++ union_all partitions ps

  unfoldable pub candidates : Scope → ActionKey → List ℕ
  unfolding union_all
  candidates s action =
      union_all s.partitions
        (exact action.key ∷ map projection (action_key_projection_partitions action projectors))

  -- What the loop of `lookupRecords` does with one record: it must be registered still, and match.
  unfoldable pub match_at : (Entry → Bool) → ActionKey → Scope → ℕ → Option ActionKeyMatch
  unfolding is_registered
  match_at require_coverage action s a = do
    r ← s.records a
    k ← (if is_registered s a r then r.entry.key else none)
    action_key_match k action projectors (require_coverage r.entry)

  unfoldable pub matches_of : (ℕ → Option ActionKeyMatch) → List ℕ → List (ℕ × ActionKeyMatch)
  matches_of match_of [] = []
  matches_of match_of (a ∷ rest_of) =
      let rest = matches_of match_of rest_of in
      elim (match_of a) [ none ↦ rest | some m ↦ put ℕ_discrete a m rest ]

  -- `lookupRecords` before its sort.
  unfoldable pub lookup_records : (Entry → Bool) → ActionKey → Scope → List (ℕ × ActionKeyMatch)
  unfolding matches_of match_at candidates
  lookup_records require_coverage action s =
      matches_of (match_at require_coverage action s) (candidates s action)
