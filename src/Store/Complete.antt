-- ===== src/Store/Complete.antt =====
-- src/candidate-stores.ts: a lookup by the index finds what a scan of all registrations finds.
use pi_speculative_action.Store.Lookup.{union_all, candidates, match_at, matches_of, lookup_records}
use pi_speculative_action.Store.Settling.{Call, MakesKey, run}
use pi_speculative_action.Prelude.{
  has-map, ℕ, Bool, true, Option, none, some, String, ℕ_discrete, List, [], ◌∷◌, if◌then◌else◌, All,
  has, get, put, ◌≡◌, ◌⊎◌, inl, inr, refl, sym, ◌∙◌, arith, ap, subst, Option-cases, Bool-cases,
  has-append_left, has-append_right, has-cons, has-cons_self, >>=-eq-some, get-put_self, get-put_ne,
}
use pi_speculative_action.Settlement.{ActionKeyMatch, exact_match, projected, inputs}
use pi_speculative_action.Semantics.{
  ActionKey, ActionKeyProjector, same, same_contract, action_key_match,
  Partition-discrete as Projection-discrete, action_key_projection_partitions,
}
use pi_speculative_action.Semantics.Ranges.{KeepsPartitions, Offers-partition}
use pi_speculative_action.Semantics.Matching.{IsMatch, action_key_match-IsMatch}
use pi_speculative_action.Store.{
  projection, Entry, Partition, exact, Partition-discrete, IndexedEntry, Scope, is_registered,
  empty,
}
use pi_speculative_action.Store.Indexed.{IsIndexed}
use pi_speculative_action.Store.Runs.{run-empty-IsIndexed}

-- One turn of the loop.
get-turn :
    (f : ℕ → Option ActionKeyMatch) (a c : ℕ) (cs : List ℕ) (rest : List (ℕ × ActionKeyMatch))
    → get ℕ_discrete a rest ≡ (if has ℕ_discrete a cs then f a else none)
    → get ℕ_discrete a (elim (f c) [ none ↦ rest | some m ↦ put ℕ_discrete c m rest ])
      ≡ (if has ℕ_discrete a (c ∷ cs) then f a else none)
unfolding has
get-turn f a c cs rest ih = elim (ℕ_discrete a c) [
  | yes p ↦ elim (Option-cases (f c)) [
    | inl e ↦ ground arith
    | inr (m, e) ↦ ground (arith, get-put_self ℕ_discrete c m rest)
  ]
  | no n ↦ elim (Option-cases (f c)) [
    | inl e ↦ ground arith
    | inr (m, e) ↦ ground (arith, get-put_ne ℕ_discrete c a m rest n)
  ]
]

-- What the loop over some addresses gives for one of them.
get-matches_of :
    (projectors : List ActionKeyProjector) (f : ℕ → Option ActionKeyMatch) (a : ℕ) (cs : List ℕ)
    → get ℕ_discrete a (matches_of projectors f cs) ≡ (if has ℕ_discrete a cs then f a else none)
unfolding matches_of has get
get-matches_of projectors f a [] = refl
get-matches_of projectors f a (c ∷ cs) =
    get-turn f a c cs (matches_of projectors f cs) (get-matches_of projectors f a cs)

has-union_all :
    (projectors : List ActionKeyProjector) (partitions : Partition → List ℕ) (a : ℕ) (p : Partition)
    (ps : List Partition)
    → has Partition-discrete p ps ≡ true
    → has ℕ_discrete a (partitions p) ≡ true
    → has ℕ_discrete a (union_all projectors partitions ps) ≡ true
unfolding union_all has
has-union_all projectors partitions a p [] h k = cc
has-union_all projectors partitions a p (q ∷ ps) h k = elim (Partition-discrete p q) [
  | yes e ↦
      has-append_left ℕ_discrete a (partitions q) _
        (ap (λ x. has ℕ_discrete a (partitions x)) (sym e) ∙ k)
  | no e ↦
      has-append_right ℕ_discrete a (partitions q) _
        (has-union_all projectors partitions a p ps (ground arith) k)
]

module _ (projectors : List ActionKeyProjector) (keep : All KeepsPartitions projectors)
    (require_coverage : Entry → Bool) (action : ActionKey) where
  same_key : (k : ActionKey) → same k.key action.key ≡ true → k.key ≡ action.key
  unfolding same
  same_key k h = ground arith

  -- A key that matches shares a partition with the action.
  shares_partition :
      (k : ActionKey) (coverage : Bool) (m : ActionKeyMatch)
      → action_key_match k action projectors coverage ≡ some m
      → (k.key ≡ action.key)
        ⊎ ((t : String × String) × (has Projection-discrete t
                (action_key_projection_partitions k projectors)
              ≡ true)
            × (has Projection-discrete t (action_key_projection_partitions action projectors)
                ≡ true))
  unfolding action_key_match
  shares_partition k coverage m h = elim (Bool-cases (same k.key action.key)) [
    | inl e ↦ inl (same_key k e)
    | inr e ↦ elim (Bool-cases (same_contract k action)) [
      | inr c ↦ cc (rw (e, c) at h)
      | inl c ↦
          let i = action_key_match-IsMatch k action projectors coverage e c in
          inr (of_match m (subst (IsMatch coverage k action projectors) h i))
    ]
  ]
    where
      of_match :
          (n : ActionKeyMatch)
          → IsMatch coverage k action projectors (some n)
          → (t : String × String) × (has Projection-discrete t
                (action_key_projection_partitions k projectors)
              ≡ true)
            × (has Projection-discrete t (action_key_projection_partitions action projectors)
                ≡ true)
      of_match exact_match i = absurd i
      of_match (inputs d) i = absurd i
      of_match (projected d id) i = Offers-partition coverage k action d id projectors keep i.0

  registered_key :
      (s : Scope) (a : ℕ) (r : IndexedEntry) {k : ActionKey}
      → (if is_registered s a r then r.entry.key else none) ≡ some k
      → (is_registered s a r ≡ true) × (r.entry.key ≡ some k)
  registered_key s a r h = ground arith

  -- What matches is among the candidates.
  match_at-candidates :
      (s : Scope) (a : ℕ) (m : ActionKeyMatch)
      → IsIndexed projectors s
      → match_at projectors require_coverage action s a ≡ some m
      → has ℕ_discrete a (candidates projectors s action) ≡ true
  unfolding match_at candidates
  match_at-candidates s a m h e =
      let (r, there, e') = >>=-eq-some (s.records a) _ e in
      let (k, u, e'') = >>=-eq-some (if is_registered s a r then r.entry.key else none) _ e' in
      let (registered, key) = registered_key s a r u in
      let files = h.kept a r k there registered key in
      elim (shares_partition k (require_coverage r.entry) m e'') [
        | inl p ↦
            has-union_all projectors s.partitions a (exact action.key) _
              (has-cons_self Partition-discrete _ _)
              (subst (λ x. has ℕ_discrete a (s.partitions (exact x)) ≡ true) p
                (sym (h.filed a r (exact k.key) there) ∙ files.by_key))
        | inr (t, x, y) ↦
            has-union_all projectors s.partitions a (Partition.projection t) _
              (has-cons Partition-discrete _ _ _ (
                has-map projection Projection-discrete Partition-discrete t
                  (action_key_projection_partitions action projectors) y))
              (sym (h.filed a r (Partition.projection t) there) ∙ files.by_projection t x)
      ]

  lookup_records-match_at :
      (s : Scope) (a : ℕ)
      → IsIndexed projectors s
      → get ℕ_discrete a (lookup_records projectors require_coverage action s)
        ≡ match_at projectors require_coverage action s a
  unfolding lookup_records
  lookup_records-match_at s a h =
      get-matches_of projectors (match_at projectors require_coverage action s) a
        (candidates projectors s action)
      ∙ elim (Bool-cases (has ℕ_discrete a (candidates projectors s action))) [
        | inl e ↦ rw e
        | inr e ↦ elim (Option-cases (match_at projectors require_coverage action s a)) [
          | inl f ↦ rw (e, f)
          | inr (m, f) ↦ cc (match_at-candidates s a m h f)
        ]
      ]

  -- Whatever calls were made of a store, insertions, removals, settlements, creations, views, revocations,
  -- hits and evictions in any order, a lookup by partitions gives for each record what the scan of all
  -- records gives, a match exactly if it is registered and its key matches. Each projector relates
  -- only keys of one partition, and what is created for a key has that key.
  pub lookup_records-run :
      (calls : List Call) (sequence a : ℕ)
      → All MakesKey calls
      → get ℕ_discrete a (
          lookup_records projectors require_coverage action (run projectors calls (empty sequence)))
        ≡ match_at projectors require_coverage action (run projectors calls (empty sequence)) a
  lookup_records-run calls sequence a makes =
      lookup_records-match_at _ a (run-empty-IsIndexed projectors calls sequence makes)
