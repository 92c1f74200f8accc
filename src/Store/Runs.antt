-- ===== src/Store/Runs.antt =====
-- src/candidate-stores.ts: whatever calls are made of a store, its index agrees with its registrations.
use pi_speculative_action.Store.Settling.{
  MakesKey, Call, inserts, removes, views, invalidates, settles, creates, hits, trims, call, run,
}
use pi_speculative_action.Store.Inserting.{add-IsIndexed}
use pi_speculative_action.Store.Entries.{
  remove-IsIndexed, index_view-IsIndexed, invalidate_inputs-IsIndexed, rewrite-IsIndexed,
  settle-IsIndexed,
}
use pi_speculative_action.Prelude.{
  ℕ, suc, Bool, true, false, ◌&&◌, Option, none, some, String_discrete, List, [], ◌∷◌, All, has,
  get, length, ◌≡◌, inl, inr, refl, subst, arith, Bool-cases, Option-cases, >>=-eq-some,
}
use pi_speculative_action.Numbers.{Number}
use pi_speculative_action.Settlement.{ActionKeyMatch}
use pi_speculative_action.Semantics.{
  ActionKey, ActionKeyProjector, action_key_projection_partitions,
}
use pi_speculative_action.Store.{
  Entry, IndexedEntry, ResultCacheEvidence, Scope, empty, is_registered, record_of, add, insert,
  projection_partitions,
}
use pi_speculative_action.Store.Lookup.{lookup_records}
use pi_speculative_action.Store.Retention.{
  Rank, Limits, get_or_create, reusable, retire_ranked, retire_excess, within_budget, is_at,
  total_bytes, demote, set_evidence, hit, demote_excess, record_actor_hit, trim, cached,
  hot_entries,
}
use pi_speculative_action.Store.Indexed.{IsIndexed}

module _ (projectors : List ActionKeyProjector) where
  add-creates-IsIndexed :
      (key : ActionKey) (entry : Entry) (s : Scope)
      → entry.key ≡ some key
      → IsIndexed projectors s
      → IsIndexed projectors (add entry (action_key_projection_partitions key projectors) s).0
  unfolding insert projection_partitions
  add-creates-IsIndexed key entry s e h =
      subst (λ k. IsIndexed projectors (add entry (projection_partitions k projectors) s).0) e
        (add-IsIndexed projectors entry s h)

  get_or_create-IsIndexed :
      (rank : Rank ActionKeyMatch) (key : ActionKey) (entry : Entry)
      (can_reuse : Entry → ActionKeyMatch → Bool) (s : Scope)
      → entry.key ≡ some key
      → IsIndexed projectors s
      → IsIndexed projectors (get_or_create projectors rank key entry can_reuse s).0
  unfolding get_or_create
  get_or_create-IsIndexed rank key entry can_reuse s e h =
      elim (Option-cases
        (reusable can_reuse s (rank s.records (lookup_records projectors (λ x. false) key s)))) [
          | inl f ↦ rw (get_or_create, f) (add-creates-IsIndexed key entry s e h)
          | inr ((x, m), f) ↦ rw (get_or_create, f) h
        ]

  retire_ranked-IsIndexed :
      (limits : Limits) (can_retire : Entry → Bool) (retire : ℕ → Entry → Scope → Scope)
      → ((a : ℕ) (e : Entry) (s : Scope)
          → IsIndexed projectors s
          → IsIndexed projectors (retire a e s))
      → (es : List (ℕ × Entry)) (count bytes : ℕ) (s : Scope) → IsIndexed projectors s
      → IsIndexed projectors (retire_ranked limits can_retire retire es count bytes s).0
  unfolding retire_ranked
  retire_ranked-IsIndexed limits can_retire retire keep [] count bytes s h = h
  retire_ranked-IsIndexed limits can_retire retire keep ((a, e) ∷ es) count bytes s h =
      elim (Bool-cases (within_budget limits count bytes)) [
        | inl w ↦ rw (retire_ranked, w) h
        | inr w ↦ elim (Bool-cases (can_retire e && is_at s a e)) [
          | inl c ↦
              rw (retire_ranked, w, c)
                (retire_ranked-IsIndexed limits can_retire retire keep es _ _ (retire a e s)
                  (keep a e s h))
          | inr c ↦
              rw (retire_ranked, w, c)
                (retire_ranked-IsIndexed limits can_retire retire keep es count bytes s h)
        ]
      ]

  retire_excess-IsIndexed :
      (rank : Rank Entry) (limits : Limits) (can_retire : Entry → Bool)
      (retire : ℕ → Entry → Scope → Scope)
      → ((a : ℕ) (e : Entry) (s : Scope)
          → IsIndexed projectors s
          → IsIndexed projectors (retire a e s))
      → (es : List (ℕ × Entry)) (s : Scope) → IsIndexed projectors s
      → IsIndexed projectors (retire_excess rank limits can_retire retire es s).0
  unfolding retire_excess
  retire_excess-IsIndexed rank limits can_retire retire keep es s h =
      elim (Bool-cases (within_budget limits (length es) (total_bytes es))) [
        | inl w ↦ rw w h
        | inr w ↦ rw w (retire_ranked-IsIndexed limits can_retire retire keep _ _ _ s h)
      ]

  demote-IsIndexed :
      (a : ℕ) (s : Scope) → IsIndexed projectors s → IsIndexed projectors (demote a s)
  unfolding demote set_evidence
  demote-IsIndexed a s h = elim (Option-cases (s.records a)) [
    | inl e ↦ rw (demote, e) h
    | inr (r, e) ↦ elim (Option-cases r.result) [
      | inl f ↦ rw (demote, e, f) h
      | inr (evidence, f) ↦ rw (demote, e, f) (rewrite-IsIndexed projectors s a r _ e refl refl h)
    ]
  ]

  -- The sequence is no part of the index.
  resequence-IsIndexed :
      (s : Scope) (n : ℕ)
      → IsIndexed projectors s
      → IsIndexed projectors (record s { sequence = n })
  unfolding is_registered
  resequence-IsIndexed s n h = record {
    entered = h.entered;
    filed = h.filed;
    kept = λ b x k e t i. record {
      by_key = (h.kept b x k e t i).by_key;
      by_projection = (h.kept b x k e t i).by_projection;
    };
    absent = h.absent;
    fresh = h.fresh;
  }

  hit-IsIndexed :
      (a : ℕ) (now : Number) (evidence : ResultCacheEvidence) (r : IndexedEntry) (s : Scope)
      → s.records a ≡ some r
      → IsIndexed projectors s
      → IsIndexed projectors (hit a now evidence r s)
  unfolding hit
  hit-IsIndexed a now evidence r s e h =
      resequence-IsIndexed _ (suc s.sequence) (rewrite-IsIndexed projectors s a r _ e refl refl h)

  record_of-there :
      (s : Scope) (entry : Entry) (a : ℕ) (r : IndexedEntry)
      → record_of s entry ≡ some (a, r)
      → s.records a ≡ some r
  unfolding record_of
  record_of-there s entry a r h =
      let (b, e, k) = >>=-eq-some (get String_discrete entry.id s.entries) _ h in
      let (x, j, l) = >>=-eq-some (s.records b) _ k in grind arith

  record_actor_hit-IsIndexed :
      (rank : Rank Entry) (entry : Entry) (limits : Option Limits) (now : Number) (s : Scope)
      → IsIndexed projectors s
      → IsIndexed projectors (record_actor_hit rank entry limits now s).0
  unfolding record_actor_hit demote_excess
  record_actor_hit-IsIndexed rank entry limits now s h = elim (Option-cases (record_of s entry)) [
    | inl e ↦ rw (record_actor_hit, e) h
    | inr ((a, r), e) ↦ elim (Option-cases r.result) [
      | inl f ↦ rw (record_actor_hit, e, f) h
      | inr (evidence, f) ↦
          let k = hit-IsIndexed a now evidence r s (record_of-there s entry a r e) h in
          rw (record_actor_hit, e, f) (demoted limits (hit a now evidence r s) k)
    ]
  ]
    where
      demoted :
          (l : Option Limits) (t : Scope)
          → IsIndexed projectors t
          → IsIndexed projectors (demote_excess rank l t).0
      demoted none t k = k
      demoted (some l) t k =
          retire_excess-IsIndexed rank l (λ e. true) (λ a e u. demote a u)
            (λ a e u. demote-IsIndexed a u) (hot_entries t) t k

  call-IsIndexed :
      (c : Call) (s : Scope)
      → MakesKey c
      → IsIndexed projectors s
      → IsIndexed projectors (call projectors c s)
  unfolding call trim
  call-IsIndexed (inserts entry) s m h = add-IsIndexed projectors entry s h
  call-IsIndexed (removes entry) s m h = remove-IsIndexed projectors entry s h
  call-IsIndexed (views entry key retained) s m h =
      index_view-IsIndexed projectors entry key retained s h
  call-IsIndexed (invalidates entry resources) s m h =
      invalidate_inputs-IsIndexed projectors entry resources s h
  call-IsIndexed (settles entry resources shared now) s m h =
      settle-IsIndexed projectors entry resources shared now s h
  call-IsIndexed (creates rank key entry can_reuse) s m h =
      get_or_create-IsIndexed rank key entry can_reuse s m h
  call-IsIndexed (hits rank entry limits now) s m h =
      record_actor_hit-IsIndexed rank entry limits now s h
  call-IsIndexed (trims rank limits can_evict) s m h =
      retire_excess-IsIndexed rank limits can_evict _ (λ a e t. remove-IsIndexed projectors e t)
        (cached s) s h

  empty-IsIndexed : (sequence : ℕ) → IsIndexed projectors (empty sequence)
  unfolding get has
  empty-IsIndexed sequence = record {
    entered = λ id a e. cc;
    filed = λ a r p e. cc;
    kept = λ a r k e t i. cc;
    absent = λ a p e. refl;
    fresh = λ a l. refl;
  }

  pub run-IsIndexed :
      (calls : List Call) (s : Scope)
      → All MakesKey calls
      → IsIndexed projectors s
      → IsIndexed projectors (run projectors calls s)
  unfolding run
  run-IsIndexed [] s m h = h
  run-IsIndexed (c ∷ cs) s m h =
      run-IsIndexed cs (call projectors c s) m.1 (call-IsIndexed c s m.0 h)

  pub run-empty-IsIndexed :
      (calls : List Call) (sequence : ℕ)
      → All MakesKey calls
      → IsIndexed projectors (run projectors calls (empty sequence))
  run-empty-IsIndexed calls sequence m =
      run-IsIndexed calls (empty sequence) m (empty-IsIndexed sequence)
