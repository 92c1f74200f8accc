-- ===== src/Recency/Lookup.antt =====
-- src/bounded-recency-map.ts: what the calls leave to be looked up.
use pi_speculative_action.Prelude.{
  ℕ, ◌<◌, false, none, some, List, [], ◌∷◌, ◌++◌, length, ◌≡◌, ◌≢◌, refl, sym, ◌∙◌, arith, get,
  delete, get-delete_self, get-delete_ne, Bool-cases, Option-cases, inl, inr, ◌⊎◌,
}
use pi_speculative_action.Recency.{
  Capacity, not_a_number, unlimited, at_most, Capacity, not_a_number, unlimited, RecencyMap, shift,
  refreshed, recall, evict, set, within, at_most,
}
use pi_speculative_action.Recency.Bounded.{Room}

full_length : (c : Capacity) (n : ℕ) → within n c ≡ false → Room c 1 → 1 < n
unfolding within
full_length not_a_number n h r = absurd (omega arith)
full_length unlimited n h r = cc
full_length (at_most c) n h r = ground arith

module _ {ℓ κ} {K : Type ℓ} {V : Type κ} (dec : Discrete K) where
  get-snoc_self :
      (k : K) (v : V) (m : List (K × V))
      → get dec k m ≡ none
      → get dec k (m ++ ((k, v) ∷ [])) ≡ some v
  unfolding get
  get-snoc_self k v [] h = ground arith
  get-snoc_self k v ((j, w) ∷ m) h = ground (arith, get-snoc_self k v m)

  get-snoc_ne :
      (k j : K) (v : V) (m : List (K × V)) → j ≢ k → get dec j (m ++ ((k, v) ∷ [])) ≡ get dec j m
  unfolding get
  get-snoc_ne k j v [] h = ground arith
  get-snoc_ne k j v ((i, w) ∷ m) h = ground (arith, get-snoc_ne k j v m h)

  get-refreshed_self : (k : K) (v : V) (m : List (K × V)) → get dec k (refreshed dec k v m) ≡ some v
  unfolding refreshed
  get-refreshed_self k v m = get-snoc_self k v (delete dec k m) (get-delete_self dec k m)

  get-refreshed_ne :
      (k j : K) (v : V) (m : List (K × V)) → j ≢ k → get dec j (refreshed dec k v m) ≡ get dec j m
  unfolding refreshed
  get-refreshed_ne k j v m h = get-snoc_ne k j v (delete dec k m) h ∙ get-delete_ne dec k j m h

  -- A lookup answers with the value that the map holds for the key, changes no answer, and makes an
  -- entry that it finds the newest.
  pub recall-get :
      (k : K) (m : RecencyMap K V)
      → ((recall dec k m).1 ≡ get dec k m.entries)
        × ((j : K) → get dec j (recall dec k m).0.entries ≡ get dec j m.entries)
        × ((v : V)
            → get dec k m.entries ≡ some v
            → (recall dec k m).0.entries ≡ delete dec k m.entries ++ ((k, v) ∷ []))
  unfolding recall
  recall-get k m = elim (Option-cases (get dec k m.entries)) [
    | inl e ↦ (rw (recall, e) refl, (λ j. rw (recall, e) refl), λ v h. cc)
    | inr (v, e) ↦ (
      rw (recall, e) refl,
      (λ j.
          rw (recall, e)
            (elim (dec j k) [
              | yes p ↦ rw p (get-refreshed_self k v m.entries ∙ sym e)
              | no n ↦ get-refreshed_ne k j v m.entries n
            ])),
      λ w h. rw (recall, e, refreshed) (cc (sym e ∙ h)),
    )
  ]

  shift-get_snoc :
      (k : K) (v : V) (m : List (K × V))
      → 1 < length (m ++ ((k, v) ∷ []))
      → get dec k m ≡ none
      → get dec k (shift (m ++ ((k, v) ∷ []))).0 ≡ some v
  unfolding shift get
  shift-get_snoc k v [] l h = absurd (omega arith)
  shift-get_snoc k v ((j, w) ∷ m) l h = get-snoc_self k v m (ground arith)

  -- The first entry is the only one that is lost.
  shift-get :
      (j : K) (m : List (K × V))
      → (get dec j (shift m).0 ≡ get dec j m) ⊎ ((shift m).1 ≡ get dec j m)
  unfolding shift get
  shift-get j [] = inl refl
  shift-get j ((i, w) ∷ m) = ground arith

  -- A value that is set is found, if the capacity is not NaN, and every other entry is kept, but the
  -- one whose value is handed to the callback.
  pub set-get :
      (k : K) (v : V) (m : RecencyMap K V)
      → Room m.capacity 1
      → (get dec k (set dec k v m).0.entries ≡ some v)
        × ((j : K)
            → j ≢ k
            → (get dec j (set dec k v m).0.entries ≡ get dec j m.entries)
              ⊎ ((set dec k v m).1 ≡ get dec j m.entries))
  unfolding set evict refreshed
  set-get k v m r =
      let m' = refreshed dec k v m.entries in
      elim (Bool-cases (within (length m') m.capacity)) [
        | inl e ↦ (
          rw (set, evict, e) (get-refreshed_self k v m.entries),
          λ j n. inl (rw (set, evict, e) (get-refreshed_ne k j v m.entries n)),
        )
        | inr e ↦ (
          rw (set, evict, e)
              (shift-get_snoc k v (delete dec k m.entries) (full_length m.capacity (length m') e r)
                (get-delete_self dec k m.entries)),
          λ j n. rw (set, evict, e, ← get-refreshed_ne k j v m.entries n) (shift-get j m'),
        )
      ]
