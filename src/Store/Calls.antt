-- ===== src/Store/Calls.antt =====
-- src/candidate-stores.ts: the calls of a store keep its index.
use pi_speculative_action.Store.Touching.{index_one-IsIndexed, unindex_one-IsIndexed}
use pi_speculative_action.Prelude.{
  ℕ, true, some, some-injective, String, String_discrete, List, [], ◌∷◌, All, has, get, put, delete,
  ◌≡◌, ◌≢◌, ◌⊎◌, inl, inr, refl, sym, ◌∙◌, arith, ap, subst, Option-cases, get-put_self, get-put_ne,
  get-delete_self, get-delete_ne,
}
use pi_speculative_action.Semantics.{ActionKey, ActionKeyProjector}
use pi_speculative_action.Store.{
  Partition, Partition-discrete, IndexedEntry, Scope, with_member, is_registered, index_one,
  unindex_one, index, unindex,
}
use pi_speculative_action.Store.Indexed.{IsFree, Files, IsIndexed, has-with_member}

module _ (projectors : List ActionKeyProjector) where
  index_one-entries : (a : ℕ) (p : Partition) (s : Scope) → (index_one a p s).entries ≡ s.entries
  unfolding index_one
  index_one-entries a p s = elim (Option-cases (s.records a)) [
    | inl e ↦ rw (index_one, e)
    | inr (r, e) ↦ rw (index_one, e)
  ]

  unindex_one-entries :
      (a : ℕ) (p : Partition) (s : Scope) → (unindex_one a p s).entries ≡ s.entries
  unfolding unindex_one
  unindex_one-entries a p s = elim (Option-cases (s.records a)) [
    | inl e ↦ rw (unindex_one, e)
    | inr (r, e) ↦ rw (unindex_one, e)
  ]

  pub index-IsIndexed :
      (a : ℕ) (ps : List Partition) (s : Scope)
      → IsIndexed projectors s
      → IsIndexed projectors (index a ps s)
  unfolding index
  index-IsIndexed a [] s h = h
  index-IsIndexed a (p ∷ ps) s h =
      index-IsIndexed a ps (index_one a p s) (index_one-IsIndexed projectors a p s h)

  pub unindex-IsIndexed :
      (a : ℕ) (ps : List Partition) (s : Scope)
      → IsIndexed projectors s
      → All IsFree ps ⊎ ((id : String) → get String_discrete id s.entries ≢ some a)
      → IsIndexed projectors (unindex a ps s)
  unfolding unindex
  unindex-IsIndexed a [] s h c = h
  unindex-IsIndexed a (p ∷ ps) s h (inl free) =
      unindex-IsIndexed a ps (unindex_one a p s)
        (unindex_one-IsIndexed projectors a p s h (inl free.0)) (inl free.1)
  unindex-IsIndexed a (p ∷ ps) s h (inr gone) =
      unindex-IsIndexed a ps (unindex_one a p s)
        (unindex_one-IsIndexed projectors a p s h (inr gone))
        (inr (λ id.
          subst (λ es. get String_discrete id es ≢ some a) (sym (unindex_one-entries a p s))
            (gone id)))

  -- The record that is put into some partitions.
  pub record HasAll (a : ℕ) (ps : List Partition) (r : IndexedEntry) (s : Scope) : Type 0 where
    pub now : IndexedEntry
    pub there : s.records a ≡ some now
    pub same_entry : now.entry ≡ r.entry
    pub holds :
        (q : Partition)
        → (has Partition-discrete q ps ≡ true) ⊎ (has Partition-discrete q r.memberships ≡ true)
        → has Partition-discrete q now.memberships ≡ true

  with-HasAll :
      (a : ℕ) (p : Partition) (ps : List Partition) (r : IndexedEntry) (s : Scope)
      → HasAll a ps (record r { memberships = with_member Partition-discrete p r.memberships }) s
      → HasAll a (p ∷ ps) r s
  unfolding has
  with-HasAll a p ps r s h = record {
    now = h.now;
    there = h.there;
    same_entry = h.same_entry;
    holds = λ q c. h.holds q (ground (arith, has-with_member Partition-discrete q p r.memberships));
  }

  pub index-HasAll :
      (a : ℕ) (ps : List Partition) (r : IndexedEntry) (s : Scope)
      → s.records a ≡ some r
      → HasAll a ps r (index a ps s)
  unfolding index index_one has
  index-HasAll a [] r s e = record {
    now = r;
    there = e;
    same_entry = refl;
    holds = λ q c. ground arith;
  }
  index-HasAll a (p ∷ ps) r s e =
      with-HasAll a p ps r _
        (index-HasAll a ps _ (index_one a p s) (rw (e, index_one) (ground arith)))

  index_one-record :
      (a : ℕ) (p : Partition) (s : Scope) (es : List (String × ℕ))
      → index_one a p (record s { entries = es }) ≡ record (index_one a p s) { entries = es }
  unfolding index_one
  index_one-record a p s es = elim (Option-cases (s.records a)) [
    | inl e ↦ rw (index_one, e)
    | inr (r, e) ↦ rw (index_one, e)
  ]

  -- The index does not read the entries.
  pub index-record :
      (a : ℕ) (ps : List Partition) (s : Scope) (es : List (String × ℕ))
      → index a ps (record s { entries = es }) ≡ record (index a ps s) { entries = es }
  unfolding index
  index-record a [] s es = refl
  index-record a (p ∷ ps) s es =
      ap (index a ps) (index_one-record a p s es) ∙ index-record a ps (index_one a p s) es

  pub index-entries : (a : ℕ) (ps : List Partition) (s : Scope) → (index a ps s).entries ≡ s.entries
  unfolding index
  index-entries a [] s = refl
  index-entries a (p ∷ ps) s = index-entries a ps (index_one a p s) ∙ index_one-entries a p s

  is_registered-put :
      (s : Scope) (id : String) (a b : ℕ) (r : IndexedEntry)
      → is_registered (record s { entries = put String_discrete id a s.entries }) b r ≡ true
      → (b ≡ a) ⊎ (is_registered s b r ≡ true)
  unfolding is_registered
  is_registered-put s id a b r h = elim (String_discrete r.entry.id id) [
    | yes p ↦ inl (ground (arith, get-put_self String_discrete id a s.entries))
    | no p ↦ inr (ground (arith, get-put_ne String_discrete id r.entry.id a s.entries p))
  ]

  -- A record that is filed is registered.
  pub enter-IsIndexed :
      (s : Scope) (a : ℕ) (id : String) (r : IndexedEntry)
      → IsIndexed projectors s
      → s.records a ≡ some r
      → r.entry.id ≡ id
      → ((k : ActionKey) → r.entry.key ≡ some k → Files projectors r k)
      → IsIndexed projectors (record s { entries = put String_discrete id a s.entries })
  enter-IsIndexed s a id r h there same files = record {
    entered = λ j b e. elim (String_discrete j id) [
      | yes p ↦
          let q : a ≡ b = some-injective _ _ (
            sym (get-put_self String_discrete id a s.entries)
            ∙ ap (λ x. get String_discrete x (put String_discrete id a s.entries)) (sym p)
            ∙ e) in
          (r, ap s.records (sym q) ∙ there, same ∙ sym p)
      | no p ↦ h.entered j b (sym (get-put_ne String_discrete id j a s.entries p) ∙ e)
    ];
    filed = h.filed;
    kept = λ b x k e t i. elim (is_registered-put s id a b x t) [
      | inl p ↦
          let q : r ≡ x = some-injective _ _ (sym there ∙ ap s.records (sym p) ∙ e) in
          subst (λ y. Files projectors y k) q
            (files k (ap (λ (y : IndexedEntry). y.entry.key) q ∙ i))
      | inr u ↦ h.kept b x k e u i
    ];
    absent = h.absent;
    fresh = h.fresh;
  }

  pub get-delete-eq-some :
      (k j : String) (m : List (String × ℕ)) {v : ℕ}
      → get String_discrete j (delete String_discrete k m) ≡ some v
      → (j ≢ k) × (get String_discrete j m ≡ some v)
  get-delete-eq-some k j m h = elim (String_discrete j k) [
    | yes p ↦ cc (get-delete_self String_discrete k m)
    | no p ↦ (p, sym (get-delete_ne String_discrete k j m p) ∙ h)
  ]

  is_registered-delete :
      (s : Scope) (id : String) (a : ℕ) (r : IndexedEntry)
      → is_registered (record s { entries = delete String_discrete id s.entries }) a r ≡ true
      → is_registered s a r ≡ true
  unfolding is_registered
  is_registered-delete s id a r h =
      elim (Option-cases (get String_discrete r.entry.id (delete String_discrete id s.entries))) [
        | inl e ↦ cc (rw (is_registered, e) at h)
        | inr (b, e) ↦
            rw (is_registered, (get-delete-eq-some id r.entry.id s.entries e).1)
              (rw (is_registered, e) at h)
      ]

  pub leave-IsIndexed :
      (s : Scope) (id : String)
      → IsIndexed projectors s
      → IsIndexed projectors (record s { entries = delete String_discrete id s.entries })
  leave-IsIndexed s id h = record {
    entered = λ j b e. h.entered j b (get-delete-eq-some id j s.entries e).1;
    filed = h.filed;
    kept = λ b x k e t i. h.kept b x k e (is_registered-delete s id b x t) i;
    absent = h.absent;
    fresh = h.fresh;
  }
