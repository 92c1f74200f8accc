-- ===== src/Store/Entries.antt =====
-- src/candidate-stores.ts: the calls on one entry keep the index in agreement with the registrations.
use pi_speculative_action.Store.Settling.{
  with_result, with_evidence, has_inputs, settle_record, settle,
}
use pi_speculative_action.Store.Inserting.{update-ne, update_self, add-IsIndexed}
use pi_speculative_action.Prelude.{
  ℕ, Bool, true, false, Option, none, some, some-injective, String, String_discrete, ℕ_discrete,
  List, [], ◌∷◌, All, get, delete, update, ◌≡◌, ◌≢◌, inl, inr, refl, sym, ◌∙◌, arith, ap, ◌==◌,
  ◌&&◌, not, Bool-cases, Option-cases, >>=-eq-some,
}
use pi_speculative_action.Numbers.{Number}
use pi_speculative_action.Semantics.{ActionKeyProjector}
use pi_speculative_action.Store.{
  Entry, Partition, pending, view, IndexedEntry, Scope, is_registered, record_of, insert, remove,
  index_view, input_partitions, invalidate_inputs,
}
use pi_speculative_action.Store.Indexed.{
  IsFree, IsIndexed, update-eq-some, update-eq-none, update-none,
}
use pi_speculative_action.Store.Calls.{
  index-IsIndexed, unindex-IsIndexed, leave-IsIndexed, get-delete-eq-some,
}

module _ (projectors : List ActionKeyProjector) where
  record_of-eq-some :
      (s : Scope) (entry : Entry) (a : ℕ) (r : IndexedEntry)
      → record_of s entry ≡ some (a, r)
      → get String_discrete entry.id s.entries ≡ some a
  unfolding record_of
  record_of-eq-some s entry a r h =
      let (b, e, k) = >>=-eq-some (get String_discrete entry.id s.entries) _ h in
      let (x, j, l) = >>=-eq-some (s.records b) _ k in e ∙ ground arith

  pub remove-IsIndexed :
      (entry : Entry) (s : Scope) → IsIndexed projectors s → IsIndexed projectors (remove entry s).0
  unfolding remove
  remove-IsIndexed entry s h = elim (Option-cases (record_of s entry)) [
    | inl e ↦ rw (remove, e) h
    | inr ((a, r), e) ↦
        rw (remove, e)
          (unindex-IsIndexed projectors a r.memberships
            (record s { entries = delete String_discrete entry.id s.entries })
            (leave-IsIndexed projectors s entry.id h)
            (inr (λ id g.
              one_name s h entry.id id a (record_of-eq-some s entry a r e)
                (get-delete-eq-some projectors entry.id id s.entries g))))
  ]
    where
      one_name :
          (t : Scope)
          → IsIndexed projectors t
          → (i j : String) (b : ℕ) → get String_discrete i t.entries ≡ some b
          → (j ≢ i) × (get String_discrete j t.entries ≡ some b)
          → ⊥
      one_name t k i j b e f =
          let (x, p, q) = k.entered i b e in
          let (y, u, v) = k.entered j b f.1 in
          f.0 (sym v ∙ ap (λ (z : IndexedEntry). z.entry.id) (some-injective _ _ (sym u ∙ p)) ∙ q)

  pub index_view-IsIndexed :
      (entry : Entry) (key : String) (retained : Bool) (s : Scope)
      → IsIndexed projectors s
      → IsIndexed projectors (index_view entry key retained s)
  unfolding index_view
  index_view-IsIndexed entry key true s h = elim (Option-cases (record_of s entry)) [
    | inl e ↦ rw (index_view, e) h
    | inr ((a, r), e) ↦ rw (index_view, e) (index-IsIndexed projectors a (view key ∷ []) s h)
  ]
  index_view-IsIndexed entry key false s h = elim (Option-cases (record_of s entry)) [
    | inl e ↦ rw (index_view, e) h
    | inr ((a, r), e) ↦
        rw (index_view, e) (unindex-IsIndexed projectors a (view key ∷ []) s h (inl (tt, tt)))
  ]

  input_partitions-IsFree : (resources : List String) → All IsFree (input_partitions resources)
  unfolding input_partitions
  input_partitions-IsFree [] = tt
  input_partitions-IsFree (r ∷ rs) = (tt, (tt, input_partitions-IsFree rs))

  pub invalidate_inputs-IsIndexed :
      (entry : Entry) (resources : List String) (s : Scope)
      → IsIndexed projectors s
      → IsIndexed projectors (invalidate_inputs entry resources s)
  unfolding invalidate_inputs
  invalidate_inputs-IsIndexed entry resources s h = elim (Option-cases (record_of s entry)) [
    | inl e ↦ rw (invalidate_inputs, e) h
    | inr ((a, r), e) ↦
        rw (invalidate_inputs, e)
          (unindex-IsIndexed projectors a (input_partitions resources) s h
            (inl (input_partitions-IsFree resources)))
  ]

  is_registered-congr :
      (s t : Scope) (b a : ℕ) (x r : IndexedEntry)
      → t.entries ≡ s.entries
      → b ≡ a
      → x.entry ≡ r.entry
      → is_registered t b x ≡ is_registered s a r
  unfolding is_registered
  is_registered-congr s t b a x r f p e =
      λ i. elim (get String_discrete (e i).id (f i)) [ none ↦ false | some c ↦ p i == c ]

  -- A write to a record that leaves its entry and its partitions.
  pub rewrite-IsIndexed :
      (s : Scope) (a : ℕ) (r w : IndexedEntry)
      → s.records a ≡ some r
      → w.entry ≡ r.entry
      → w.memberships ≡ r.memberships
      → IsIndexed projectors s
      → IsIndexed projectors (record s { records = update ℕ_discrete s.records a w })
  rewrite-IsIndexed s a r w there entry memberships h = record {
    entered = λ id b e. entered_after id b e (ℕ_discrete b a);
    filed = λ b x q e. elim (update-eq-some s.records a b w e) [
      | inl (p, i) ↦ rw (i, p, memberships) (h.filed a r q there)
      | inr (n, k) ↦ h.filed b x q k
    ];
    kept = λ b x k e t i. elim (update-eq-some s.records a b w e) [
      | inl (p, j) ↦
          let old =
            h.kept a r k there
              (sym (
                  is_registered-congr s (record s { records = update ℕ_discrete s.records a w }) b a
                    x r refl p (ap (λ (y : IndexedEntry). y.entry) j ∙ entry))
                ∙ t)
              (ap (λ (y : Entry). y.key) (sym entry ∙ ap (λ (y : IndexedEntry). y.entry) (sym j))
                ∙ i) in
          rw j (record {
            by_key = rw memberships old.by_key;
            by_projection = λ u l. rw memberships (old.by_projection u l);
          })
      | inr (n, j) ↦ h.kept b x k j (unfold is_registered in t) i
    ];
    absent = λ b q e. h.absent b q (update-eq-none s.records a b w e).1;
    fresh = λ b l. update-none s.records a b w there (h.fresh b l);
  }
    where
      entered_after :
          (id : String) (b : ℕ)
          → get String_discrete id s.entries ≡ some b
          → Dec (b ≡ a)
          → (x : IndexedEntry) × (update ℕ_discrete s.records a w b ≡ some x) × (x.entry.id ≡ id)
      entered_after id b e (yes p) =
          let (x, k, i) = h.entered id b e in
          let q : r ≡ x = some-injective _ _ (sym there ∙ ap s.records (sym p) ∙ k) in
          (
            w,
            rw p (update_self s.records a w),
            ap (λ (y : Entry). y.id) (entry ∙ ap (λ (y : IndexedEntry). y.entry) q) ∙ i,
          )
      entered_after id b e (no n) =
          let (x, k, i) = h.entered id b e in (x, update-ne s.records a b w n ∙ k, i)

  with_evidence-IsIndexed :
      (a : ℕ) (now : Number) (v : Bool) (s : Scope)
      → IsIndexed projectors s
      → IsIndexed projectors (with_evidence a now v s)
  unfolding with_evidence with_result
  with_evidence-IsIndexed a now v s h = elim (Option-cases (s.records a)) [
    | inl e ↦ rw (with_evidence, e) h
    | inr (r, e) ↦
        rw (with_evidence, e) (rewrite-IsIndexed s a r (with_result now v r) e refl refl h)
  ]

  settle_record-IsIndexed :
      (resources : Option (List Partition)) (shared : Bool) (now : Number) (a : ℕ) (s : Scope)
      → IsIndexed projectors s
      → IsIndexed projectors (settle_record resources shared now a s)
  unfolding settle_record
  settle_record-IsIndexed none shared now a s h = with_evidence-IsIndexed a now false s h
  settle_record-IsIndexed (some ps) shared now a s h =
      elim (Bool-cases (shared && not (has_inputs s a))) [
        | inl e ↦ rw e (index-IsIndexed projectors a ps _ (with_evidence-IsIndexed a now true s h))
        | inr e ↦ rw e (with_evidence-IsIndexed a now false s h)
      ]

  pub settle-IsIndexed :
      (entry : Entry) (resources : Option (List Partition)) (shared : Bool) (now : Number)
      (s : Scope)
      → IsIndexed projectors s
      → IsIndexed projectors (settle projectors entry resources shared now s)
  unfolding settle
  settle-IsIndexed entry resources shared now s h =
      let t = (insert projectors entry s).0 in
      let k = add-IsIndexed projectors entry s h in
      elim (Option-cases (record_of t entry)) [
        | inl e ↦ rw (settle, e) k
        | inr ((a, r), e) ↦
            rw (settle, e)
              (settle_record-IsIndexed resources shared now a _
                (unindex-IsIndexed projectors a (pending ∷ []) t k (inl (tt, tt))))
      ]
