-- ===== src/Store/Touching.antt =====
-- src/candidate-stores.ts: a record that is put into a partition, or taken out of one.
use pi_speculative_action.Prelude.{
  ℕ, Bool, true, false, some, some-injective, String, String_discrete, ℕ_discrete, List, has, get,
  update, ◌≡◌, ◌≢◌, ◌⊎◌, inl, inr, refl, sym, ◌∙◌, arith, ap, subst, Option-cases,
}
use pi_speculative_action.Semantics.{ActionKey, ActionKeyProjector}
use pi_speculative_action.Store.{
  Partition, exact, projection, Partition-discrete, IndexedEntry, Scope, with_member,
  without_member, at_partition, is_registered, index_one, unindex_one,
}
use pi_speculative_action.Store.Indexed.{
  changed, has-with_member, has-without_member, update-eq-some, update-eq-none, update-none,
  unlisted, IsFree, Files, IsIndexed,
}

module _ (projectors : List ActionKeyProjector) where
  -- A record is put into a partition, or taken out of it.
  module _ (s : Scope) (a : ℕ) (r : IndexedEntry) (p : Partition) (v : Bool)
      (there : s.records a ≡ some r) (memberships : List Partition)
      (partitions : Partition → List ℕ)
      (in_memberships : (q : Partition)
        → has Partition-discrete q memberships
          ≡ changed Partition-discrete v q p (has Partition-discrete q r.memberships))
      (in_partitions : (q : Partition)
        → has ℕ_discrete a (partitions q)
          ≡ changed Partition-discrete v q p (has ℕ_discrete a (s.partitions q)))
      (other_partitions : (b : ℕ) (q : Partition)
        → b ≢ a
        → has ℕ_discrete b (partitions q) ≡ has ℕ_discrete b (s.partitions q))
      (spared : (v ≡ true) ⊎ (IsFree p ⊎ (is_registered s a r ≡ false)))
      (h : IsIndexed projectors s) where
    touched : IndexedEntry
    touched = record r { memberships = memberships }

    after : Scope
    after = record s { partitions = partitions; records = update ℕ_discrete s.records a touched }

    still_in :
        (q : Partition)
        → (IsFree q → ⊥)
        → (v ≡ true) ⊎ IsFree p
        → has Partition-discrete q r.memberships ≡ true
        → has Partition-discrete q memberships ≡ true
    still_in q n c e =
        in_memberships q
        ∙ elim (Partition-discrete q p)
            as (λ d.
              (elim d [ yes _ ↦ v | no _ ↦ has Partition-discrete q r.memberships ]) ≡ true) [
                | yes same ↦ elim c [
                  | inl t ↦ t
                  | inr free ↦ absurd (n (subst IsFree (sym same) free))
                ]
                | no other ↦ e
              ]

    touched-Files :
        (k : ActionKey) → (v ≡ true) ⊎ IsFree p → Files projectors r k → Files projectors touched k
    unfolding touched
    touched-Files k c f = record {
      by_key = still_in (exact k.key) (λ x. x) c f.by_key;
      by_projection = λ t e. still_in (projection t) (λ x. x) c (f.by_projection t e);
    }

    touched-kept :
        (b : ℕ) (x : IndexedEntry) (k : ActionKey)
        → b ≡ a
        → x ≡ touched
        → is_registered s b x ≡ true
        → x.entry.key ≡ some k
        → Files projectors x k
    unfolding touched is_registered
    touched-kept b x k same j t i =
        let registered : is_registered s a r ≡ true = rw (same, j) at t in
        let old = h.kept a r k there registered (rw j at i) in
        subst (λ z. Files projectors z k) (sym j)
          (elim spared [
            | inl c ↦ touched-Files k (inl c) old
            | inr c ↦ elim c [ inl free ↦ touched-Files k (inr free) old | inr gone ↦ cc ]
          ])

    touched-entered :
        (id : String) (b : ℕ)
        → get String_discrete id s.entries ≡ some b
        → (x : IndexedEntry) × (update ℕ_discrete s.records a touched b ≡ some x)
          × (x.entry.id ≡ id)
    unfolding touched
    touched-entered id b e =
        let (x, k, i) = h.entered id b e in
        elim (ℕ_discrete b a)
          as (λ d.
            (y : IndexedEntry) × ((elim d [ yes _ ↦ some touched | no _ ↦ s.records b ]) ≡ some y)
            × (y.entry.id ≡ id)) [
              | yes same ↦
                  let q : x ≡ r = some-injective _ _ (sym k ∙ ap s.records same ∙ there) in
                  (touched, refl, ap (λ (y : IndexedEntry). y.entry.id) (sym q) ∙ i)
              | no other ↦ (x, k, i)
            ]

    after-IsIndexed : IsIndexed projectors after
    unfolding after touched is_registered
    after-IsIndexed = record {
      entered = touched-entered;
      filed = λ b x q e. elim (update-eq-some s.records a b touched e) [
        | inl (same, i) ↦
            rw (i, same)
              (in_memberships q
                ∙ ap (changed Partition-discrete v q p) (h.filed a r q there)
                ∙ sym (in_partitions q))
        | inr (n, k) ↦ h.filed b x q k ∙ sym (other_partitions b q n)
      ];
      kept = λ b x k e t i. elim (update-eq-some s.records a b touched e) [
        | inl (same, j) ↦ touched-kept b x k same j t i
        | inr (n, j) ↦ h.kept b x k j t i
      ];
      absent = λ b q e.
          let (n, k) = update-eq-none s.records a b touched e in
          other_partitions b q n ∙ h.absent b q k;
      fresh = λ b l. update-none s.records a b touched there (h.fresh b l);
    }

  module _ (a : ℕ) (p : Partition) (s : Scope) (h : IsIndexed projectors s) where
    at_partition_self :
        (change : List ℕ → List ℕ) (v : Bool)
        → ((xs : List ℕ) → has ℕ_discrete a (change xs) ≡ v)
        → (q : Partition)
        → has ℕ_discrete a (at_partition p change s.partitions q)
          ≡ changed Partition-discrete v q p (has ℕ_discrete a (s.partitions q))
    unfolding at_partition
    at_partition_self change v e q = ground (arith, e (s.partitions q))

    at_partition-ne :
        (change : List ℕ → List ℕ) (b : ℕ)
        → ((xs : List ℕ) → has ℕ_discrete b (change xs) ≡ has ℕ_discrete b xs)
        → (q : Partition)
        → has ℕ_discrete b (at_partition p change s.partitions q)
          ≡ has ℕ_discrete b (s.partitions q)
    unfolding at_partition
    at_partition-ne change b e q = ground (arith, e (s.partitions q))

    pub index_one-IsIndexed : IsIndexed projectors (index_one a p s)
    unfolding index_one after touched
    index_one-IsIndexed = elim (Option-cases (s.records a)) [
      | inl e ↦ rw (index_one, e) h
      | inr (r, e) ↦
          rw (index_one, e)
            (after-IsIndexed s a r p true e _ _
              (λ q. has-with_member Partition-discrete q p r.memberships)
              (at_partition_self (with_member ℕ_discrete a) true
                (λ xs. ground (arith, has-with_member ℕ_discrete a a xs)))
              (λ b q n.
                at_partition-ne (with_member ℕ_discrete a) b
                  (λ xs. ground (arith, has-with_member ℕ_discrete b a xs)) q)
              (inl refl) h)
    ]

    -- A record that is registered is not taken out of the partitions of its key.
    pub unindex_one-IsIndexed :
        (IsFree p ⊎ ((id : String) → get String_discrete id s.entries ≢ some a))
        → IsIndexed projectors (unindex_one a p s)
    unfolding unindex_one after touched
    unindex_one-IsIndexed c = elim (Option-cases (s.records a)) [
      | inl e ↦ rw (unindex_one, e) h
      | inr (r, e) ↦
          rw (unindex_one, e)
            (after-IsIndexed s a r p false e _ _
              (λ q. has-without_member Partition-discrete q p r.memberships)
              (at_partition_self (without_member ℕ_discrete a) false
                (λ xs. ground (arith, has-without_member ℕ_discrete a a xs)))
              (λ b q n.
                at_partition-ne (without_member ℕ_discrete a) b
                  (λ xs. ground (arith, has-without_member ℕ_discrete b a xs)) q)
              (inr (elim c [ inl free ↦ inl free | inr gone ↦ inr (unlisted s a r gone) ])) h)
    ]
