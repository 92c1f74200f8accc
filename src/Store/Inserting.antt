-- ===== src/Store/Inserting.antt =====
-- src/candidate-stores.ts: `insert` keeps the index of a store.

use pi_speculative_action.Prelude.{
  has-map, ℕ, suc, true, false, Option, none, some, String, String_discrete, ℕ_discrete, List, [],
  has, get, put, update, ◌≡◌, ◌≢◌, inl, inr, sym, ◌∙◌, arith, ap, subst, Option-cases,
}
use pi_speculative_action.Semantics.{
  ActionKey, ActionKeyProjector, Partition-discrete as Projection-discrete,
  action_key_projection_partitions,
}
use pi_speculative_action.Store.{
  Entry, exact, projection, Partition-discrete, IndexedEntry, Scope, is_registered, index, register,
  get_entry, partitions_of, exact_of, projection_partitions, add, insert,
}
use pi_speculative_action.Store.Indexed.{IsIndexed, update-eq-some, update-eq-none, unlisted}
use pi_speculative_action.Store.Calls.{
  index-IsIndexed, index-HasAll, index-record, index-entries, enter-IsIndexed,
}

pub update_self {ℓ} :
    {A : Type ℓ} (f : ℕ → Option A) (a : ℕ) (v : A) → update ℕ_discrete f a v a ≡ some v
update_self f a v = ground arith

pub update-ne {ℓ} :
    {A : Type ℓ} (f : ℕ → Option A) (a b : ℕ) (v : A) → b ≢ a → update ℕ_discrete f a v b ≡ f b
update-ne f a b v n = ground arith

module _ (projectors : List ActionKeyProjector) where
  made : Entry → Scope → IndexedEntry
  made entry s = record {
    entry = entry;
    memberships = [];
    inputs = false;
    recency = s.sequence;
    result = none;
  }

  -- A new record that no entry names yet.
  allocate : Entry → Scope → Scope
  unfolding made
  allocate entry s = record s {
    records = update ℕ_discrete s.records s.next (made entry s);
    next = suc s.next;
    sequence = suc s.sequence;
  }

  next-unlisted :
      (s : Scope)
      → IsIndexed projectors s
      → (id : String) → get String_discrete id s.entries ≢ some s.next
  next-unlisted s h id e =
      let (x, k, i) = h.entered id s.next e in cc (h.fresh s.next (omega arith))

  allocate-IsIndexed :
      (entry : Entry) (s : Scope) → IsIndexed projectors s → IsIndexed projectors (allocate entry s)
  unfolding allocate made has
  allocate-IsIndexed entry s h =
      let new = made entry s in
      let unused = h.fresh s.next (omega arith) in
      record {
        entered = λ id a e.
            let (x, k, i) = h.entered id a e in
            (
              x,
              update-ne s.records s.next a new (λ p. next-unlisted s h id (e ∙ ap some p)) ∙ k,
              i,
            );
        filed = λ a x q e. elim (update-eq-some s.records s.next a new e) [
          | inl (p, i) ↦ rw (p, i) (sym (h.absent s.next q unused))
          | inr (n, k) ↦ h.filed a x q k
        ];
        kept = λ a x k e t i. elim (update-eq-some s.records s.next a new e) [
          | inl (p, j) ↦
              cc (unlisted (allocate entry s) a x (λ id g. next-unlisted s h id (g ∙ ap some p)))
          | inr (n, j) ↦ h.kept a x k j (unfold is_registered in t) i
        ];
        absent = λ a q e. h.absent a q (update-eq-none s.records s.next a new e).1;
        fresh =
            λ a l. update-ne s.records s.next a new (λ p. omega arith) ∙ h.fresh a (omega arith);
      }

  has-partitions_of :
      (entry : Entry) (k : ActionKey)
      → entry.key ≡ some k
      → (has Partition-discrete
            (exact k.key)
            (partitions_of entry (projection_partitions entry.key projectors))
          ≡ true)
        × ((t : String × String)
            → has Projection-discrete t (action_key_projection_partitions k projectors) ≡ true
            → has Partition-discrete
                (projection t)
                (partitions_of entry (projection_partitions entry.key projectors))
              ≡ true)
  unfolding partitions_of projection_partitions has
  has-partitions_of entry k e =
      rw (e, exact_of, projection_partitions)
        (
          ground arith,
          λ t h. ground (
            arith,
            has-map projection Projection-discrete Partition-discrete t
                (action_key_projection_partitions k projectors),
          ),
        )

  pub add-IsIndexed :
      (entry : Entry) (s : Scope)
      → IsIndexed projectors s
      → IsIndexed projectors (insert projectors entry s).0
  unfolding insert add register allocate ℕ_discrete
  add-IsIndexed entry s h = elim (Option-cases (get_entry s entry.id)) [
    | inr (x, e) ↦ rw (add, e) h
    | inl e ↦
        let ps = partitions_of entry (projection_partitions entry.key projectors) in
        let t = allocate entry s in
        let ok = index-IsIndexed projectors s.next ps t (allocate-IsIndexed entry s h) in
        let w =
          index-HasAll projectors s.next ps (made entry s) t
            (update_self s.records s.next (made entry s)) in
        rw (add, e)
          (subst (IsIndexed projectors)
            (sym
              (index-record projectors s.next ps t (put String_discrete entry.id s.next s.entries)))
            (subst
              (λ es.
                IsIndexed projectors
                  (record (index s.next ps t) { entries = put String_discrete entry.id s.next es }))
              (index-entries projectors s.next ps t)
              (enter-IsIndexed projectors (index s.next ps t) s.next entry.id w.now ok w.there
                (ap (λ (y : Entry). y.id) w.same_entry)
                (λ k i.
                  let c =
                    has-partitions_of entry k (ap (λ (y : Entry). y.key) (sym w.same_entry) ∙ i) in
                  record {
                    by_key = w.holds (exact k.key) (inl c.0);
                    by_projection = λ u l. w.holds (projection u) (inl (c.1 u l));
                  }))))
  ]
