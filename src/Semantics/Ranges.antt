-- ===== src/Semantics/Ranges.antt =====
-- src/action-semantics.ts: the projector of read ranges keeps to partitions.
use pi_speculative_action.Semantics.ReadRange.{
  ReadActionRange, read_action_range, read_projection_partition, same_partition, relates,
  project_read, read_range_action_key_projector,
}
use pi_speculative_action.Prelude.{
  ℕ, ◌≤◌, ◌+◌, Bool, true, false, Option, none, some, String, ◌≡◌, refl, arith, >>=-eq-some,
  require, ◌>>◌, inl, inr, List, [], ◌∷◌, All, has, has-cons_self, Option-cases,
}
use pi_speculative_action.Semantics.Matching.{Offers, here, there}
use pi_speculative_action.Semantics.{
  ActionKey, ActionKeyProjector, ProjectedActionKey, same, projection, Partition-discrete,
  with_partition, action_key_projection_partitions,
}

-- Two keys that a projection relates are in one partition.
abbrev pub KeepsPartitions : ActionKeyProjector → Type 0
KeepsPartitions projector =
    (speculative actor : ActionKey) (p : ProjectedActionKey)
    → projector.project speculative actor ≡ some p
    → (t : String) × (projector.partition speculative ≡ some t)
      × (projector.partition actor ≡ some t)

module _ (stringify : String → String → String → List String → String → String) where
  -- What the projection of a read shows of the two ranges.
  pub record Projects (speculative actor : ActionKey) : Type 0 where
    pub s : ReadActionRange
    pub a : ReadActionRange
    pub of_speculative : read_action_range speculative ≡ some s
    pub of_actor : read_action_range actor ≡ some a
    pub in_partition :
        same_partition stringify
          (read_projection_partition stringify speculative)
          (read_projection_partition stringify actor)
        ≡ true
    pub from : s.offset ≤ a.offset
    pub adjoins : a.offset ≤ s.end + 1

  required :
      (b : Bool) (x : ProjectedActionKey) {p : ProjectedActionKey}
      → (require b >> some x) ≡ some p
      → b ≡ true
  required true x h = refl
  required false x h = cc

  relates-true :
      (speculative actor : ActionKey) (s a : ReadActionRange)
      → relates stringify speculative actor s a ≡ true
      → (same_partition stringify
            (read_projection_partition stringify speculative)
            (read_projection_partition stringify actor)
          ≡ true)
        × (s.offset ≤ a.offset)
        × (a.offset ≤ s.end + 1)
  unfolding relates
  relates-true speculative actor s a h = ground arith

  project_read-Projects :
      (speculative actor : ActionKey) {p : ProjectedActionKey}
      → project_read stringify speculative actor ≡ some p
      → Projects speculative actor
  unfolding project_read
  project_read-Projects speculative actor h =
      let (s, e, h') = >>=-eq-some (read_action_range speculative) _ h in
      let (a, f, h'') = >>=-eq-some (read_action_range actor) _ h' in
      let t =
        relates-true speculative actor s a
          (required (relates stringify speculative actor s a) _ h'') in
      record {
        s = s;
        a = a;
        of_speculative = e;
        of_actor = f;
        in_partition = t.0;
        from = t.1;
        adjoins = t.2;
      }

  same_partition-some :
      (x y : Option String) (t : String)
      → x ≡ some t
      → same_partition stringify x y ≡ true
      → y ≡ some t
  unfolding same_partition same
  same_partition-some none y t e h = cc
  same_partition-some (some x) none t e h = cc
  same_partition-some (some x) (some y) t e h = ground arith

  read_projection_partition-some :
      (action : ActionKey) {range : ReadActionRange}
      → read_action_range action ≡ some range
      → (t : String) × (read_projection_partition stringify action ≡ some t)
  unfolding read_projection_partition
  read_projection_partition-some action {range} e = (
    stringify action.semantics_epoch action.schema_hash action.execution_fingerprint
        action.resources range.path,
    rw e,
  )

  -- The projection of a read relates two keys of one partition.
  pub read_range-KeepsPartitions : KeepsPartitions (read_range_action_key_projector stringify)
  unfolding read_range_action_key_projector
  read_range-KeepsPartitions speculative actor p h =
      let w = project_read-Projects speculative actor h in
      let (t, e) = read_projection_partition-some speculative w.of_speculative in
      (t, e, same_partition-some _ _ t e w.in_partition)

projection-project :
    (require_coverage : Bool) (speculative actor : ActionKey) (projector : ActionKeyProjector)
    {distance : ℕ}
    → projection require_coverage speculative actor projector ≡ some distance
    → (p : ProjectedActionKey) × (projector.project speculative actor ≡ some p)
unfolding projection
projection-project require_coverage speculative actor projector h =
    elim (Option-cases (projector.project speculative actor)) [
      | inl e ↦ absurd (ground arith)
      | inr w ↦ w
    ]

-- The partitions of a key hold those that its projectors give.
partitions-cons :
    (action : ActionKey) (projector : ActionKeyProjector) (projectors : List ActionKeyProjector)
    (t : String × String)
    → has Partition-discrete t (action_key_projection_partitions action projectors) ≡ true
    → has Partition-discrete t (action_key_projection_partitions action (projector ∷ projectors))
      ≡ true
unfolding action_key_projection_partitions with_partition has
partitions-cons action projector projectors t h = ground arith

partitions-own :
    (action : ActionKey) (projector : ActionKeyProjector) (projectors : List ActionKeyProjector)
    (t : String)
    → projector.partition action ≡ some t
    → has Partition-discrete
        (projector.id, t)
        (action_key_projection_partitions action (projector ∷ projectors))
      ≡ true
unfolding action_key_projection_partitions with_partition has
partitions-own action projector projectors t e = rw e (
    ground (
      arith,
      has-cons_self Partition-discrete (projector.id, t)
          (action_key_projection_partitions action projectors),
    ))

-- A projector that offers a projection has put both keys into one of its partitions.
pub Offers-partition :
    (require_coverage : Bool) (speculative actor : ActionKey) (distance : ℕ) (id : String)
    (projectors : List ActionKeyProjector)
    → All KeepsPartitions projectors
    → Offers require_coverage speculative actor distance id projectors
    → (t : String × String) × (has Partition-discrete t
          (action_key_projection_partitions speculative projectors)
        ≡ true)
      × (has Partition-discrete t (action_key_projection_partitions actor projectors) ≡ true)
Offers-partition require_coverage speculative actor distance id [] h o = elim o [ ]
Offers-partition require_coverage speculative actor distance id (projector ∷ projectors) h
      (here e i) =
    let (p, f) = projection-project require_coverage speculative actor projector e in
    let (t, x, y) = h.0 speculative actor p f in
    (
      (projector.id, t),
      partitions-own speculative projector projectors t x,
      partitions-own actor projector projectors t y,
    )
Offers-partition require_coverage speculative actor distance id (projector ∷ projectors) h
      (there o) =
    let (t, x, y) =
      Offers-partition require_coverage speculative actor distance id projectors h.1 o in
    (
      t,
      partitions-cons speculative projector projectors t x,
      partitions-cons actor projector projectors t y,
    )
