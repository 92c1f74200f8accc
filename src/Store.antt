-- ===== src/Store.antt =====
-- src/candidate-stores.ts: the registrations of one scope, with their partitions. Records are shared by
-- reference and have addresses; `object` is the identity of an entry. A map entry that is absent or
-- empty is an empty list. The sequence is shared by the scopes, which only advance it.
pub mod Indexed
pub mod Touching
pub mod Calls
pub mod Inserting
pub mod Retention
pub mod Settling
pub mod Entries
pub mod Runs
pub mod Lookup
pub mod Complete
mod Examples
use pi_speculative_action.Prelude.{
  ℕ, suc, ◌+◌, Bool, true, false, ◌&&◌, ◌||◌, not, Option, none, some, String, String_discrete,
  ℕ_discrete, List, [], ◌∷◌, ◌++◌, map, has, get, put, delete, keys, if◌then◌else◌, ◌==◌, ◌>>=◌,
  ◌>>◌, update, is_some,
}
use pi_speculative_action.Numbers.{Number, non_negative_finite as finite_value}
use pi_speculative_action.Settlement.{ActionKeyMatch}
use pi_speculative_action.Semantics.{
  ActionKey, ActionKeyProjector, action_key_match, action_key_projection_partitions,
}

pub record Entry : Type 0 where
  pub id : String
  pub object : ℕ
  pub key : Option ActionKey
  pub estimated_bytes : Option Number

-- The keys of `partitions`, whose tags keep them apart.
pub data Partition : Type 0 where
  pending : Partition
  exact view path_inputs tree_inputs : String → Partition
  projection : String × String → Partition

pub Partition-discrete : Discrete Partition
Partition-discrete = hlevel (String_discrete)

pub record ResultCacheEvidence : Type 0 where
  pub hot : Bool
  pub inserted_at : Number
  pub actor_hits : ℕ
  pub last_actor_hit_at : Option Number

pub record IndexedEntry : Type 0 where
  pub entry : Entry
  pub memberships : List Partition
  pub inputs : Bool
  pub recency : ℕ
  pub result : Option ResultCacheEvidence

pub record Scope : Type 0 where
  pub entries : List (String × ℕ)
  pub partitions : Partition → List ℕ
  pub records : ℕ → Option IndexedEntry
  pub next : ℕ
  pub sequence : ℕ

abbrev pub empty : ℕ → Scope
empty sequence = record {
  entries = [];
  partitions = λ _. [];
  records = λ _. none;
  next = 0;
  sequence = sequence;
}

-- `add` and `delete` of a set, and a map with one changed entry.
pub with_member {ℓ} : {A : Type ℓ} → Discrete A → A → List A → List A
with_member dec a set = if has dec a set then set else set ++ (a ∷ [])

pub without_member {ℓ} : {A : Type ℓ} → Discrete A → A → List A → List A
without_member dec a [] = []
without_member dec a (b ∷ set) =
    let rest = without_member dec a set in elim (dec a b) [ yes _ ↦ rest | no _ ↦ b ∷ rest ]

pub at_partition : Partition → (List ℕ → List ℕ) → (Partition → List ℕ) → Partition → List ℕ
at_partition p change partitions q = elim (Partition-discrete q p) [
  | yes _ ↦ change (partitions q)
  | no _ ↦ partitions q
]

-- The record of an address as it is registered, by its identifier.
pub is_registered : Scope → ℕ → IndexedEntry → Bool
is_registered s a r = elim (get String_discrete r.entry.id s.entries) [
  | none ↦ false
  | some b ↦ a == b
]

-- `record`
pub record_of : Scope → Entry → Option (ℕ × IndexedEntry)
record_of s entry = do
  a ← get String_discrete entry.id s.entries
  r ← s.records a
  if r.entry.object == entry.object then some (a, r) else none

-- `index` and `unindex` of the record at an address.
pub index_one : ℕ → Partition → Scope → Scope
unfolding at_partition with_member
index_one a p s = elim (s.records a) [
  | none ↦ s
  | some r ↦ record s {
    partitions = at_partition p (with_member ℕ_discrete a) s.partitions;
    records =
        update ℕ_discrete s.records a
          (record r { memberships = with_member Partition-discrete p r.memberships });
  }
]

pub unindex_one : ℕ → Partition → Scope → Scope
unfolding at_partition without_member
unindex_one a p s = elim (s.records a) [
  | none ↦ s
  | some r ↦ record s {
    partitions = at_partition p (without_member ℕ_discrete a) s.partitions;
    records =
        update ℕ_discrete s.records a
          (record r { memberships = without_member Partition-discrete p r.memberships });
  }
]

pub index : ℕ → List Partition → Scope → Scope
unfolding index_one
index a [] s = s
index a (p ∷ ps) s = index a ps (index_one a p s)

pub unindex : ℕ → List Partition → Scope → Scope
unfolding unindex_one
unindex a [] s = s
unindex a (p ∷ ps) s = unindex a ps (unindex_one a p s)

entry_at : Scope → ℕ → Option Entry
entry_at s a = do r ← s.records a; some r.entry

pub get_entry : Scope → String → Option Entry
unfolding entry_at
get_entry s id = do a ← get String_discrete id s.entries; entry_at s a

exact_of : Option ActionKey → List Partition
exact_of none = []
exact_of (some k) = exact k.key ∷ []

-- A new record, without its partitions.
pub register : Entry → Scope → Scope
register entry s = record s {
  entries = put String_discrete entry.id s.next s.entries;
  records = update ℕ_discrete s.records s.next (record {
    entry = entry;
    memberships = [];
    inputs = false;
    recency = s.sequence;
    result = none;
  });
  next = suc s.next;
  sequence = suc s.sequence;
}

pub partitions_of : Entry → List (String × String) → List Partition
unfolding exact_of
partitions_of entry partitions = pending ∷ (exact_of entry.key ++ map projection partitions)

-- `add`, with the entry that was there before.
pub add : Entry → List (String × String) → Scope → Scope × Option Entry
unfolding register index get_entry partitions_of
add entry partitions s = elim (get_entry s entry.id) [
  | some existing ↦ (s, some existing)
  | none ↦ (index s.next (partitions_of entry partitions) (register entry s), none)
]

unfoldable pub projection_partitions :
    Option ActionKey → List ActionKeyProjector → List (String × String)
projection_partitions none projectors = []
projection_partitions (some k) projectors = action_key_projection_partitions k projectors

module _ (projectors : List ActionKeyProjector) where
  unfoldable pub insert : Entry → Scope → Scope × Option Entry
  unfolding add projection_partitions
  insert entry s = add entry (projection_partitions entry.key projectors) s

-- `delete`
pub remove : Entry → Scope → Scope × Bool
unfolding record_of unindex
remove entry s = elim (record_of s entry) [
  | none ↦ (s, false)
  | some (a, r) ↦ (
    unindex a r.memberships (record s { entries = delete String_discrete entry.id s.entries }),
    true,
  )
]

entries_at : Scope → List ℕ → List Entry
unfolding entry_at
entries_at s [] = []
entries_at s (a ∷ rest_of) = elim (entry_at s a) [
  | none ↦ entries_at s rest_of
  | some e ↦ e ∷ entries_at s rest_of
]

pub values : Scope → List Entry
unfolding entries_at
values s = entries_at s (map (λ e. e.1) s.entries)

pub pending_entries : Scope → List Entry
unfolding entries_at
pending_entries s = entries_at s (s.partitions pending)

-- `indexView`, with the key of its partition.
pub index_view : Entry → String → Bool → Scope → Scope
unfolding record_of index unindex
index_view entry action_key retained s = elim (record_of s entry) [
  | none ↦ s
  | some (a, r) ↦
      if retained then index a (view action_key ∷ []) s else unindex a (view action_key ∷ []) s
]

input_partitions : List String → List Partition
input_partitions [] = []
input_partitions (resource ∷ resources) =
    path_inputs resource ∷ tree_inputs resource ∷ input_partitions resources

-- `invalidateInputs`, of resources whose paths are resolved.
pub invalidate_inputs : Entry → List String → Scope → Scope
unfolding record_of unindex input_partitions
invalidate_inputs entry resources s = elim (record_of s entry) [
  | none ↦ s
  | some (a, r) ↦ unindex a (input_partitions resources) s
]
