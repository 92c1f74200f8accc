-- ===== src/Store/Settling.antt =====
-- src/candidate-stores.ts: `settle`, and runs of the calls of a store.
use pi_speculative_action.Prelude.{
  ℕ, Bool, true, false, ◌&&◌, ◌||◌, not, Option, none, some, String, ℕ_discrete, List, [], ◌∷◌,
  if◌then◌else◌, update, ◌≡◌,
}
use pi_speculative_action.Numbers.{Number}
use pi_speculative_action.Settlement.{ActionKeyMatch}
use pi_speculative_action.Semantics.{ActionKey, ActionKeyProjector}
use pi_speculative_action.Store.Retention.{Rank, Limits, get_or_create, record_actor_hit, trim}
use pi_speculative_action.Store.{
  Entry, Partition, pending, IndexedEntry, ResultCacheEvidence, Scope, record_of, index, unindex,
  insert, remove, index_view, invalidate_inputs,
}

unfoldable pub or_new : Option ResultCacheEvidence → Number → ResultCacheEvidence
or_new none now = record {
  hot = false;
  inserted_at = now;
  actor_hits = 0;
  last_actor_hit_at = none;
}
or_new (some evidence) now = evidence

unfoldable pub with_result : Number → Bool → IndexedEntry → IndexedEntry
unfolding or_new
with_result now with_inputs r = record r {
  result = some (or_new r.result now);
  inputs = r.inputs || with_inputs;
}

-- A write to the result and the inputs of a record.
unfoldable pub with_evidence : ℕ → Number → Bool → Scope → Scope
unfolding with_result
with_evidence a now with_inputs s = elim (s.records a) [
  | none ↦ s
  | some r ↦ record s { records = update ℕ_discrete s.records a (with_result now with_inputs r) }
]

unfoldable pub has_inputs : Scope → ℕ → Bool
has_inputs s a = elim (s.records a) [ none ↦ false | some r ↦ r.inputs ]

-- The end of `settle`, on the record of the entry.
unfoldable pub settle_record : Option (List Partition) → Bool → Number → ℕ → Scope → Scope
unfolding index with_evidence has_inputs
settle_record none shared now a s = with_evidence a now false s
settle_record (some ps) shared now a s =
    if shared && not (has_inputs s a)
    then index a ps (with_evidence a now true s)
    else with_evidence a now false s

-- `settle`; `resources` are the partitions of the inputs of a branch that has a source or a
-- reconstruction of them.
unfoldable pub settle :
    List ActionKeyProjector → Entry → Option (List Partition) → Bool → Number → Scope → Scope
unfolding insert record_of unindex settle_record
settle projectors entry resources shared now before =
    let s = (insert projectors entry before).0 in
    elim (record_of s entry) [
      | none ↦ s
      | some (a, r) ↦ settle_record resources shared now a (unindex a (pending ∷ []) s)
    ]

-- The calls of a store, with the values that they take.
pub data Call : Type 0 where
  inserts removes : Entry → Call
  views : Entry → String → Bool → Call
  invalidates : Entry → List String → Call
  settles : Entry → Option (List Partition) → Bool → Number → Call
  creates : Rank ActionKeyMatch → ActionKey → Entry → (Entry → ActionKeyMatch → Bool) → Call
  hits : Rank Entry → Entry → Option Limits → Number → Call
  trims : Rank Entry → Limits → (Entry → Bool) → Call

-- What `create` makes has the key that it is made for.
abbrev pub MakesKey : Call → Type 0
MakesKey (creates rank key entry can_reuse) = entry.key ≡ some key
MakesKey _ = Unit

unfoldable pub call : List ActionKeyProjector → Call → Scope → Scope
unfolding insert remove index_view invalidate_inputs settle get_or_create record_actor_hit trim
call projectors (inserts entry) s = (insert projectors entry s).0
call projectors (removes entry) s = (remove entry s).0
call projectors (views entry key retained) s = index_view entry key retained s
call projectors (invalidates entry resources) s = invalidate_inputs entry resources s
call projectors (settles entry resources shared now) s =
    settle projectors entry resources shared now s
call projectors (creates rank key entry can_reuse) s =
    (get_or_create projectors rank key entry can_reuse s).0
call projectors (hits rank entry limits now) s = (record_actor_hit rank entry limits now s).0
call projectors (trims rank limits can_evict) s = (trim rank limits can_evict s).0

unfoldable pub run : List ActionKeyProjector → List Call → Scope → Scope
unfolding call
run projectors [] s = s
run projectors (c ∷ cs) s = run projectors cs (call projectors c s)
