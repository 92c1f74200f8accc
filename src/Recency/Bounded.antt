-- ===== src/Recency/Bounded.antt =====
-- src/bounded-recency-map.ts: no key stands twice, and the map does not grow past its capacity.
use pi_speculative_action.Prelude.{
  inr, inl, Bool-cases, Option-cases, suc, ℕ, ◌≤◌, true, Option, none, some, List, [], ◌∷◌, length,
  ◌≡◌, arith, get, delete, length-append,
}
use pi_speculative_action.Recency.{
  Capacity, not_a_number, unlimited, at_most, RecencyMap, shift, refreshed, recall, evict, set,
  get_or_create, within, created, create, capacity_of,
}
use pi_speculative_action.Recency.Distinct.{
  length-delete_lt, Distinct, shift-Distinct, refreshed-Distinct, length-delete_le,
}
use pi_speculative_action.Numbers.{Number}

-- The calls of the class.
pub data MapCall {ℓ κ} (K : Type ℓ) (V : Type κ) : Type (ℓ ⊔ κ) where
  recalls : K → MapCall K V
  creates : K → (Unit {0} → Option V) → MapCall K V
  sets : K → V → MapCall K V

-- A capacity that is NaN lets no entry stay.
abbrev pub Room : Capacity → ℕ → Type 0
Room not_a_number n = n ≤ 0
Room unlimited n = Unit
Room (at_most c) n = n ≤ c

Room-le : (c : Capacity) (n k : ℕ) → Room c n → k ≤ n → Room c k
Room-le not_a_number n k h l = omega arith
Room-le unlimited n k h l = tt
Room-le (at_most c) n k h l = omega arith

Room-within : (c : Capacity) (n : ℕ) → within n c ≡ true → Room c n
unfolding within
Room-within not_a_number n h = cc
Room-within unlimited n h = tt
Room-within (at_most c) n h = ground arith

Room-empty : (c : Capacity) → Room c 0
Room-empty not_a_number = omega arith
Room-empty unlimited = tt
Room-empty (at_most c) = omega arith

module _ {ℓ κ} {K : Type ℓ} {V : Type κ} where
  -- The invariant of the map.
  pub record IsRecencyMap (m : RecencyMap K V) : Type (ℓ ⊔ κ) where
    pub distinct : Distinct m.entries
    pub bounded : Room m.capacity (length m.entries)

  create-IsRecencyMap : (capacity : Number) → IsRecencyMap (create {K = K} {V = V} capacity)
  unfolding create
  create-IsRecencyMap capacity = record {
    distinct = tt;
    bounded = Room-empty (capacity_of capacity);
  }

  shift-Room :
      (c : Capacity) (m : List (K × V)) (n : ℕ)
      → length m ≤ suc n
      → Room c n
      → Room c (length (shift m).0)
  unfolding shift
  shift-Room c [] n l h = Room-empty c
  shift-Room c ((k, v) ∷ m) n l h = Room-le c n (length m) h (omega arith)

  evict-IsRecencyMap :
      (m : RecencyMap K V) (n : ℕ)
      → Distinct m.entries
      → length m.entries ≤ suc n
      → Room m.capacity n
      → IsRecencyMap (evict m).0
  unfolding evict
  evict-IsRecencyMap m n d l h = elim (Bool-cases (within (length m.entries) m.capacity)) [
    | inl e ↦ rw e (record { distinct = d; bounded = Room-within m.capacity (length m.entries) e })
    | inr e ↦ rw e (record {
      distinct = shift-Distinct m.entries d;
      bounded = shift-Room m.capacity m.entries n l h;
    })
  ]

module _ {ℓ κ} {K : Type ℓ} {V : Type κ} (dec : Discrete K) where
  unfoldable pub perform : MapCall K V → RecencyMap K V → RecencyMap K V
  perform (recalls k) m = (recall dec k m).0
  perform (creates k make) m = (get_or_create dec k make m).0
  perform (sets k v) m = (set dec k v m).0

  unfoldable pub run : List (MapCall K V) → RecencyMap K V → RecencyMap K V
  unfolding perform
  run [] m = m
  run (c ∷ cs) m = run cs (perform c m)

  length-refreshed_le :
      (k : K) (v : V) (m : List (K × V)) → length (refreshed dec k v m) ≤ suc (length m)
  unfolding refreshed
  length-refreshed_le k v m =
      omega (arith, length-append (delete dec k m) ((k, v) ∷ []), length-delete_le dec k m)

  -- A key that is there leaves and comes back.
  length-refreshed_present :
      (k : K) (v w : V) (m : List (K × V))
      → get dec k m ≡ some w
      → length (refreshed dec k v m) ≤ length m
  unfolding refreshed
  length-refreshed_present k v w m h =
      omega (arith, length-append (delete dec k m) ((k, v) ∷ []), length-delete_lt dec k m w h)

  set-IsRecencyMap :
      (k : K) (v : V) (m : RecencyMap K V) → IsRecencyMap m → IsRecencyMap (set dec k v m).0
  unfolding set
  set-IsRecencyMap k v m h =
      evict-IsRecencyMap (record m { entries = refreshed dec k v m.entries }) (length m.entries)
        (refreshed-Distinct dec k v m.entries h.distinct) (length-refreshed_le k v m.entries)
        h.bounded

  recall-IsRecencyMap :
      (k : K) (m : RecencyMap K V) → IsRecencyMap m → IsRecencyMap (recall dec k m).0
  unfolding recall
  recall-IsRecencyMap k m h = elim (Option-cases (get dec k m.entries)) [
    | inl e ↦ rw (recall, e) h
    | inr (v, e) ↦
        rw (recall, e)
          (record {
            distinct = refreshed-Distinct dec k v m.entries h.distinct;
            bounded =
                Room-le m.capacity (length m.entries) _ h.bounded
                  (length-refreshed_present k v v m.entries e);
          })
  ]

  created-IsRecencyMap :
      (k : K) (made : Option V) (m : RecencyMap K V)
      → IsRecencyMap m
      → IsRecencyMap (created dec k made m).0
  unfolding created
  created-IsRecencyMap k none m h = h
  created-IsRecencyMap k (some v) m h = set-IsRecencyMap k v m h

  perform-IsRecencyMap :
      (c : MapCall K V) (m : RecencyMap K V) → IsRecencyMap m → IsRecencyMap (perform c m)
  unfolding perform get_or_create
  perform-IsRecencyMap (recalls k) m h = recall-IsRecencyMap k m h
  perform-IsRecencyMap (creates k make) m h = elim (Option-cases (recall dec k m).1) [
    | inl e ↦
        rw (perform, get_or_create, e)
          (created-IsRecencyMap k (make tt) (recall dec k m).0 (recall-IsRecencyMap k m h))
    | inr (v, e) ↦ rw (perform, get_or_create, e) (recall-IsRecencyMap k m h)
  ]
  perform-IsRecencyMap (sets k v) m h = set-IsRecencyMap k v m h

  run_sound :
      (cs : List (MapCall K V)) (m : RecencyMap K V) → IsRecencyMap m → IsRecencyMap (run cs m)
  unfolding run
  run_sound [] m h = h
  run_sound (c ∷ cs) m h = run_sound cs (perform c m) (perform-IsRecencyMap c m h)

  -- Whatever calls a new map gets, no key stands in it twice, and it holds at most as many entries as
  -- its capacity, none if that is NaN.
  pub run-create-IsRecencyMap :
      (cs : List (MapCall K V)) (capacity : Number) → IsRecencyMap (run cs (create capacity))
  run-create-IsRecencyMap cs capacity =
      run_sound cs (create capacity) (create-IsRecencyMap capacity)
