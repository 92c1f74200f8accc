-- ===== src/Plan/Replacement/Counts.antt =====
-- src/plan-runtime.ts: the counts of `samePlanActionExecution` compare the dependencies of two actions
-- as bags.
use pi_speculative_action.Prelude.{
  inr, inl, ap, Bool-cases, ℕ, suc, zero, ◌+◌, Bool, true, List, [], ◌∷◌, get, put, delete, All,
  ◌≡◌, ◌≢◌, ◌↔◌, refl, arith, get-put_self, get-put_ne, get-delete_self, get-delete_ne,
}
use pi_speculative_action.Plan.Proposal.{Action, Dependency}
use pi_speculative_action.Plan.Replacement.{
  ℤ, pos, negsuc, increment, decrement, Dependency-discrete, Counts, count_of, store_count,
  count_all, is_empty, same_call, same_plan_action_execution,
}

-- How often a dependency occurs.
abbrev pub occurrences : Dependency → List Dependency → ℕ
occurrences d [] = 0
occurrences d (e ∷ es) = elim (Dependency-discrete d e) [
  | yes _ ↦ suc (occurrences d es)
  | no _ ↦ occurrences d es
]

abbrev pos_part : ℤ → ℕ
pos_part (pos n) = n
pos_part (negsuc n) = 0

abbrev neg_part : ℤ → ℕ
neg_part (pos n) = 0
neg_part (negsuc n) = suc n

increment_parts :
    (c : ℤ) → pos_part (increment c) + neg_part c ≡ neg_part (increment c) + pos_part c + 1
unfolding increment
increment_parts (pos n) = omega arith
increment_parts (negsuc zero) = omega arith
increment_parts (negsuc (suc n)) = omega arith

decrement_parts :
    (c : ℤ) → pos_part (decrement c) + neg_part c + 1 ≡ neg_part (decrement c) + pos_part c
unfolding decrement
decrement_parts (pos zero) = omega arith
decrement_parts (pos (suc n)) = omega arith
decrement_parts (negsuc n) = omega arith

-- The count of a dependency in the map.
value : Dependency → Counts → ℤ
unfolding count_of
value d counts = count_of (get Dependency-discrete d counts)

value-store_count_self :
    (d : Dependency) (c : ℤ) (counts : Counts) → value d (store_count d c counts) ≡ c
unfolding value store_count
value-store_count_self d (pos zero) counts = rw (get-delete_self Dependency-discrete d counts)
value-store_count_self d (pos (suc n)) counts =
    rw (get-put_self Dependency-discrete d (pos (suc n)) counts)
value-store_count_self d (negsuc n) counts =
    rw (get-put_self Dependency-discrete d (negsuc n) counts)

value-store_count_ne :
    (d e : Dependency) (c : ℤ) (counts : Counts)
    → e ≢ d
    → value e (store_count d c counts) ≡ value e counts
unfolding value store_count
value-store_count_ne d e (pos zero) counts h = rw (get-delete_ne Dependency-discrete d e counts h)
value-store_count_ne d e (pos (suc n)) counts h =
    rw (get-put_ne Dependency-discrete d e (pos (suc n)) counts h)
value-store_count_ne d e (negsuc n) counts h =
    rw (get-put_ne Dependency-discrete d e (negsuc n) counts h)

-- A step of the loop moves one count.
value-step :
    (delta : ℤ → ℤ) (d e : Dependency) (counts : Counts)
    → value d (store_count e (delta (value e counts)) counts)
      ≡ (elim (Dependency-discrete d e) [ yes _ ↦ delta (value d counts) | no _ ↦ value d counts ])
value-step delta d e counts =
    elim (Dependency-discrete d e)
      as (λ x.
        value d (store_count e (delta (value e counts)) counts)
        ≡ (elim x [ yes _ ↦ delta (value d counts) | no _ ↦ value d counts ])) [
          | yes p ↦ rw p (value-store_count_self e (delta (value e counts)) counts)
          | no p ↦ value-store_count_ne e d (delta (value e counts)) counts p
        ]

-- No count of the map is 0.
abbrev AllNonzero : Counts → Type 0
AllNonzero = All (λ e. e.1 ≢ pos 0)

delete-AllNonzero :
    (d : Dependency) (counts : Counts)
    → AllNonzero counts
    → AllNonzero (delete Dependency-discrete d counts)
unfolding delete
delete-AllNonzero d [] h = tt
delete-AllNonzero d ((e, c) ∷ counts) h = ground (arith, delete-AllNonzero d counts h.1)

put-AllNonzero :
    (d : Dependency) (c : ℤ) (counts : Counts)
    → c ≢ pos 0
    → AllNonzero counts
    → AllNonzero (put Dependency-discrete d c counts)
unfolding put
put-AllNonzero d c [] n h = (n, tt)
put-AllNonzero d c ((e, b) ∷ counts) n h = ground (arith, put-AllNonzero d c counts n h.1)

store_count-AllNonzero :
    (d : Dependency) (c : ℤ) (counts : Counts)
    → AllNonzero counts
    → AllNonzero (store_count d c counts)
unfolding store_count
store_count-AllNonzero d (pos zero) counts h = delete-AllNonzero d counts h
store_count-AllNonzero d (pos (suc n)) counts h =
    put-AllNonzero d (pos (suc n)) counts (λ e. ground arith) h
store_count-AllNonzero d (negsuc n) counts h = put-AllNonzero d (negsuc n) counts (λ e. cc) h

count_all-AllNonzero :
    (delta : ℤ → ℤ) (ds : List Dependency) (counts : Counts)
    → AllNonzero counts
    → AllNonzero (count_all delta ds counts)
unfolding count_all
count_all-AllNonzero delta [] counts h = h
count_all-AllNonzero delta (d ∷ ds) counts h =
    count_all-AllNonzero delta ds _
      (store_count-AllNonzero d (delta (count_of (get Dependency-discrete d counts))) counts h)

-- Each pass moves the count of a dependency by its occurrences.
count_all-increment :
    (d : Dependency) (ds : List Dependency) (counts : Counts)
    → pos_part (value d (count_all increment ds counts)) + neg_part (value d counts)
      ≡ neg_part (value d (count_all increment ds counts))
        + pos_part (value d counts)
        + occurrences d ds
unfolding count_all value
count_all-increment d [] counts = omega arith
count_all-increment d (e ∷ es) counts = ground (
  arith,
  value-step increment d e counts,
  increment_parts (value d counts),
  count_all-increment d es (store_count e (increment (value e counts)) counts),
)

count_all-decrement :
    (d : Dependency) (ds : List Dependency) (counts : Counts)
    → pos_part (value d (count_all decrement ds counts))
        + neg_part (value d counts)
        + occurrences d ds
      ≡ neg_part (value d (count_all decrement ds counts)) + pos_part (value d counts)
unfolding count_all value
count_all-decrement d [] counts = omega arith
count_all-decrement d (e ∷ es) counts = ground (
  arith,
  value-step decrement d e counts,
  decrement_parts (value d counts),
  count_all-decrement d es (store_count e (decrement (value e counts)) counts),
)

-- What both passes leave: 0 for each dependency, exactly if the map is empty.
is_empty-value :
    (counts : Counts) → is_empty counts ≡ true → (d : Dependency) → value d counts ≡ pos 0
unfolding is_empty value count_of get
is_empty-value [] h d = refl
is_empty-value (e ∷ es) h d = cc

empty_of_value :
    (counts : Counts)
    → AllNonzero counts
    → ((d : Dependency) → value d counts ≡ pos 0)
    → is_empty counts ≡ true
unfolding is_empty value count_of get
empty_of_value [] h k = refl
empty_of_value ((d, c) ∷ es) h k = absurd (h.0 (ground (arith, k d)))

empty_value : (d : Dependency) → value d [] ≡ pos 0
unfolding value count_of get
empty_value d = refl

both_passes :
    (d : Dependency) (left right : List Dependency)
    → let v = value d (count_all decrement right (count_all increment left [])) in
      pos_part v + occurrences d right ≡ neg_part v + occurrences d left
both_passes d left right = omega (
  arith,
  count_all-decrement d right (count_all increment left []),
  count_all-increment d left [],
  ap pos_part (empty_value d),
  ap neg_part (empty_value d),
)

zero_of_parts : (c : ℤ) → pos_part c ≡ neg_part c → c ≡ pos 0
zero_of_parts (pos n) h = ap pos h
zero_of_parts (negsuc n) h = absurd (omega arith)

counts-is_empty :
    (left right : List Dependency)
    → (is_empty (count_all decrement right (count_all increment left [])) ≡ true)
      ↔ ((d : Dependency) → occurrences d left ≡ occurrences d right)
counts-is_empty left right = (
  λ h d.
      let z = is_empty-value _ h d in
      omega (arith, both_passes d left right, ap pos_part z, ap neg_part z),
  λ h.
      empty_of_value _
        (count_all-AllNonzero decrement right _ (count_all-AllNonzero increment left [] tt))
        (λ d. zero_of_parts _ (omega (arith, both_passes d left right, h d))),
)

module _ {I : Type 0} (same_input : I → I → Bool) where
  pub record SameCall (left right : Action I) : Type 0 where
    pub flag : left.is_operation ≡ right.is_operation
    pub operation : left.operation_ref ≡ right.operation_ref
    pub tool : left.tool ≡ right.tool
    pub input : same_input left.input right.input ≡ true

  same_call_iff :
      (left right : Action I) → (same_call same_input left right ≡ true) ↔ SameCall left right
  unfolding same_call
  same_call_iff left right = (λ h. ground arith, λ h. ground arith)

  -- An action keeps what was run for another exactly if both are operations or none is, with the same
  -- operation, tool and input, and each dependency occurs as often in the one as in the other.
  pub same_plan_action_execution_iff :
      (left right : Action I)
      → (same_plan_action_execution same_input left right ≡ true) ↔ (
          SameCall left right
          × ((d : Dependency) → occurrences d left.depends_on ≡ occurrences d right.depends_on))
  unfolding same_plan_action_execution
  same_plan_action_execution_iff left right = elim (Bool-cases (same_call same_input left right)) [
    | inl e ↦ rw e (
      λ h. ((same_call_iff left right).0 e, (counts-is_empty left.depends_on right.depends_on).0 h),
      λ h. (counts-is_empty left.depends_on right.depends_on).1 h.1,
    )
    | inr e ↦ rw e (λ h. cc, λ h. cc ((same_call_iff left right).1 h.0))
  ]
