-- ===== src/Plan/Replacement.antt =====
-- src/plan-runtime.ts: `samePlanActionExecution`, which tells whether an action can keep what was run
-- for it. The text of a dependency, which the source counts by, stands for its fields. The
-- comparison of two inputs is that of the platform, a parameter.
pub mod Counts
use pi_speculative_action.Prelude.{
  ℕ, suc, zero, ◌+◌, Bool, true, false, ◌&&◌, ◌||◌, not, Option, none, some, String,
  String_discrete, List, [], ◌∷◌, if◌then◌else◌, get, put, delete, ◌==◌, ◌≡◌,
}
use pi_speculative_action.Plan.Proposal.{Action, Dependency, Condition, Condition-discrete}

-- `negsuc n` is -(n + 1).
pub data ℤ : Type 0 where
  pos negsuc : ℕ → ℤ

-- The two values of `delta`.
pub increment : ℤ → ℤ
increment (pos n) = pos (suc n)
increment (negsuc zero) = pos 0
increment (negsuc (suc n)) = negsuc n

pub decrement : ℤ → ℤ
decrement (pos zero) = negsuc 0
decrement (pos (suc n)) = pos n
decrement (negsuc n) = negsuc (suc n)

unfoldable pub Dependency-discrete : Discrete Dependency
Dependency-discrete = hlevel (String_discrete, Condition-discrete)

abbrev pub Counts : Type 0
Counts = List (Dependency × ℤ)

-- The count of a text, which is 0 where the map has none.
pub count_of : Option ℤ → ℤ
count_of none = pos 0
count_of (some c) = c

-- A count that is 0 is deleted.
pub store_count : Dependency → ℤ → Counts → Counts
store_count d (pos zero) counts = delete Dependency-discrete d counts
store_count d c counts = put Dependency-discrete d c counts

-- The inner loop, with its delta.
pub count_all : (ℤ → ℤ) → List Dependency → Counts → Counts
unfolding count_of store_count
count_all delta [] counts = counts
count_all delta (d ∷ ds) counts =
    count_all delta ds (store_count d (delta (count_of (get Dependency-discrete d counts))) counts)

pub is_empty : Counts → Bool
is_empty [] = true
is_empty (e ∷ es) = false

same_flag : Bool → Bool → Bool
same_flag true b = b
same_flag false b = not b

-- Operations are compared by reference.
same_operation : Option ℕ → Option ℕ → Bool
same_operation none none = true
same_operation (some a) (some b) = a == b
same_operation _ _ = false

same_tool : String → String → Bool
same_tool a b = elim (String_discrete a b) [ yes _ ↦ true | no _ ↦ false ]

module _ {I : Type 0} (same_input : I → I → Bool) where
  -- The first test of `samePlanActionExecution`, negated.
  unfoldable pub same_call : Action I → Action I → Bool
  unfolding same_flag same_operation same_tool
  same_call left right =
      same_flag left.is_operation right.is_operation
      && same_operation left.operation_ref right.operation_ref
      && same_tool left.tool right.tool
      && same_input left.input right.input

  unfoldable pub same_plan_action_execution : Action I → Action I → Bool
  unfolding count_all is_empty
  same_plan_action_execution left right =
      if same_call left right
      then is_empty (count_all decrement right.depends_on (count_all increment left.depends_on []))
      else false
