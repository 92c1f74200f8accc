-- ===== src/Numbers.antt =====
-- src/number-utils.ts. A JavaScript number is an exact multiple of 2^-1074 or one of the three
-- values that are not finite; -0 is 0. A clamped quantity is a natural number of such units, a count
-- a natural number. An argument that is no number is `none`.
use pi_speculative_action.Prelude.{
  ℕ, ◌+◌, ◌/◌, ◌%◌, ◌<◌, min, max, Bool, true, false, ◌&&◌, Option, none, some, if◌then◌else◌, leb,
  ◌==◌, arith,
}
use Prim.Native.Nat.{◌^◌}

-- `finite_neg n` is -(n + 1) units.
pub data Number : Type 0 where
  nan infinity neg_infinity : Number
  finite_pos finite_neg : ℕ → Number

-- The units of 1.
unfoldable pub unit : ℕ
unit = 2 ^ 1074

pub unit_pos : 0 < unit
unfolding unit
unit_pos = omega arith

-- `Number.MAX_SAFE_INTEGER`
unfoldable pub max_safe_integer : ℕ
max_safe_integer = 9007199254740991

-- `n + 1` of a number that is a count. Above the safe integers the sum is rounded to a number, and of
-- two as near to the one whose half is even.
unfoldable pub increment : ℕ → ℕ
increment n =
    if leb n max_safe_integer
    then n + 1
    else if leb n 18014398509481983 && (n % 4 == 2)
    then n + 2
    else n

unfoldable pub is_finite_number : Option Number → Bool
is_finite_number (some (Number.finite_pos n)) = true
is_finite_number (some (Number.finite_neg n)) = true
is_finite_number _ = false

-- `isSafeCount`, with the count that a value which passes is.
unfoldable pub is_safe_count : Option Number → ℕ → ℕ → Option ℕ
is_safe_count (some (Number.finite_pos n)) minimum maximum =
    let count = n / unit in
    if (n % unit == 0) && leb count max_safe_integer && leb minimum count && leb count maximum
    then some count
    else none
is_safe_count _ minimum maximum = none

unfoldable pub non_negative_finite : Option Number → ℕ
non_negative_finite (some (Number.finite_pos n)) = n
non_negative_finite _ = 0

-- The floor of a negative number is negative.
unfoldable pub non_negative_count : Option Number → ℕ
non_negative_count (some (Number.finite_pos n)) = n / unit
non_negative_count _ = 0

unfoldable pub positive_count : Option Number → ℕ
positive_count (some (Number.finite_pos n)) = max 1 (n / unit)
positive_count _ = 1

unfoldable pub finite_number : Option Number → Option Number
unfolding is_finite_number
finite_number v = if is_finite_number v then v else none

unfoldable pub clamp_probability : Number → ℕ
clamp_probability (Number.finite_pos n) = min unit n
clamp_probability _ = 0
