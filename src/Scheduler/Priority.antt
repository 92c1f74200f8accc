-- ===== src/Scheduler/Priority.antt =====
-- src/scheduler.ts: `compare` and `pressure`. A difference is read by its sign alone, and one of two
-- infinite numbers, which is NaN, as 0. A pressure is an exact ratio.
use Prim.Native.Nat.{compare, Ordering, ◌^◌}
use pi_speculative_action.Prelude.{
  ℕ, ◌*◌, ◌-◌, max, Bool, true, false, Option, none, some, List, [], ◌∷◌, ◌≡◌, refl, arith, leb,
  if◌then◌else◌,
}
use pi_speculative_action.Scheduler.{Dimension, dimensions, Resources, Work, amount}

-- The double 1e-9.
unfoldable pub tiny : ℕ
tiny = 4835703278458517 * 2 ^ 992

-- The next key where the first does not decide, `||`.
unfoldable pub then_by : Ordering → Ordering → Ordering
then_by Ordering.lt o = Ordering.lt
then_by Ordering.eq o = o
then_by Ordering.gt o = Ordering.gt

unfoldable pub swap : Ordering → Ordering
swap Ordering.lt = Ordering.gt
swap Ordering.eq = Ordering.eq
swap Ordering.gt = Ordering.lt

-- `Number(b)`
unfoldable pub bit : Bool → ℕ
bit true = 1
bit false = 0

-- Numbers with Infinity.
unfoldable pub compare_infinite : Option ℕ → Option ℕ → Ordering
compare_infinite none none = Ordering.eq
compare_infinite none (some b) = Ordering.gt
compare_infinite (some a) none = Ordering.lt
compare_infinite (some a) (some b) = compare a b

-- Nothing is known of the remaining time where one duration is absent.
unfoldable pub compare_known : Option ℕ → Option ℕ → Ordering
compare_known none _ = Ordering.eq
compare_known (some a) none = Ordering.eq
compare_known (some a) (some b) = compare a b

unfoldable pub remaining : Work → Option ℕ
remaining w = elim w.expected_duration [ none ↦ none | some d ↦ some (d - w.elapsed) ]

-- `Math.max(0, decisionBatchesUntilCall - criticalPathSteps)`
unfoldable pub distance : Work → Option ℕ
distance w = elim w.batches [ none ↦ none | some b ↦ some (b - w.steps) ]

-- A numerator and a denominator.
abbrev pub Ratio : Type 0
Ratio = ℕ × ℕ

unfoldable pub compare_ratio : Ratio → Ratio → Ordering
compare_ratio (a, b) (c, d) = compare (a * d) (c * b)

-- `demand / Math.max(1e-9, capacity ?? Infinity)`
unfoldable pub share : ℕ → Option ℕ → Ratio
unfolding tiny
share n none = (0, 1)
share n (some c) = (n, max tiny c)

larger_ratio : Ratio → Ratio → Ratio
larger_ratio (a, b) (c, d) = if leb (c * b) (a * d) then (a, b) else (c, d)

largest : (Dimension → Ratio) → List Dimension → Ratio
unfolding larger_ratio
largest f [] = (0, 1)
largest f (key ∷ keys) = larger_ratio (f key) (largest f keys)

unfoldable pub pressure : Resources → Work → Ratio
unfolding share largest amount
pressure capacity w = largest (λ key. share (amount (w.resources key)) (capacity key)) dimensions

-- `compare`
unfoldable pub prefer : Resources → Work → Work → Ordering
unfolding bit compare_infinite compare_known compare_ratio remaining distance pressure then_by
prefer capacity left right = then_by (compare (bit right.actor_demand) (bit left.actor_demand)) (
    then_by (compare_infinite (distance left) (distance right)) (
      then_by (compare (bit right.actor_hint) (bit left.actor_hint)) (
        then_by (compare (bit left.background) (bit right.background)) (
          then_by (compare_infinite left.batches right.batches) (
            then_by (compare right.confidence left.confidence) (
              then_by (compare_ratio (pressure capacity left) (pressure capacity right))
                (compare_known (remaining left) (remaining right))))))))

swap-then_by : (a b : Ordering) → swap (then_by a b) ≡ then_by (swap a) (swap b)
unfolding swap then_by
swap-then_by Ordering.lt b = refl
swap-then_by Ordering.eq b = refl
swap-then_by Ordering.gt b = refl

swap-compare : (a b : ℕ) → swap (compare a b) ≡ compare b a
unfolding swap
swap-compare a b = ground arith

swap-compare_infinite : (a b : Option ℕ) → swap (compare_infinite a b) ≡ compare_infinite b a
unfolding compare_infinite swap
swap-compare_infinite none none = refl
swap-compare_infinite none (some b) = refl
swap-compare_infinite (some a) none = refl
swap-compare_infinite (some a) (some b) = swap-compare a b

swap-compare_known : (a b : Option ℕ) → swap (compare_known a b) ≡ compare_known b a
unfolding compare_known swap
swap-compare_known none none = refl
swap-compare_known none (some b) = refl
swap-compare_known (some a) none = refl
swap-compare_known (some a) (some b) = swap-compare a b

swap-compare_ratio : (a b : Ratio) → swap (compare_ratio a b) ≡ compare_ratio b a
unfolding compare_ratio
swap-compare_ratio (a, b) (c, d) = swap-compare (a * d) (c * b)

swap-then_by_lem :
    (a b a' b' : Ordering) → swap a ≡ a' → swap b ≡ b' → swap (then_by a b) ≡ then_by a' b'
swap-then_by_lem a b a' b' p q = rw (swap-then_by a b, p, q) refl

-- The order of two works is the reverse of the order of the two the other way round.
pub swap-prefer :
    (capacity : Resources) (left right : Work)
    → swap (prefer capacity left right) ≡ prefer capacity right left
unfolding prefer
swap-prefer capacity left right =
    swap-then_by_lem _ _ _ _ (swap-compare (bit right.actor_demand) (bit left.actor_demand)) (
      swap-then_by_lem _ _ _ _ (swap-compare_infinite (distance left) (distance right)) (
        swap-then_by_lem _ _ _ _ (swap-compare (bit right.actor_hint) (bit left.actor_hint)) (
          swap-then_by_lem _ _ _ _ (swap-compare (bit left.background) (bit right.background)) (
            swap-then_by_lem _ _ _ _ (swap-compare_infinite left.batches right.batches) (
              swap-then_by_lem _ _ _ _ (swap-compare right.confidence left.confidence) (
                swap-then_by_lem _ _ _ _
                  (swap-compare_ratio (pressure capacity left) (pressure capacity right))
                  (swap-compare_known (remaining left) (remaining right))))))))
