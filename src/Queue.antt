-- ===== src/Queue.antt =====
-- src/post-settlement.ts: `BoundedEventQueue`, in the pieces that run between two waits. The first of
-- the pending events is the one that is being delivered, since the loop of `drain` runs whenever
-- there is one.
pub mod Order
mod Examples
use pi_speculative_action.Prelude.{
  ℕ, Bool, true, false, ◌||◌, Option, none, some, List, [], ◌∷◌, ◌++◌, length, if◌then◌else◌, leb,
}
use pi_speculative_action.Numbers.{Number, is_safe_count, max_safe_integer}

-- `awaited` is whether `idle` is set, which `flush` waits for.
pub record Queue {ℓ} (E : Type ℓ) : Type ℓ where
  pub capacity : ℕ
  pub pending : List E
  pub awaited : Bool
  pub closed : Bool

pub is_empty {ℓ} : {A : Type ℓ} → List A → Bool
is_empty [] = true
is_empty (x ∷ xs) = false

module _ {ℓ} {E : Type ℓ} where
  -- The constructor throws at a capacity that is no positive count.
  unfoldable pub create : Option Number → Option (Queue E)
  create capacity = elim (is_safe_count capacity 1 max_safe_integer) [
    | none ↦ none
    | some n ↦ some (record { capacity = n; pending = []; awaited = false; closed = false })
  ]

  -- Whether the event is taken.
  unfoldable pub enqueue : E → Queue E → Queue E × Bool
  enqueue e q =
      if q.closed || leb q.capacity (length q.pending)
      then (q, false)
      else (record q { pending = q.pending ++ (e ∷ []) }, true)

  -- Whether the call has to wait.
  unfoldable pub flush : Queue E → Queue E × Bool
  unfolding is_empty
  flush q = if is_empty q.pending then (q, false) else (record q { awaited = true }, true)

  unfoldable pub close : Bool → Queue E → Queue E × Bool
  unfolding flush
  close drain q =
      let q' : Queue E = record q { closed = true } in if drain then flush q' else (q', false)

  -- The delivery of the first event ends, whether or not it fails. At the end of the loop those who
  -- wait are released.
  unfoldable pub after_delivery : List E → Queue E → Queue E
  after_delivery [] q = q
  after_delivery (e ∷ []) q = record q { pending = []; awaited = false }
  after_delivery (e ∷ (f ∷ rest)) q = record q { pending = f ∷ rest }

  unfoldable pub delivered : Queue E → Queue E
  unfolding after_delivery
  delivered q = after_delivery q.pending q

pub data QueueCall {ℓ} (E : Type ℓ) : Type ℓ where
  enqueues : E → QueueCall E
  flushes delivers : QueueCall E
  closes : Bool → QueueCall E

module _ {ℓ} {E : Type ℓ} where
  unfoldable pub perform : QueueCall E → Queue E → Queue E
  unfolding enqueue flush close delivered
  perform (enqueues e) q = (enqueue e q).0
  perform flushes q = (flush q).0
  perform delivers q = delivered q
  perform (closes drain) q = (close drain q).0

  unfoldable pub run : List (QueueCall E) → Queue E → Queue E
  unfolding perform
  run [] q = q
  run (c ∷ cs) q = run cs (perform c q)
