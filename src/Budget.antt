-- ===== src/Budget.antt =====
-- src/drafter-budget.ts: `DrafterTaskBudget`. Token counts are natural numbers, and a difference that
-- the source takes below 0 is 0 here, where it is only compared with 0. `states` holds the objects
-- that `this.state` has named, since a request keeps the one that it started with.
mod Accounts
pub mod Cap
mod Examples
use pi_speculative_action.Prelude.{
  ℕ, ◌+◌, ◌-◌, min, max, Bool, true, false, ◌&&◌, ◌||◌, not, Option, none, some, if◌then◌else◌, ltb,
  leb, ◌==◌,
}

pub record Spending : Type 0 where
  pub requests : ℕ
  pub reported : ℕ
  pub unreported : ℕ
  pub reserved : ℕ
  pub skipped : ℕ

abbrev pub empty : Spending
empty = record { requests = 0; reported = 0; unreported = 0; reserved = 0; skipped = 0 }

pub data Suppression : Type 0 where
  request_limit token_limit context_limit : Suppression

pub record Policy : Type 0 where
  pub max_requests : ℕ
  pub max_tokens : ℕ

pub record Budget : Type 0 where
  pub states : ℕ → Spending
  pub current : ℕ
  pub finished : Bool

abbrev pub new_budget : Budget
new_budget = record { states = λ _. empty; current = 0; finished = false }

-- `spent`
unfoldable pub spent : Spending → ℕ
spent s = s.reported + s.unreported + s.reserved

unfoldable pub write : ℕ → Spending → Budget → Budget
write k s b = record b { states = λ n. if n == k then s else b.states n }

unfoldable pub skip : Budget → Budget
unfolding write
skip b = let s = b.states b.current in write b.current (record s { skipped = s.skipped + 1 }) b

-- The first line of `available`.
unfoldable pub renew : Budget → Budget
unfolding write
renew b =
    if b.finished
    then write (b.current + 1) empty (record b { current = b.current + 1; finished = false })
    else b

-- `available`, with the reason of a refusal.
unfoldable pub available : Policy → Budget → Budget × Option Suppression
unfolding renew spent skip
available p b =
    let b' = renew b in
    let s = b'.states b'.current in
    if ltb s.requests p.max_requests && ltb (spent s) p.max_tokens
    then (b', none)
    else (skip b', some (if leb p.max_requests s.requests then request_limit else token_limit))

-- What `run` reads of its input: the two estimates of the prompt, the limit of the options and those
-- of the model, and whether the signal is aborted.
pub record Request : Type 0 where
  pub estimated : ℕ
  pub input_tokens : Option ℕ
  pub option_tokens : Option ℕ
  pub model_tokens : ℕ
  pub context_window : ℕ
  pub aborted : Bool

pub record Reservation : Type 0 where
  pub owner : ℕ
  pub amount : ℕ
  pub tokens : ℕ

pub data Admission : Type 0 where
  throws : Admission
  suppressed : Suppression → Admission
  admitted : Reservation → Admission

or_else : ℕ → Option ℕ → ℕ
or_else d none = d
or_else d (some n) = n

unfoldable pub prompt_of : Request → ℕ
unfolding or_else
prompt_of r = max r.estimated (or_else 0 r.input_tokens)

-- `maxTokens`, of the tokens that remain.
unfoldable pub tokens_of : Request → ℕ → ℕ
unfolding or_else prompt_of
tokens_of r remaining =
    let output =
      min (min (or_else r.model_tokens r.option_tokens) r.model_tokens)
        (r.context_window - prompt_of r) in
    min output (remaining - prompt_of r)

unfoldable pub charge : Reservation → Budget → Budget
unfolding write
charge r b =
    let s = b.states r.owner in
    write r.owner (record s { requests = s.requests + 1; reserved = s.reserved + r.amount }) b

-- `run` from the reservation to the call of `complete`.
unfoldable pub admit : Policy → Request → Budget → Budget × Admission
unfolding spent tokens_of prompt_of skip charge
admit p r b =
    let tokens = tokens_of r (p.max_tokens - spent (b.states b.current)) in
    let reservation : Reservation = record {
      owner = b.current;
      amount = prompt_of r + tokens;
      tokens = tokens;
    } in
    if tokens == 0
    then (
      skip b,
      suppressed (if leb r.context_window (prompt_of r) then context_limit else token_limit),
    )
    else (charge reservation b, admitted reservation)

admit_available : Policy → Request → Budget × Option Suppression → Budget × Admission
unfolding admit
admit_available p r (b, none) = admit p r b
admit_available p r (b, some s) = (b, suppressed s)

unfoldable pub begin : Policy → Request → Budget → Budget × Admission
unfolding available admit_available
begin p r b = if r.aborted then (b, throws) else admit_available p r (available p b)

-- How `complete` ends: it throws, or it gives a message with the tokens of its usage, which are
-- `none` if they are not finite or negative, and whether it stopped by an error or an abort.
pub data Response : Type 0 where
  thrown : Response
  message : Option ℕ → Bool → Response

unfoldable pub reported_of : Response → Option ℕ
reported_of thrown = none
reported_of (message none failed) = none
reported_of (message (some n) failed) = if ltb 0 n || not failed then some n else none

-- `run` after the call of `complete`, `finally` included.
unfoldable pub settle : Reservation → Response → Budget → Budget
unfolding reported_of write
settle r response b =
    let s = b.states r.owner in
    elim (reported_of response) [
      | none ↦
          write r.owner
            (record s { reserved = s.reserved - r.amount; unreported = s.unreported + r.amount }) b
      | some n ↦
          write r.owner (record s { reported = s.reported + n; reserved = s.reserved - r.amount }) b
    ]

unfoldable pub finish_task : Budget → Budget
finish_task b = record b { finished = true }
