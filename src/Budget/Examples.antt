-- ===== src/Budget/Examples.antt =====
-- src/drafter-budget.ts: a request, its end and a refused one.
use pi_speculative_action.Prelude.{◌≤◌, false, none, some, [], ◌∷◌, ◌≡◌, refl, arith, ap}
use pi_speculative_action.Budget.{
  reported_of, Policy, Budget, new_budget, Request, Reservation, Response, message, begin, settle,
}
use pi_speculative_action.Budget.Accounts.{IsAccounted, joined}
use pi_speculative_action.Budget.Cap.{
  Session, begins, ends, Reachable, start, next, IsCapped, reported_tokens, Reachable-IsAccounted,
  Reachable-IsCapped,
}

abbrev policy : Policy
policy = record { max_requests = 2; max_tokens = 100 }

abbrev request : Request
request = record {
  estimated = 30;
  input_tokens = some 40;
  option_tokens = none;
  model_tokens = 50;
  context_window = 200;
  aborted = false;
}

abbrev reservation : Reservation
reservation = record { owner = 0; amount = 90; tokens = 50 }

abbrev Permitted : Policy → Type 0
Permitted p = p ≡ policy

abbrev Honest : Reservation → Response → Type 0
Honest r response = reported_tokens response ≤ r.amount

abbrev reserved_once : Budget
reserved_once = (begin policy request new_budget).0

-- After the first reservation ten tokens are left, which are fewer than the prompt.
abbrev session : Session
session = (
  (begin policy request (settle reservation (message (some 60) false) reserved_once)).0,
  joined (begin policy request (settle reservation (message (some 60) false) reserved_once)).1 [],
)

reported_fewer : Honest reservation (message (some 60) false)
unfolding reported_of
reported_fewer = omega arith

reservation_made : joined (begin policy request new_budget).1 [] ≡ reservation ∷ []
unfolding begin joined
reservation_made = refl

session_reached : Reachable Permitted Honest session
unfolding begin joined
session_reached =
    next
      (next (next start (begins policy request refl))
        (ends [] [] reservation (message (some 60) false) reported_fewer))
      (begins policy request refl)

Reachable-IsAccounted_example : IsAccounted session.0 session.1
Reachable-IsAccounted_example = Reachable-IsAccounted session_reached

policies : (p : Policy) → Permitted p → (p.max_requests ≤ 2) × (p.max_tokens ≤ 100)
policies p h =
    (rw (ap (λ x. x.max_requests) h) (omega arith), rw (ap (λ x. x.max_tokens) h) (omega arith))

Reachable-IsCapped_example : IsCapped policy session.0
Reachable-IsCapped_example = Reachable-IsCapped policy policies (λ r response h. h) session_reached
