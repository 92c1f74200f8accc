-- ===== src/Budget/Cap.antt =====
-- src/drafter-budget.ts: the calls of a budget in any order, and the limits that they keep.
use pi_speculative_action.Prelude.{
  ℕ, ◌+◌, ◌-◌, ◌≤◌, Bool, true, none, some, List, [], ◌∷◌, ◌++◌, ◌≡◌, arith, Option-cases,
  Bool-cases, inl, inr, ◌&&◌, ltb, ◌==◌,
}
use pi_speculative_action.Budget.{
  Policy, Budget, new_budget, spent, write, skip, renew, available, Request, Reservation, charge,
  tokens_of, prompt_of, admit, admit_available, begin, Response, reported_of, settle, finish_task,
}
use pi_speculative_action.Budget.Accounts.{
  owed_split, joined, IsAccounted, new_budget-IsAccounted, available-IsAccounted, begin-IsAccounted,
  settle-IsAccounted,
}

-- What a request ends with is charged in full or reported.
abbrev pub reported_tokens : Response → ℕ
reported_tokens response = elim (reported_of response) [ none ↦ 0 | some n ↦ n ]

-- A budget with the requests under way.
abbrev pub Session : Type 0
Session = Budget × List Reservation

-- The calls, of policies and with responses that the environment permits.
pub data Step (Permitted : Policy → Type 0) (Honest : Reservation → Response → Type 0)
    : Session → Session → Type 0 where
  asks :
      {b : Budget} {rs : List Reservation} (p : Policy)
      → Permitted p
      → Step Permitted Honest (b, rs) ((available p b).0, rs)
  begins :
      {b : Budget} {rs : List Reservation} (p : Policy) (r : Request)
      → Permitted p
      → Step Permitted Honest (b, rs) ((begin p r b).0, joined (begin p r b).1 rs)
  ends :
      {b : Budget} (before after : List Reservation) (r : Reservation) (response : Response)
      → Honest r response
      → Step Permitted Honest (b, before ++ (r ∷ after)) (settle r response b, before ++ after)
  finishes :
      {b : Budget} {rs : List Reservation} → Step Permitted Honest (b, rs) (finish_task b, rs)

pub data Reachable (Permitted : Policy → Type 0) (Honest : Reservation → Response → Type 0)
    : Session → Type 0 where
  start : Reachable Permitted Honest (new_budget, [])
  next :
      {s t : Session}
      → Reachable Permitted Honest s
      → Step Permitted Honest s t
      → Reachable Permitted Honest t

pub record IsCapped (limit : Policy) (b : Budget) : Type 0 where
  pub few : (n : ℕ) → (b.states n).requests ≤ limit.max_requests
  pub cheap : (n : ℕ) → spent (b.states n) ≤ limit.max_tokens

skip-IsCapped : (limit : Policy) (b : Budget) → IsCapped limit b → IsCapped limit (skip b)
unfolding skip write spent
skip-IsCapped limit b h = record {
  few = λ n. ground (arith, h.few n);
  cheap = λ n. ground (arith, h.cheap n);
}

renew-IsCapped : (limit : Policy) (b : Budget) → IsCapped limit b → IsCapped limit (renew b)
unfolding renew write spent
renew-IsCapped limit b h = record {
  few = λ n. ground (arith, h.few n);
  cheap = λ n. ground (arith, h.cheap n);
}

abbrev is_open : Policy → Budget → Bool
is_open p b =
    let s = b.states b.current in ltb s.requests p.max_requests && ltb (spent s) p.max_tokens

available-IsCapped :
    (limit p : Policy) (b : Budget) → IsCapped limit b → IsCapped limit (available p b).0
unfolding available
available-IsCapped limit p b h = elim (Bool-cases (is_open p (renew b))) [
  | inl e ↦ rw (available, e) (renew-IsCapped limit b h)
  | inr e ↦ rw (available, e) (skip-IsCapped limit (renew b) (renew-IsCapped limit b h))
]

available_open :
    (p : Policy) (b : Budget) → (available p b).1 ≡ none → is_open p (available p b).0 ≡ true
unfolding available
available_open p b h = elim (Bool-cases (is_open p (renew b))) [
  | inl e ↦ rw (available, e) e
  | inr e ↦ cc (rw (available, e) at h)
]

charge-IsCapped :
    (limit : Policy) (b : Budget) (r : Reservation)
    → (b.states r.owner).requests + 1 ≤ limit.max_requests
    → spent (b.states r.owner) + r.amount ≤ limit.max_tokens
    → IsCapped limit b
    → IsCapped limit (charge r b)
unfolding charge write spent
charge-IsCapped limit b r k l h = record {
  few = λ n. ground (arith, h.few n, k);
  cheap = λ n. ground (arith, h.cheap n, l);
}

tokens_of_le : (r : Request) (remaining : ℕ) → tokens_of r remaining ≤ remaining - prompt_of r
unfolding tokens_of
tokens_of_le r remaining = omega arith

admit-IsCapped :
    (limit p : Policy) (r : Request) (b : Budget)
    → p.max_requests ≤ limit.max_requests
    → p.max_tokens ≤ limit.max_tokens
    → is_open p b ≡ true
    → IsCapped limit b
    → IsCapped limit (admit p r b).0
unfolding admit
admit-IsCapped limit p r b k l o h =
    let tokens = tokens_of r (p.max_tokens - spent (b.states b.current)) in
    elim (Bool-cases (tokens == 0)) [
      | inl e ↦ rw (admit, e) (skip-IsCapped limit b h)
      | inr e ↦
          rw (admit, e)
            (charge-IsCapped limit b
              (record { owner = b.current; amount = prompt_of r + tokens; tokens = tokens })
              (ground arith)
              (ground (arith, tokens_of_le r (p.max_tokens - spent (b.states b.current)))) h)
    ]

begin-IsCapped :
    (limit p : Policy) (r : Request) (b : Budget)
    → p.max_requests ≤ limit.max_requests
    → p.max_tokens ≤ limit.max_tokens
    → IsCapped limit b
    → IsCapped limit (begin p r b).0
unfolding begin admit_available
begin-IsCapped limit p r b k l h = elim (Bool-cases r.aborted) [
  | inl e ↦ rw (begin, e) h
  | inr e ↦
      rw (begin, e)
        (elim (Option-cases (available p b).1) [
          | inl n ↦
              rw (admit_available, n)
                (admit-IsCapped limit p r (available p b).0 k l (available_open p b n)
                  (available-IsCapped limit p b h))
          | inr (s, n) ↦ rw (admit_available, n) (available-IsCapped limit p b h)
        ])
]

settle-IsCapped :
    (limit : Policy) (r : Reservation) (response : Response) (b : Budget)
    → r.amount ≤ (b.states r.owner).reserved
    → reported_tokens response ≤ r.amount
    → IsCapped limit b
    → IsCapped limit (settle r response b)
unfolding settle write spent
settle-IsCapped limit r response b k l h = record {
  few = λ n. ground (arith, h.few n, h.few r.owner);
  cheap = λ n. ground (arith, h.cheap n, h.cheap r.owner);
}

module _ {Permitted : Policy → Type 0} {Honest : Reservation → Response → Type 0} where
  -- Whatever calls are made of a budget, in any order and with any responses: what each of its
  -- objects counts as reserved is the sum of the reservations of the requests under way that it was
  -- charged for, so that nothing stays reserved when none is under way.
  pub Reachable-IsAccounted : {s : Session} → Reachable Permitted Honest s → IsAccounted s.0 s.1
  unfolding finish_task
  Reachable-IsAccounted start = new_budget-IsAccounted
  Reachable-IsAccounted (next {s = (b, rs)} h (asks p k)) =
      available-IsAccounted p b rs (Reachable-IsAccounted h)
  Reachable-IsAccounted (next {s = (b, rs)} h (begins p r k)) =
      begin-IsAccounted p r b rs (Reachable-IsAccounted h)
  Reachable-IsAccounted (next {s = (b, _)} h (ends before after r response k)) =
      settle-IsAccounted b before after r response (Reachable-IsAccounted h)
  Reachable-IsAccounted (next {s = (b, rs)} h finishes) =
      let i = Reachable-IsAccounted h in record { balanced = i.balanced; recent = i.recent }

  -- If no policy goes beyond a limit and no response reports more tokens than were reserved for it,
  -- then after any calls no object of the budget counts more requests, or more tokens reported,
  -- charged and reserved together, than the limit.
  pub Reachable-IsCapped :
      (limit : Policy)
      → ((p : Policy)
          → Permitted p
          → (p.max_requests ≤ limit.max_requests) × (p.max_tokens ≤ limit.max_tokens))
      → ((r : Reservation) (response : Response)
          → Honest r response
          → reported_tokens response ≤ r.amount)
      → {s : Session} → Reachable Permitted Honest s
      → IsCapped limit s.0
  unfolding spent finish_task
  Reachable-IsCapped limit permits honest start = record {
    few = λ n. omega arith;
    cheap = λ n. omega arith;
  }
  Reachable-IsCapped limit permits honest (next {s = (b, rs)} h (asks p k)) =
      available-IsCapped limit p b (Reachable-IsCapped limit permits honest h)
  Reachable-IsCapped limit permits honest (next {s = (b, rs)} h (begins p r k)) =
      begin-IsCapped limit p r b (permits p k).0 (permits p k).1
        (Reachable-IsCapped limit permits honest h)
  Reachable-IsCapped limit permits honest (next {s = (b, _)} h (ends before after r response k)) =
      let i = Reachable-IsAccounted h in
      settle-IsCapped limit r response b
        (ground (arith, i.balanced r.owner, owed_split r.owner before after r))
        (honest r response k) (Reachable-IsCapped limit permits honest h)
  Reachable-IsCapped limit permits honest (next {s = (b, rs)} h finishes) =
      let i = Reachable-IsCapped limit permits honest h in record { few = i.few; cheap = i.cheap }
