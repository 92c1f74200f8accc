-- ===== src/Budget/Accounts.antt =====
-- src/drafter-budget.ts: what is reserved is what the requests under way have reserved.
use pi_speculative_action.Prelude.{
  ◌&&◌, ltb, ℕ, ◌+◌, ◌-◌, ◌≤◌, List, [], ◌∷◌, ◌++◌, All, if◌then◌else◌, ◌==◌, ◌≡◌, refl, arith,
  All-imp, Option-cases, Bool-cases, inl, inr,
}
use pi_speculative_action.Budget.{
  spent, tokens_of, prompt_of, Policy, Budget, write, skip, renew, available, Request, Reservation,
  Admission, throws, suppressed, admitted, charge, admit, admit_available, begin, Response, settle,
  new_budget,
}

-- What the requests under way have reserved in one object.
unfoldable pub owed : ℕ → List Reservation → ℕ
owed n [] = 0
owed n (r ∷ rs) = (if n == r.owner then r.amount else 0) + owed n rs

pub record IsAccounted (b : Budget) (pending : List Reservation) : Type 0 where
  pub balanced : (n : ℕ) → (b.states n).reserved ≡ owed n pending
  pub recent : All (λ r. r.owner ≤ b.current) pending

pub owed_split :
    (n : ℕ) (before after : List Reservation) (r : Reservation)
    → owed n (before ++ (r ∷ after))
      ≡ (if n == r.owner then r.amount else 0) + owed n (before ++ after)
unfolding owed
owed_split n [] after r = refl
owed_split n (x ∷ before) after r = omega (arith, owed_split n before after r)

owed_new : (c : ℕ) (rs : List Reservation) → All (λ r. r.owner ≤ c) rs → owed (c + 1) rs ≡ 0
unfolding owed
owed_new c [] h = refl
owed_new c (r ∷ rs) h = ground (arith, owed_new c rs h.1)

All-without :
    (P : Reservation → Type 0) (before after : List Reservation) (r : Reservation)
    → All P (before ++ (r ∷ after))
    → All P (before ++ after)
All-without P [] after r h = h.1
All-without P (x ∷ before) after r h = (h.0, All-without P before after r h.1)

pub new_budget-IsAccounted : IsAccounted new_budget []
unfolding owed
new_budget-IsAccounted = record { balanced = λ n. refl; recent = tt }

skip-IsAccounted : (b : Budget) (rs : List Reservation) → IsAccounted b rs → IsAccounted (skip b) rs
unfolding skip write
skip-IsAccounted b rs h = record { balanced = λ n. ground (arith, h.balanced n); recent = h.recent }

renew-IsAccounted :
    (b : Budget) (rs : List Reservation) → IsAccounted b rs → IsAccounted (renew b) rs
unfolding renew write
renew-IsAccounted b rs h = elim (Bool-cases b.finished) [
  | inl e ↦
      rw (renew, e)
        (record {
          balanced = λ n. ground (arith, h.balanced n, owed_new b.current rs h.recent);
          recent = All-imp _ _ (λ r l. omega arith) rs h.recent;
        })
  | inr e ↦ rw (renew, e) (record { balanced = h.balanced; recent = h.recent })
]

charge-IsAccounted :
    (b : Budget) (rs : List Reservation) (r : Reservation)
    → r.owner ≤ b.current
    → IsAccounted b rs
    → IsAccounted (charge r b) (r ∷ rs)
unfolding charge write owed
charge-IsAccounted b rs r l h = record {
  balanced = λ n. ground (arith, h.balanced n);
  recent = (l, h.recent);
}

settle_current :
    (b : Budget) (r : Reservation) (response : Response) → (settle r response b).current ≡ b.current
unfolding settle write
settle_current b r response = ground arith

pub settle-IsAccounted :
    (b : Budget) (before after : List Reservation) (r : Reservation) (response : Response)
    → IsAccounted b (before ++ (r ∷ after))
    → IsAccounted (settle r response b) (before ++ after)
unfolding settle write
settle-IsAccounted b before after r response h = record {
  balanced = λ n. ground (arith, h.balanced n, owed_split n before after r);
  recent =
      rw (settle_current b r response)
        (All-without (λ x. x.owner ≤ b.current) before after r h.recent);
}

pub available-IsAccounted :
    (p : Policy) (b : Budget) (rs : List Reservation)
    → IsAccounted b rs
    → IsAccounted (available p b).0 rs
unfolding available
available-IsAccounted p b rs h =
    let b' = renew b in
    let s = b'.states b'.current in
    elim (Bool-cases (ltb s.requests p.max_requests && ltb (spent s) p.max_tokens)) [
      | inl e ↦ rw (available, e) (renew-IsAccounted b rs h)
      | inr e ↦ rw (available, e) (skip-IsAccounted b' rs (renew-IsAccounted b rs h))
    ]

-- The requests under way after an admission.
unfoldable pub joined : Admission → List Reservation → List Reservation
joined throws rs = rs
joined (suppressed s) rs = rs
joined (admitted r) rs = r ∷ rs

admit-IsAccounted :
    (p : Policy) (r : Request) (b : Budget) (rs : List Reservation)
    → IsAccounted b rs
    → IsAccounted (admit p r b).0 (joined (admit p r b).1 rs)
unfolding admit joined
admit-IsAccounted p r b rs h =
    let tokens = tokens_of r (p.max_tokens - spent (b.states b.current)) in
    elim (Bool-cases (tokens == 0)) [
      | inl e ↦ rw (admit, e) (skip-IsAccounted b rs h)
      | inr e ↦
          rw (admit, e)
            (charge-IsAccounted b rs
              (record { owner = b.current; amount = prompt_of r + tokens; tokens = tokens })
              (omega arith) h)
    ]

pub begin-IsAccounted :
    (p : Policy) (r : Request) (b : Budget) (rs : List Reservation)
    → IsAccounted b rs
    → IsAccounted (begin p r b).0 (joined (begin p r b).1 rs)
unfolding begin admit_available joined
begin-IsAccounted p r b rs h = elim (Bool-cases r.aborted) [
  | inl e ↦ rw (begin, e) h
  | inr e ↦
      rw (begin, e)
        (elim (Option-cases (available p b).1) [
          | inl k ↦
              rw (admit_available, k)
                (admit-IsAccounted p r (available p b).0 rs (available-IsAccounted p b rs h))
          | inr (s, k) ↦ rw (admit_available, k) (available-IsAccounted p b rs h)
        ])
]
