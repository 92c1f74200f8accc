-- ===== src/Scheduler/Ledger/Circuit.antt =====
-- src/scheduler.ts: how often the circuit of a failing execution lets an owner try again.
use pi_speculative_action.Scheduler.Ledger.{Policy, Scope, Decision, Failure, decide, judge}
use pi_speculative_action.Prelude.{
  sym, leb→le, true, put-put, false, get-put_self, ==-ne, Bool, ◌∙◌, le→leb, ap, ℕ, zero, suc, ◌+◌,
  ◌%◌, ◌≤◌, ◌≡◌, ◌==◌, Option, none, some, get, put, leb, Bool-cases, inl, inr, arith, refl,
}

allowed_of : Option Decision → Bool
allowed_of none = false
allowed_of (some d) = d.allowed

module _ {ω} {O : Type ω} (decO : Discrete O) where
  -- The failure after some consecutive decisions of the host, each judged once.
  unfoldable pub judged : Scope O → ℕ → ℕ → Failure O → Failure O
  judged scope start zero f = f
  judged scope start (suc n) f = (judge decO scope (start + n) (judged scope start n f)).0

  judge_open :
      (scope : Scope O) (now : ℕ) (f : Failure O)
      → scope.policy.failure_threshold ≤ f.count
      → judge decO scope now f ≡ (
          let d = decide scope.policy now (get decO scope.owner f.decisions) in
          (record f { decisions = put decO scope.owner d f.decisions }, d.allowed))
  unfolding judge
  judge_open scope now f h = rw (judge, le→leb scope.policy.failure_threshold f.count h) refl

  count-judged :
      (scope : Scope O) (start n : ℕ) (f : Failure O)
      → scope.policy.failure_threshold ≤ f.count
      → (judged scope start n f).count ≡ f.count
  unfolding judged
  count-judged scope start zero f h = refl
  count-judged scope start (suc n) f h =
      let c = count-judged scope start n f h in
      ap (λ x. x.0.count) (judge_open scope (start + n) (judged scope start n f) (rw c h)) ∙ c

  -- The decision that the owner has after the decisions.
  expected : Policy → ℕ → ℕ → Option Decision
  expected policy start zero = none
  expected policy start (suc n) = some (record {
    sequence = start + n;
    probes = suc n;
    allowed = suc n % policy.failure_retry_decisions == 0;
  })

  decide-expected :
      (policy : Policy) (start n : ℕ)
      → some (decide policy (start + n) (expected policy start n)) ≡ expected policy start (suc n)
  unfolding decide expected
  decide-expected policy start zero = refl
  decide-expected policy start (suc n) =
      let k : suc n + 1 ≡ suc (suc n) = omega arith in
      rw (==-ne (start + n) (start + suc n) (omega arith), k) refl

  get-judged :
      (scope : Scope O) (start n : ℕ) (f : Failure O)
      → scope.policy.failure_threshold ≤ f.count
      → get decO scope.owner f.decisions ≡ none
      → get decO scope.owner (judged scope start n f).decisions ≡ expected scope.policy start n
  unfolding judged expected
  get-judged scope start zero f h e = e
  get-judged scope start (suc n) f h e =
      let g = judged scope start n f in
      let d = decide scope.policy (start + n) (get decO scope.owner g.decisions) in
      ap (λ x. get decO scope.owner x.0.decisions)
        (judge_open scope (start + n) g (rw (count-judged scope start n f h) h))
      ∙ get-put_self decO scope.owner d g.decisions
      ∙ ap (λ o. some (decide scope.policy (start + n) o)) (get-judged scope start n f h e)
      ∙ decide-expected scope.policy start n

  -- A circuit that is open lets the owner pass at every decision whose number, from 1, the retry count
  -- divides, and at no other.
  pub judge-judged :
      (scope : Scope O) (start n : ℕ) (f : Failure O)
      → scope.policy.failure_threshold ≤ f.count
      → get decO scope.owner f.decisions ≡ none
      → (judge decO scope (start + n) (judged scope start n f)).1
        ≡ (suc n % scope.policy.failure_retry_decisions == 0)
  unfolding expected allowed_of
  judge-judged scope start n f h e =
      let g = judged scope start n f in
      let policy = scope.policy in
      ap (λ x. x.1) (judge_open scope (start + n) g (rw (count-judged scope start n f h) h))
      ∙ ap (λ o. (decide policy (start + n) o).allowed) (get-judged scope start n f h e)
      ∙ ap (λ o. allowed_of o) (decide-expected policy start n)

  decide_again :
      (policy : Policy) (now : ℕ) (o : Option Decision)
      → decide policy now (some (decide policy now o)) ≡ decide policy now o
  unfolding decide
  decide_again policy now none = ground arith
  decide_again policy now (some d) = ground arith

  judge_closed :
      (scope : Scope O) (now : ℕ) (f : Failure O)
      → leb scope.policy.failure_threshold f.count ≡ false
      → judge decO scope now f ≡ (f, true)
  unfolding judge
  judge_closed scope now f h = rw (judge, h) refl

  judged_again :
      (scope : Scope O) (now : ℕ) (f : Failure O)
      → (let d = decide scope.policy now (get decO scope.owner f.decisions) in
          let ds = put decO scope.owner d f.decisions in
          let d' = decide scope.policy now (get decO scope.owner ds) in
          Path
            (Failure O × Bool)
            (record f { decisions = put decO scope.owner d' ds }, d'.allowed)
            (record f { decisions = ds }, d.allowed))
  judged_again scope now f =
      let d = decide scope.policy now (get decO scope.owner f.decisions) in
      rw
        (
          get-put_self decO scope.owner d f.decisions,
          decide_again scope.policy now (get decO scope.owner f.decisions),
          put-put decO scope.owner d d f.decisions,
        )
        refl

  -- More calls at one decision change nothing.
  pub judge-judge :
      (scope : Scope O) (now : ℕ) (f : Failure O)
      → judge decO scope now (judge decO scope now f).0 ≡ judge decO scope now f
  judge-judge scope now f = elim (Bool-cases (leb scope.policy.failure_threshold f.count)) [
    | inl h ↦
        let l = leb→le scope.policy.failure_threshold f.count h in
        let d = decide scope.policy now (get decO scope.owner f.decisions) in
        let f' : Failure O = record f { decisions = put decO scope.owner d f.decisions } in
        let p = judge_open scope now f l in
        ap (λ x. judge decO scope now x.0) p
        ∙ judge_open scope now f' l
        ∙ judged_again scope now f
        ∙ sym p
    | inr h ↦ ap (λ x. judge decO scope now x.0) (judge_closed scope now f h)
  ]
