-- ===== src/Plan/Timing/Windows.antt =====
-- src/plan-runtime.ts: the decision windows after the first loop of `recompute`.
use pi_speculative_action.Prelude.{
  ℕ, ◌+◌, ◌≤◌, true, false, Option, none, some, String, List, [], ◌∷◌, All, ◌≡◌, refl, ◌∙◌, arith,
}
use pi_speculative_action.Plan.Proposal.{Dependency}
use pi_speculative_action.Plan.State.{Node, Runtime, parent, latest_horizon}
use pi_speculative_action.Plan.Timing.{batch_advance, base_window, after_parent, after_parents}

module _ {I : Type 0} where
  -- The window of a node is in order.
  pub record IsWindow (n : Node I) : Type 0 where
    pub early : n.earliest_decision_seq ≤ n.expected_decision_seq
    pub late : n.expected_decision_seq ≤ n.latest_decision_seq

  -- The window of a node lies behind that of a parent, and it is valid only if the parent is.
  abbrev pub Follows : Option (Node I) → Node I → Type 0
  Follows none n = n.valid_dependencies ≡ false
  Follows (some above) n =
      let advance = batch_advance above.action.is_operation in
      (above.earliest_decision_seq + advance ≤ n.earliest_decision_seq)
      × (above.expected_decision_seq + advance ≤ n.expected_decision_seq)
      × (above.latest_decision_seq + advance ≤ n.latest_decision_seq)
      × (n.valid_dependencies ≡ true → above.valid_dependencies ≡ true)

  pub record Later (a b : Node I) : Type 0 where
    pub earliest : a.earliest_decision_seq ≤ b.earliest_decision_seq
    pub expected : a.expected_decision_seq ≤ b.expected_decision_seq
    pub latest : a.latest_decision_seq ≤ b.latest_decision_seq
    pub valid : b.valid_dependencies ≡ true → a.valid_dependencies ≡ true
    pub same_identity : b.identity ≡ a.identity
    pub same_action : b.action ≡ a.action

  Later-refl : (a : Node I) → Later a a
  Later-refl a = record {
    earliest = omega arith;
    expected = omega arith;
    latest = omega arith;
    valid = λ h. h;
    same_identity = refl;
    same_action = refl;
  }

  Later-trans : {a b c : Node I} → Later a b → Later b c → Later a c
  Later-trans p q = record {
    earliest = omega arith;
    expected = omega arith;
    latest = omega arith;
    valid = λ h. p.valid (q.valid h);
    same_identity = q.same_identity ∙ p.same_identity;
    same_action = q.same_action ∙ p.same_action;
  }

  after_parent-Later : (p : Option (Node I)) (n : Node I) → Later n (after_parent p n)
  unfolding after_parent
  after_parent-Later none n = record {
    earliest = omega arith;
    expected = omega arith;
    latest = omega arith;
    valid = λ h. cc;
    same_identity = refl;
    same_action = refl;
  }
  after_parent-Later (some above) n = record {
    earliest = omega arith;
    expected = omega arith;
    latest = omega arith;
    valid = λ h. ground arith;
    same_identity = refl;
    same_action = refl;
  }

  pub after_parents-Later :
      (rt : Runtime I) (proposal : String) (ds : List Dependency) (n : Node I)
      → Later n (after_parents rt proposal ds n)
  unfolding after_parents
  after_parents-Later rt proposal [] n = Later-refl n
  after_parents-Later rt proposal (d ∷ ds) n =
      Later-trans (after_parent-Later (parent rt proposal d) n)
        (after_parents-Later rt proposal ds (after_parent (parent rt proposal d) n))

  after_parent-Follows : (p : Option (Node I)) (n : Node I) → Follows p (after_parent p n)
  unfolding after_parent
  after_parent-Follows none n = refl
  after_parent-Follows (some above) n = (omega arith, omega arith, omega arith, λ h. ground arith)

  Follows-Later : (p : Option (Node I)) (a b : Node I) → Later a b → Follows p a → Follows p b
  Follows-Later none a b l h = ground (arith, l.valid)
  Follows-Later (some above) a b l h = (omega arith, omega arith, omega arith, λ e. h.3 (l.valid e))

  pub after_parents-Follows :
      (rt : Runtime I) (proposal : String) (ds : List Dependency) (n : Node I)
      → All (λ d. Follows (parent rt proposal d) (after_parents rt proposal ds n)) ds
  unfolding after_parents
  after_parents-Follows rt proposal [] n = tt
  after_parents-Follows rt proposal (d ∷ ds) n =
      let first = after_parent (parent rt proposal d) n in
      (
        Follows-Later (parent rt proposal d) first (after_parents rt proposal ds first)
            (after_parents-Later rt proposal ds first)
            (after_parent-Follows (parent rt proposal d) n),
        after_parents-Follows rt proposal ds first,
      )

  abbrev pub WindowOf : Option (Node I) → Type 0
  WindowOf none = Unit
  WindowOf (some n) = IsWindow n

  after_parent-IsWindow :
      (p : Option (Node I)) (n : Node I) → WindowOf p → IsWindow n → IsWindow (after_parent p n)
  unfolding after_parent
  after_parent-IsWindow none n h w = record { early = w.early; late = w.late }
  after_parent-IsWindow (some above) n h w = record { early = omega arith; late = omega arith }

  pub after_parents-IsWindow :
      (rt : Runtime I) (proposal : String) (ds : List Dependency) (n : Node I)
      → All (λ d. WindowOf (parent rt proposal d)) ds
      → IsWindow n
      → IsWindow (after_parents rt proposal ds n)
  unfolding after_parents
  after_parents-IsWindow rt proposal [] n h w = w
  after_parents-IsWindow rt proposal (d ∷ ds) n h w =
      after_parents-IsWindow rt proposal ds (after_parent (parent rt proposal d) n) h.1
        (after_parent-IsWindow (parent rt proposal d) n h.0 w)

  pub base_window-IsWindow : (m : Option ℕ) (n : Node I) → IsWindow (base_window m n)
  unfolding base_window latest_horizon
  base_window-IsWindow none n = record { early = omega arith; late = omega arith }
  base_window-IsWindow (some k) n = record { early = omega arith; late = omega arith }

  pub base_window-same :
      (m : Option ℕ) (n : Node I)
      → ((base_window m n).identity ≡ n.identity) × ((base_window m n).action ≡ n.action)
  unfolding base_window
  base_window-same none n = (refl, refl)
  base_window-same (some k) n = (refl, refl)
