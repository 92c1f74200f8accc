-- ===== src/Plan/Apply/Ending.antt =====
-- src/plan-runtime.ts: `apply` has an end.
use pi_speculative_action.Prelude.{
  ℕ, ◌≤◌, max, Bool, true, ◌&&◌, Option, none, some, String, String_discrete, List, [], ◌∷◌, All,
  All-has_self, has-keys, get, keys, is_some, ◌≡◌, ◌≢◌, ◌∙◌, refl, arith, ap, inl, inr, Bool-cases,
  Option-cases,
}
use pi_speculative_action.Numbers.{Number}
use pi_speculative_action.Order.{Outcome, exhausted, rejected, finished}
use pi_speculative_action.Order.Complete.{Known, IsClosed}
use pi_speculative_action.Order.Fuel.{dependency_order-Settled}
use pi_speculative_action.Plan.Proposal.{Action, RawAction, Dependency, PlanUpdate, Rejection}
use pi_speculative_action.Plan.Capture.{Result, ok, refused, capture}
use pi_speculative_action.Plan.State.{Runtime, parent}
use pi_speculative_action.Plan.Materialize.{differ}
use pi_speculative_action.Plan.Commit.{UpdateResult, rejected_update}
use pi_speculative_action.Plan.Commit.Ending.{Ends, commit-Ends}
use pi_speculative_action.Plan.Apply.{
  Actions, vertices_of, action_edges, commit_ordered, apply_actions, apply_captured, apply,
}

module _ {I : Type 0} (rt : Runtime I) (id : String) (actions : Actions I) where
  IsKnown : Option String → Type 0
  IsKnown = Known String_discrete (action_edges rt id actions) (keys actions)

  vertices_of-IsKnown : (ds : List Dependency) → All IsKnown (vertices_of rt id actions ds)
  unfolding vertices_of IsKnown
  vertices_of-IsKnown [] = tt
  vertices_of-IsKnown (d ∷ ds) = elim (Option-cases d.cross) [
    | inl c ↦ elim (Bool-cases (is_some (get String_discrete d.action_id actions))) [
      | inl e ↦ rw (c, e) (has-keys String_discrete d.action_id actions e, vertices_of-IsKnown ds)
      | inr e ↦ rw (c, e) (tt, vertices_of-IsKnown ds)
    ]
    | inr ((name, pin), c) ↦ elim (Bool-cases (differ name id && is_some (parent rt id d))) [
      | inl e ↦ rw (c, e) (vertices_of-IsKnown ds)
      | inr e ↦ rw (c, e) (tt, vertices_of-IsKnown ds)
    ]
  ]

  edges_of-IsKnown :
      (action : Option (Action I))
      → All IsKnown (elim action [ none ↦ [] | some a ↦ vertices_of rt id actions a.depends_on ])
  edges_of-IsKnown none = tt
  edges_of-IsKnown (some action) = vertices_of-IsKnown action.depends_on

  pub action_edges-IsClosed : IsClosed String_discrete (action_edges rt id actions) (keys actions)
  unfolding action_edges IsKnown
  action_edges-IsClosed name h = edges_of-IsKnown (get String_discrete name actions)

module _ {I : Type 0} (same_input : I → I → Bool)
    (named : String → String → String → ℕ → String) where
  commit_ordered-Ends :
      (id source : String) (revision : ℕ) (actions : Actions I) (upserted : List (Action I))
      (anchor : Option Number) (rt : Runtime I) (o : Outcome (List String))
      → o ≢ exhausted
      → Ends (λ fuel.
        commit_ordered same_input named fuel id source revision actions upserted anchor rt o)
  unfolding commit_ordered
  commit_ordered-Ends id source revision actions upserted anchor rt exhausted h = absurd (h refl)
  commit_ordered-Ends id source revision actions upserted anchor rt rejected h =
      (0, _, (λ e. cc), λ fuel l. refl)
  commit_ordered-Ends id source revision actions upserted anchor rt (finished names) h =
      commit-Ends same_input named _ rt

  -- Two stages on the same fuel.
  Ends-after :
      {A : Type 0} (first : ℕ → Outcome A) (o : Outcome A) (enough : ℕ)
      (next : ℕ → Outcome A → UpdateResult I)
      → ((fuel : ℕ) → enough ≤ fuel → first fuel ≡ o)
      → Ends (λ fuel. next fuel o)
      → Ends (λ fuel. next fuel (first fuel))
  Ends-after first o enough next same (enough', result, ne, same') = (
    max enough enough',
    result,
    ne,
    λ fuel l. ap (next fuel) (same fuel (omega arith)) ∙ same' fuel (omega arith),
  )

  apply_actions-Ends :
      (reason : Option Rejection) (id source : String) (revision : ℕ) (actions : Actions I)
      (upserted : List (Action I)) (anchor : Option Number) (rt : Runtime I)
      → Ends (λ fuel.
        apply_actions same_input named fuel reason id source revision actions upserted anchor rt)
  unfolding apply_actions
  apply_actions-Ends (some reason) id source revision actions upserted anchor rt =
      (0, _, (λ e. cc), λ fuel l. refl)
  apply_actions-Ends none id source revision actions upserted anchor rt =
      let (o, ne, same) =
        dependency_order-Settled String_discrete (action_edges rt id actions) (keys actions)
          (keys actions) (action_edges-IsClosed rt id actions)
          (All-has_self String_discrete (keys actions)) in
      Ends-after _ o _
        (λ fuel. commit_ordered same_input named fuel id source revision actions upserted anchor rt)
        same (commit_ordered-Ends id source revision actions upserted anchor rt o ne)

  captured-Ends :
      (captured : Result (PlanUpdate (Action I) ℕ)) (anchor : Option Number) (rt : Runtime I)
      → Ends (λ fuel. elim captured [
        | refused reason ↦ rejected_update reason
        | ok update ↦ apply_captured same_input named fuel update anchor rt
      ])
  unfolding apply_captured
  captured-Ends (refused reason) anchor rt = (0, _, (λ e. cc), λ fuel l. refl)
  captured-Ends (ok update) anchor rt = apply_actions-Ends _ _ _ _ _ _ anchor rt

  -- The application of any update to any state ends: from some fuel on, its result is one and the
  -- same, an accepted or a rejected update or the exception of a graph without an order.
  pub apply-Ends :
      (snapshot : I → Option I) (update : PlanUpdate (RawAction I) (Option Number))
      (anchor : Option Number) (rt : Runtime I)
      → Ends (λ fuel. apply same_input named fuel snapshot update anchor rt)
  unfolding apply
  apply-Ends snapshot update anchor rt = captured-Ends (capture snapshot update true) anchor rt
