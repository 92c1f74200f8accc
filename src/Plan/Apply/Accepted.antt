-- ===== src/Plan/Apply/Accepted.antt =====
-- src/plan-runtime.ts: what an update that is accepted has shown, and what it leaves.
use pi_speculative_action.Prelude.{
  ℕ, ◌≤◌, ◌<◌, Bool, true, false, Option, none, some, String, String_discrete, List, [], All, has,
  get, keys, is_some, ◌≡◌, ◌≢◌, refl, arith, Option-cases, inl, inr,
}
use pi_speculative_action.Numbers.{Number}
use pi_speculative_action.Order.{Outcome, exhausted, rejected, finished}
use pi_speculative_action.Order.Invariant.{DepsFirst}
use pi_speculative_action.Order.Sound.{dependency_order-DepsFirst}
use pi_speculative_action.Plan.Proposal.{Action, PlanUpdate}
use pi_speculative_action.Plan.State.{Plan, Runtime}
use pi_speculative_action.Plan.Timing.Shapes.{NodeShape, shape_at}
use pi_speculative_action.Plan.Materialize.{Input, Accepted}
use pi_speculative_action.Plan.Commit.{accepted, revision_after, commit}
use pi_speculative_action.Plan.Commit.Shapes.{node_actions, commit-Committed}
use pi_speculative_action.Plan.Apply.{
  update_id, update_source, update_revision, is_proposal, offered, refusal, actions_after,
  action_edges, commit_ordered, named_actions, apply_actions, apply_captured,
}

module _ {I : Type 0} (same_input : I → I → Bool)
    (named : String → String → String → ℕ → String) where
  -- The plan is there with the source, the revision and the actions of the update, next to the other plans.
  pub record IsApplied (update : PlanUpdate (Action I) ℕ) (rt rt' : Runtime I) : Type 0 where
    pub next : ℕ
    pub nodes : List (String × NodeShape I)
    pub there :
        shape_at rt' (update_id update)
        ≡ some (record {
          source = update_source update;
          revision = update_revision update;
          next_revision = next;
          nodes = nodes;
        })
    pub actions : node_actions nodes ≡ actions_after same_input update rt
    pub others : (name : String) → name ≢ update_id update → shape_at rt' name ≡ shape_at rt name
    pub beyond : update_revision update < next
    pub newer :
        (plan : Plan I)
        → get String_discrete (update_id update) rt.plans ≡ some plan
        → (plan.source ≡ update_source update)
          × (plan.revision < update_revision update)
          × (plan.next_revision ≤ next)
    pub known :
        is_proposal update ≡ false
        → is_some (get String_discrete (update_id update) rt.plans) ≡ true
    -- An order of the actions.
    pub order : List String
    pub ordered :
        DepsFirst String_discrete
          (action_edges rt (update_id update) (actions_after same_input update rt))
          []
          order
    pub covers :
        All (λ id. has String_discrete id order ≡ true) (keys (actions_after same_input update rt))

  refusal-eq-none :
      (whole : Bool) (current : Option (Plan I)) (source : String) (revision : ℕ)
      → refusal whole current source revision ≡ none
      → ((plan : Plan I)
          → current ≡ some plan
          → (plan.source ≡ source) × (plan.revision < revision))
        × (whole ≡ false → is_some current ≡ true)
  unfolding refusal
  refusal-eq-none whole none source revision h = (λ plan e. cc, λ e. ground arith)
  refusal-eq-none whole (some p) source revision h = (λ plan e. ground arith, λ e. refl)

  revision_after-beyond :
      (current : Option (Plan I)) (revision : ℕ)
      → (revision < revision_after current revision)
        × ((plan : Plan I)
            → current ≡ some plan
            → plan.next_revision ≤ revision_after current revision)
  unfolding revision_after
  revision_after-beyond none revision = (omega arith, λ plan e. cc)
  revision_after-beyond (some p) revision = (omega arith, λ plan e. ground arith)

  module _ (fuel : ℕ) where
    input_of : PlanUpdate (Action I) ℕ → Option Number → Runtime I → List String → Input I
    unfolding named_actions offered
    input_of update anchor rt names =
        let actions = actions_after same_input update rt in
        record {
          id = update_id update;
          source = update_source update;
          revision = update_revision update;
          actions = actions;
          upserted = offered update;
          ordered = named_actions actions names;
          anchor_decision_seq = anchor;
        }

    commit_ordered-eq-accepted :
        (update : PlanUpdate (Action I) ℕ) (anchor : Option Number) (rt : Runtime I)
        (o : Outcome (List String)) {rt' : Runtime I} {result : Accepted I}
        → commit_ordered same_input named fuel
            (update_id update)
            (update_source update)
            (update_revision update)
            (actions_after same_input update rt)
            (offered update)
            anchor
            rt
            o
          ≡ accepted rt' result
        → (names : List String) × (o ≡ finished names)
          × (commit same_input named fuel (input_of update anchor rt names) rt
              ≡ accepted rt' result)
    unfolding commit_ordered input_of
    commit_ordered-eq-accepted update anchor rt exhausted h = cc
    commit_ordered-eq-accepted update anchor rt rejected h = cc
    commit_ordered-eq-accepted update anchor rt (finished names) h = (names, refl, h)

    -- An accepted update is newer than the plan that it names, with the same source, and a delta names
    -- one that is there. Afterwards the plan has the source and the revision of the update, a next
    -- revision that is beyond it and has not fallen, and nodes with the actions that the update leaves,
    -- under their keys and in their order; every other plan has the source, the revisions, and the
    -- identities and actions of its nodes that it had. There is an order of all the actions in which
    -- none stands twice, each stands behind those of its plan that it depends on, and no dependency
    -- of theirs is missing.
    pub apply_captured-IsApplied :
        (update : PlanUpdate (Action I) ℕ) (anchor : Option Number) (rt : Runtime I)
        {rt' : Runtime I} {result : Accepted I}
        → apply_captured same_input named fuel update anchor rt ≡ accepted rt' result
        → IsApplied update rt rt'
    unfolding apply_captured apply_actions
    apply_captured-IsApplied update anchor rt h =
        elim (Option-cases (
          refusal (is_proposal update) (get String_discrete (update_id update) rt.plans)
            (update_source update) (update_revision update))) [
              | inr (reason, e) ↦ cc (rw (e, apply_actions) at h)
              | inl e ↦
                  let actions = actions_after same_input update rt in
                  let current = get String_discrete (update_id update) rt.plans in
                  let (names, o, k) =
                    commit_ordered-eq-accepted update anchor rt _ (rw (e, apply_actions) at h) in
                  let c =
                    commit-Committed same_input named fuel (input_of update anchor rt names) rt k in
                  let (sorted, covers) =
                    dependency_order-DepsFirst String_discrete
                      (action_edges rt (update_id update) actions) fuel (keys actions) o in
                  let (newer, known) = refusal-eq-none _ current _ _ e in
                  let (beyond, kept) = revision_after-beyond current (update_revision update) in
                  record {
                    next = revision_after current (update_revision update);
                    nodes = c.nodes;
                    there = unfold input_of in c.there;
                    actions = unfold input_of in c.actions;
                    others = unfold input_of in c.others;
                    beyond = beyond;
                    newer = λ plan p. ((newer plan p).0, (newer plan p).1, kept plan p);
                    known = known;
                    order = names;
                    ordered = sorted;
                    covers = covers;
                  }
            ]
