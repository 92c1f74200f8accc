-- ===== src/Plan/Selections/Claims.antt =====
-- src/plan-runtime.ts: `claimMatch` claims exactly the predictions that can be matched.
use pi_speculative_action.Prelude.{
  ℕ, ◌≤◌, ◌≡◌, ◌≢◌, ◌⊎◌, refl, sym, ap, subst, ◌∙◌, true, false, none, some, String,
  String_discrete, some-injective, arith, inl, inr, Bool-cases, Option-cases,
}
use pi_speculative_action.Settlement.{ActorActionIdentity, ActionKeyMatch}
use pi_speculative_action.Plan.Opportunity.{
  Opportunity, OpportunityState, settled, pending, matching, claim,
}
use pi_speculative_action.Plan.State.{
  Ref, Node, Runtime, node_of, has_identity, opportunity_of, actor_decision_sequence,
}
use pi_speculative_action.Plan.Readiness.{
  Readiness, ready, waiting, blocked, dependency_readiness, is_matchable,
}
use pi_speculative_action.Plan.Readiness.Reaching.{Reaches, IsOpen}
use pi_speculative_action.Plan.Readiness.Ending.{readiness_turns}
use pi_speculative_action.Plan.Readiness.Complete.{
  RootReady, IsReadiness, dependency_readiness-IsReadiness,
}
use pi_speculative_action.Plan.Selections.{
  claim_match, claim_node, claimed_by, can_match, with_opportunity,
}

claim-pending :
    (actor : ActorActionIdentity) (relation : ActionKeyMatch) (o : Opportunity)
    → o.state ≡ pending
    → claim actor relation o ≡ (record o { state = matching actor relation }, true)
unfolding claim
claim-pending actor relation o h = rw (h)

module _ {I : Type 0} where
  is_matchable-eq-true :
      (node : Node I) (s : OpportunityState) (k : ℕ) (r : Readiness)
      → is_matchable node s k r ≡ true
      → (s ≡ pending) × (node.earliest_decision_seq ≤ k) × (r ≡ ready)
  unfolding is_matchable
  is_matchable-eq-true node pending k ready h = (refl, ground arith, refl)
  is_matchable-eq-true node pending k waiting h = cc
  is_matchable-eq-true node pending k blocked h = cc
  is_matchable-eq-true node (matching _ _) k r h = cc
  is_matchable-eq-true node (settled _) k r h = cc

  is_matchable_of :
      (node : Node I) (s : OpportunityState) (k : ℕ) (r : Readiness)
      → s ≡ pending
      → node.earliest_decision_seq ≤ k
      → r ≡ ready
      → is_matchable node s k r ≡ true
  unfolding is_matchable
  is_matchable_of node s k r e l f = rw (e, f, is_matchable) (ground arith)

  opportunity_of-some :
      (rt : Runtime I) (node : Node I) (o : Opportunity)
      → rt.opportunities node.opportunity ≡ some o
      → opportunity_of rt node ≡ o.state
  unfolding opportunity_of
  opportunity_of-some rt node o p = rw (opportunity_of, p)

  module _ (rt : Runtime I) (ref : Ref) (id : String) (actor : ActorActionIdentity) where
    -- A prediction that the actor's action can claim: the node is there under its identity, nothing has
    -- claimed or settled its prediction, its decision has come, all nodes that it depends on are open,
    -- and its own dependencies are ready for a match.
    pub record IsClaimable : Type 0 where
      pub node : Node I
      pub there : node_of rt ref ≡ some node
      pub same_identity : node.identity.id ≡ id
      pub opportunity : Opportunity
      pub owned : rt.opportunities node.opportunity ≡ some opportunity
      pub unclaimed : opportunity.state ≡ pending
      pub is_due : node.earliest_decision_seq ≤ actor_decision_sequence actor
      pub all_open : (a : Ref) → Reaches rt ref true a → IsOpen rt ref true a
      pub is_ready : RootReady rt ref true

    module _ (relation : ActionKeyMatch) (fuel : ℕ) where
      -- What a call does, with the reason.
      abbrev pub Claims : Type 0
      Claims =
          ((c : IsClaimable) × (claim_match fuel ref id actor relation rt
              ≡ some (
                with_opportunity c.node.opportunity
                    (record (c.opportunity) { state = matching actor relation }) rt,
                true,
              )))
          ⊎ ((claim_match fuel ref id actor relation rt ≡ some (rt, false)) × ¬ IsClaimable)

      not_there : node_of rt ref ≡ none → Claims
      unfolding claim_match claim_node has_identity
      not_there e = inr (rw (claim_match, e) refl, λ c. cc (c.there))

      same_node : (node : Node I) → node_of rt ref ≡ some node → (c : IsClaimable) → c.node ≡ node
      same_node node e c = some-injective _ _ (sym c.there ∙ e)

      other_identity : (node : Node I) → node_of rt ref ≡ some node → node.identity.id ≢ id → Claims
      unfolding claim_match claim_node has_identity
      other_identity node e n = inr (
        rw (claim_match, e) (ground arith),
        λ c. n (subst (λ (m : Node I). m.identity.id ≡ id) (same_node node e c) c.same_identity),
      )

      -- A claimable node is matchable.
      IsClaimable-is_matchable :
          (node : Node I) (r : Readiness)
          → node_of rt ref ≡ some node
          → IsReadiness rt ref true r
          → IsClaimable
          → is_matchable node (opportunity_of rt node) (actor_decision_sequence actor) r ≡ true
      IsClaimable-is_matchable node r e i c =
          let same = same_node node e c in
          let unblocked = i.unblocked_iff.1 c.all_open in
          is_matchable_of node (opportunity_of rt node) (actor_decision_sequence actor) r
            (ap (opportunity_of rt) (sym same)
              ∙ opportunity_of-some rt c.node c.opportunity c.owned
              ∙ c.unclaimed)
            (subst (λ (m : Node I). m.earliest_decision_seq ≤ actor_decision_sequence actor) same
              c.is_due)
            ((i.ready_iff unblocked).1 c.is_ready)

      found :
          (node : Node I) (r : Readiness)
          → node_of rt ref ≡ some node
          → has_identity id (some node) ≡ some node
          → node.identity.id ≡ id
          → dependency_readiness fuel rt ref true ≡ some r
          → IsReadiness rt ref true r
          → Claims
      unfolding claim_match claim_node can_match claimed_by
      found node r e g same h i =
          elim (Bool-cases
            (is_matchable node (opportunity_of rt node) (actor_decision_sequence actor) r)) [
              | inr n ↦ inr (
                rw (claim_match, e, g, h, n) refl,
                λ c. cc (n, IsClaimable-is_matchable node r e i c),
              )
              | inl m ↦ elim (Option-cases (rt.opportunities node.opportunity)) [
                | inl p ↦ inr (
                  rw (claim_match, e, g, h, m, p) refl,
                  λ c. cc (
                    p,
                    c.owned,
                    ap (λ (x : Node I). rt.opportunities x.opportunity) (same_node node e c),
                  ),
                )
                | inr (o, p) ↦
                    let (s, l, f) = is_matchable-eq-true node _ _ r m in
                    let open_state = sym (opportunity_of-some rt node o p) ∙ s in
                    inl (
                      record {
                        node = node;
                        there = e;
                        same_identity = same;
                        opportunity = o;
                        owned = p;
                        unclaimed = open_state;
                        is_due = l;
                        all_open = i.unblocked_iff.0 (λ b. cc);
                        is_ready = (i.ready_iff (λ b. cc)).0 f;
                      },
                      rw (claim_match, e, g, h, m, p, claim-pending actor relation o open_state)
                          refl,
                    )
              ]
            ]

      has_identity_self :
          (node : Node I) → node.identity.id ≡ id → has_identity id (some node) ≡ some node
      unfolding has_identity
      has_identity_self node e = ground arith

      -- With fuel for the readiness, an action claims a prediction exactly if it is claimable, with
      -- the relation, and a refused call leaves the state as it is.
      pub claim_match-IsClaimable : readiness_turns rt ≤ fuel → Claims
      claim_match-IsClaimable l =
          let (r, h, i) = dependency_readiness-IsReadiness rt ref true fuel l in
          elim (Option-cases (node_of rt ref)) [
            | inl e ↦ not_there e
            | inr (node, e) ↦ elim (String_discrete node.identity.id id) [
              | yes p ↦ found node r e (has_identity_self node p) p h i
              | no n ↦ other_identity node e n
            ]
          ]
