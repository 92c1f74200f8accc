-- ===== src/Plan/Readiness.antt =====
-- src/plan-runtime.ts: `dependencyReadiness`, which follows the dependencies of a node, and what it
-- makes of a node. The stack and the set of visited nodes hold names; the head is the top.
pub mod Reaching
pub mod Sound
pub mod Ending
pub mod Blocked
pub mod Complete
use pi_speculative_action.Prelude.{
  ℕ, zero, suc, Bool, true, false, ◌&&◌, ◌||◌, not, Option, none, some, String, String_discrete,
  List, [], ◌∷◌, has, if◌then◌else◌, is_some, leb,
}
use pi_speculative_action.Settlement.{PredictionSettlement, match_of, prediction_learning}
use pi_speculative_action.Plan.Proposal.{
  Condition, execution_settled, execution_succeeded, actor_adopted, prediction, resource,
  Dependency,
}
use pi_speculative_action.Plan.Opportunity.{OpportunityState, pending, settled}
use pi_speculative_action.Plan.State.{
  NodeExecution, deferred, Ref, Ref-discrete, Node, Runtime, node_of, parent, ref_of,
  opportunity_of, execution_projection, is_settled_execution, is_succeeded_execution,
}

pub data Readiness : Type 0 where
  ready waiting blocked : Readiness

-- `readiness` of a snapshot.
pub data NodeReadiness : Type 0 where
  is_ready is_waiting is_blocked is_finished : NodeReadiness

abbrev pub settlement_of : OpportunityState → Option PredictionSettlement
settlement_of (settled s) = some s
settlement_of _ = none

abbrev is_true : Option Bool → Bool
is_true none = false
is_true (some b) = b

-- Whether a prediction was settled without a match.
unmatched : Option PredictionSettlement → Bool
unmatched none = false
unmatched (some s) = not (is_true (match_of s.outcome))

differs : Option String → Option String → Bool
differs none expected = false
differs (some o) none = true
differs (some o) (some e) = elim (String_discrete o e) [ yes _ ↦ false | no _ ↦ true ]

adoption_readiness : Option PredictionSettlement → Readiness
adoption_readiness none = waiting
adoption_readiness (some s) =
    if is_true (prediction_learning s none).learned_adoption then ready else blocked

abbrev pub is_resource : Condition → Bool
is_resource resource = true
is_resource _ = false

execution_readiness : Condition → NodeExecution → Readiness
execution_readiness condition e = if not (is_settled_execution e) then waiting else elim condition [
  | execution_succeeded ↦ if is_succeeded_execution e then ready else blocked
  | _ ↦ ready
]

pub same_ref : Ref → Ref → Bool
same_ref a b = elim (Ref-discrete a b) [ yes _ ↦ true | no _ ↦ false ]

unfoldable pub is_deferred : NodeExecution → Bool
is_deferred deferred = true
is_deferred _ = false

unfoldable pub combined : OpportunityState → NodeExecution → Readiness → NodeReadiness
unfolding is_deferred
combined (settled s) e r = is_finished
combined o e blocked = is_blocked
combined o e waiting = is_waiting
combined o e ready = if is_deferred e then is_ready else is_waiting

module _ {I : Type 0} where
  -- The function `dependencyReadiness`, of a parent that is there.
  parent_readiness : Runtime I → Node I → Dependency → Bool → Readiness
  unfolding unmatched differs adoption_readiness execution_readiness
  parent_readiness rt node d matching_now =
      let settlement = settlement_of (opportunity_of rt node) in
      elim d.condition [
        | prediction ↦
            if unmatched settlement || differs node.observation d.observation
            then blocked
            else if matching_now && (not (is_some settlement) || not (is_some node.observation))
            then waiting
            else ready
        | actor_adopted ↦ adoption_readiness settlement
        | execution_settled ↦
            execution_readiness execution_settled (execution_projection rt node.execution)
        | execution_succeeded ↦
            execution_readiness execution_succeeded (execution_projection rt node.execution)
        | resource ↦ execution_readiness resource (execution_projection rt node.execution)
      ]

  unfoldable pub dependency_state : Runtime I → Option (Node I) → Dependency → Bool → Readiness
  unfolding parent_readiness
  dependency_state rt none d matching_now = blocked
  dependency_state rt (some node) d matching_now = parent_readiness rt node d matching_now

  -- The loop over the dependencies of one node, of which `root` is the one that is asked for; `none`
  -- where it returns "blocked".
  unfoldable pub check_dependencies :
      Runtime I
      → Bool
      → Bool
      → String
      → List Dependency
      → Readiness
      → List Ref
      → Option (Readiness × List Ref)
  unfolding dependency_state
  check_dependencies rt root matching_now p [] so_far stack = some (so_far, stack)
  check_dependencies rt root matching_now p (d ∷ ds) so_far stack =
      if is_resource d.condition
      then check_dependencies rt root matching_now p ds so_far stack
      else elim (dependency_state rt (parent rt p d) d (matching_now && root)) [
        | blocked ↦ none
        | waiting ↦
            check_dependencies rt root matching_now p ds (if root then waiting else so_far)
              (ref_of p d ∷ stack)
        | ready ↦ check_dependencies rt root matching_now p ds so_far (ref_of p d ∷ stack)
      ]

  -- A popped node that was not visited. A name that is not there cannot be on the stack.
  unfoldable pub visit_node :
      Runtime I
      → Ref
      → Bool
      → Ref
      → Option (Node I)
      → Readiness
      → List Ref
      → Option (Readiness × List Ref)
  unfolding check_dependencies same_ref
  visit_node rt root matching_now ref none so_far stack = none
  visit_node rt root matching_now ref (some node) so_far stack =
      if node.valid_dependencies
      then check_dependencies rt (same_ref ref root) matching_now node.identity.proposal_id
          node.action.depends_on so_far stack
      else none

  -- The `while`, on fuel; `none` where the fuel runs out.
  unfoldable pub follow :
      ℕ → Runtime I → Ref → Bool → List Ref → List Ref → Readiness → Option Readiness
  unfolding visit_node
  follow zero rt root matching_now visited stack so_far = none
  follow (suc fuel) rt root matching_now visited [] so_far = some so_far
  follow (suc fuel) rt root matching_now visited (ref ∷ stack) so_far =
      elim (has Ref-discrete ref visited) [
        | true ↦ follow fuel rt root matching_now visited stack so_far
        | false ↦ elim (visit_node rt root matching_now ref (node_of rt ref) so_far stack) [
          | none ↦ some blocked
          | some r ↦ follow fuel rt root matching_now (ref ∷ visited) r.1 r.0
        ]
      ]

  unfoldable pub dependency_readiness : ℕ → Runtime I → Ref → Bool → Option Readiness
  unfolding follow
  dependency_readiness fuel rt ref matching_now =
      follow fuel rt ref matching_now [] (ref ∷ []) ready

  -- `isMatchable`, with the readiness that the dependencies have for a match.
  unfoldable pub is_matchable : Node I → OpportunityState → ℕ → Readiness → Bool
  is_matchable node pending sequence ready = leb node.earliest_decision_seq sequence
  is_matchable node o sequence r = false
