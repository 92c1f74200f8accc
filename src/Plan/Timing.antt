-- ===== src/Plan/Timing.antt =====
-- src/plan-runtime.ts: `recompute`, which sets the decision windows and the critical paths of the
-- nodes of a graph.
pub mod Edges
pub mod Windows
pub mod Forward
pub mod Ordered
pub mod Shapes
use pi_speculative_action.Prelude.{
  ℕ, ◌+◌, max, Bool, true, false, ◌&&◌, Option, none, some, String, List, [], ◌∷◌, reverse,
}
use pi_speculative_action.Plan.Proposal.{Dependency}
use pi_speculative_action.Plan.State.{
  Ref, Node, Runtime, Graph, node_of, parent, ref_of, set_node, opportunity_of, matched_sequence,
  horizon, latest_horizon,
}

-- `batchAdvance`: an operation takes no batch of its own.
pub batch_advance : Bool → ℕ
batch_advance true = 0
batch_advance false = 1

module _ {I : Type 0} where
  -- The window of a node before its dependencies are looked at.
  pub base_window : Option ℕ → Node I → Node I
  base_window (some matched) node = record node {
    earliest_decision_seq = matched;
    expected_decision_seq = matched;
    latest_decision_seq = matched;
    critical_path_steps = 0;
    valid_dependencies = true;
  }
  base_window none node =
      let anchor = node.anchor_decision_seq in
      record node {
        earliest_decision_seq = anchor + 1;
        expected_decision_seq = anchor + horizon node.action + 1;
        latest_decision_seq = anchor + latest_horizon node.action + 1;
        critical_path_steps = 0;
        valid_dependencies = true;
      }

  -- What one dependency does to the window.
  pub after_parent : Option (Node I) → Node I → Node I
  unfolding batch_advance
  after_parent none node = record node { valid_dependencies = false }
  after_parent (some above) node =
      let advance = batch_advance above.action.is_operation in
      record node {
        earliest_decision_seq =
            max node.earliest_decision_seq (above.earliest_decision_seq + advance);
        expected_decision_seq =
            max node.expected_decision_seq (above.expected_decision_seq + advance);
        latest_decision_seq = max node.latest_decision_seq (above.latest_decision_seq + advance);
        valid_dependencies = node.valid_dependencies && above.valid_dependencies;
      }

  pub after_parents : Runtime I → String → List Dependency → Node I → Node I
  unfolding after_parent
  after_parents rt proposal [] node = node
  after_parents rt proposal (d ∷ ds) node =
      after_parents rt proposal ds (after_parent (parent rt proposal d) node)

  pub timed : Runtime I → Node I → Node I
  unfolding base_window after_parents
  timed rt node =
      after_parents rt node.identity.proposal_id node.action.depends_on
        (base_window (matched_sequence (opportunity_of rt node)) node)

  -- The first loop, on one node of the order.
  pub forward_one : Ref → Runtime I → Runtime I
  unfolding timed
  forward_one ref rt = elim (node_of rt ref) [
    | none ↦ rt
    | some node ↦ set_node ref (timed rt node) rt
  ]

  pub forward : List Ref → Runtime I → Runtime I
  unfolding forward_one
  forward [] rt = rt
  forward (ref ∷ refs) rt = forward refs (forward_one ref rt)

  -- The step count of a parent, from its node.
  raise : ℕ → Option (Node I) → Ref → Runtime I → Runtime I
  raise steps none ref rt = rt
  raise steps (some above) ref rt =
      set_node ref (record above { critical_path_steps = max above.critical_path_steps steps }) rt

  raise_parents : ℕ → String → List Dependency → Runtime I → Runtime I
  unfolding raise
  raise_parents steps proposal [] rt = rt
  raise_parents steps proposal (d ∷ ds) rt =
      raise_parents steps proposal ds (raise steps (parent rt proposal d) (ref_of proposal d) rt)

  -- The second loop, on one node of the order.
  pub backward_one : Ref → Runtime I → Runtime I
  unfolding raise_parents
  backward_one ref rt = elim (node_of rt ref) [
    | none ↦ rt
    | some node ↦
        let steps = node.critical_path_steps + 1 in
        raise_parents steps node.identity.proposal_id node.action.depends_on
          (set_node ref (record node { critical_path_steps = steps }) rt)
  ]

  pub backward : List Ref → Runtime I → Runtime I
  unfolding backward_one
  backward [] rt = rt
  backward (ref ∷ refs) rt = backward refs (backward_one ref rt)

  unfoldable pub recompute : Graph → Runtime I → Runtime I
  unfolding forward backward
  recompute graph rt = backward (reverse graph.ordered) (forward graph.ordered rt)
