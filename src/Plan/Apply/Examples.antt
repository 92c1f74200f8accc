-- ===== src/Plan/Apply/Examples.antt =====
-- src/plan-runtime.ts: an update of a plan by a second action, and the comparison of two actions.
use pi_speculative_action.Plan.Apply.Ending.{apply-Ends}
use pi_speculative_action.Numbers.{unit, Number}
use pi_speculative_action.Plan.Commit.Ending.{Ends}
use pi_speculative_action.Prelude.{
  ◌*◌, Option, ℕ, Bool, true, false, none, some, String, String_discrete, List, [], ◌∷◌, ◌≡◌, ◌↔◌,
  refl, has, get, put, delete, Bool-cases,
}
use pi_speculative_action.Order.{dependency_order}
use pi_speculative_action.Plan.Proposal.{
  tool_call, RawAction, Action, Dependency, execution_settled, PlanUpdate, delta,
}
use pi_speculative_action.Plan.State.{
  Node, Runtime, deferred, Ref-discrete, node_of, node_in, parent, has_identity, pinned, ref_of,
}
use pi_speculative_action.Plan.Replacement.{same_call, same_plan_action_execution}
use pi_speculative_action.Plan.Replacement.Counts.{
  SameCall, occurrences, same_plan_action_execution_iff,
}
use pi_speculative_action.Plan.Commit.{UpdateResult, accepted, commit}
use pi_speculative_action.Plan.Materialize.{
  Accepted, any_dependency, is_local, is_replaced, nodes_in, plan_snapshot, removed_from,
  replaced_from, retired_from, with_text,
}
use pi_speculative_action.Plan.Apply.{
  apply, apply_captured, refusal, actions_after, put_all, delete_all, actions_in, action_edges,
  is_unfit, lacks, named_actions, or_else, order_of, retain_all, retain_descendants, retain_node,
  vertices_of,
}
use pi_speculative_action.Plan.Timing.Edges.{edges, edges_of, present, present_parents}
use pi_speculative_action.Plan.Apply.Accepted.{IsApplied, apply_captured-IsApplied}

abbrev action : String → List Dependency → Action (Unit {0})
action id ds = record {
  id = id;
  is_operation = false;
  operation_ref = none;
  tool = "read";
  input = tt;
  horizon = none;
  latest_horizon = none;
  resource_demand = none;
  depends_on = ds;
}

abbrev on_first : Dependency
on_first = record {
  action_id = "a";
  cross = none;
  condition = execution_settled;
  observation = none;
}

abbrev first_node : Node (Unit {0})
first_node = record {
  identity = record {
    is_operation = false;
    id = "a";
    source = "drafter";
    proposal_id = "p";
    action_id = "a";
  };
  action = action "a" [];
  action_key = none;
  anchor_decision_seq = 0;
  earliest_decision_seq = 1;
  expected_decision_seq = 1;
  latest_decision_seq = 1;
  critical_path_steps = 1;
  valid_dependencies = true;
  execution = deferred;
  opportunity = 0;
  observation = none;
}

abbrev runtime : Runtime (Unit {0})
runtime = record {
  plans =
      (
        "p",
        record {
          id = "p";
          source = "drafter";
          revision = 1;
          next_revision = 2;
          nodes = ("a", first_node) ∷ [];
          graph = 0;
        },
      )
      ∷ [];
  graphs = λ _. some (record { plans = "p" ∷ []; ordered = ("p", "a") ∷ [] });
  next_graph = 1;
  opportunities = λ _. none;
  next_opportunity = 1;
  owners = λ _. pi_speculative_action.Candidate.queued;
}

abbrev same : Unit {0} → Unit {0} → Bool
same a b = true

abbrev named : String → String → String → ℕ → String
named source id action revision = action

abbrev update : PlanUpdate (Action (Unit {0})) ℕ
update = delta "p" "drafter" 2 (action "b" (on_first ∷ []) ∷ []) []

abbrev runtime_of : UpdateResult (Unit {0}) → Runtime (Unit {0})
runtime_of (accepted rt result) = rt
runtime_of _ = runtime

abbrev result_of : UpdateResult (Unit {0}) → Accepted (Unit {0})
result_of (accepted rt result) = result
result_of _ = record {
  plan = record { id = ""; source = ""; revision = 0; actions = [] };
  upserted = [];
  removed = [];
  retired = [];
}

abbrev applied : UpdateResult (Unit {0})
applied = apply_captured same named 9 update none runtime

is_applied : applied ≡ accepted (runtime_of applied) (result_of applied)
unfolding apply_captured refusal get String_discrete dependency_order actions_after put_all put
    delete_all actions_in action_edges commit has edges node_of present_parents Ref-discrete parent
    is_unfit lacks named_actions or_else order_of retain_all retain_descendants retain_node
    vertices_of any_dependency is_local is_replaced nodes_in plan_snapshot removed_from
    replaced_from retired_from with_text same_call same_plan_action_execution has_identity node_in
    pinned ref_of edges_of present delete Bool-cases
is_applied = refl

apply_captured-IsApplied_example : IsApplied same named update runtime (runtime_of applied)
apply_captured-IsApplied_example =
    apply_captured-IsApplied same named 9 update none runtime is_applied

same_plan_action_execution_iff_example :
    (same_plan_action_execution same
        (action "a" (on_first ∷ on_first ∷ []))
        (action "b" (on_first ∷ []))
      ≡ true)
    ↔ (SameCall same (action "a" (on_first ∷ on_first ∷ [])) (action "b" (on_first ∷ []))
        × ((d : Dependency)
            → occurrences d (on_first ∷ on_first ∷ []) ≡ occurrences d (on_first ∷ [])))
same_plan_action_execution_iff_example =
    same_plan_action_execution_iff same (action "a" (on_first ∷ on_first ∷ []))
      (action "b" (on_first ∷ []))

abbrev raw_update : PlanUpdate (RawAction (Unit {0})) (Option Number)
raw_update =
    delta "p" "drafter" (some (Number.finite_pos (2 * unit)))
      (record {
        id = "b";
        type = tool_call;
        operation_ref = none;
        tool = "read";
        input = tt;
        horizon = none;
        latest_horizon = none;
        resource_demand = none;
        depends_on = none;
      }
        ∷ [])
      []

apply-Ends_example : Ends (λ fuel. apply same named fuel some raw_update none runtime)
apply-Ends_example = apply-Ends same named some raw_update none runtime
