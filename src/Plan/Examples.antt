-- ===== src/Plan/Examples.antt =====
-- src/plan-runtime.ts: a plan of two actions, and runs of an opportunity.
use pi_speculative_action.Numbers.{increment, max_safe_integer}
use pi_speculative_action.Plan.Operations.{reserve_revision}
use pi_speculative_action.Plan.Selections.{claim_match, can_match, with_opportunity}
use pi_speculative_action.Plan.Selections.Claims.{Claims, claim_match-IsClaimable}
use pi_speculative_action.Plan.Operations.{promote, promoted, not_ready, readiness}
use pi_speculative_action.Plan.Operations.Moves.{Operates, operate, operate-Moves}
use pi_speculative_action.Plan.Operations.Offers.{attaches_to}
use pi_speculative_action.Plan.Operations.Reservations.{
  Ascending, IsSafe, reservations, reservations-Ascending,
}
use pi_speculative_action.Plan.Readiness.Complete.{IsReadiness, dependency_readiness-IsReadiness}
use pi_speculative_action.Plan.Readiness.Ending.{readiness_turns, weight, degree}
use pi_speculative_action.Plan.Commit.Ending.{all_refs}
use pi_speculative_action.Plan.Commit.{refs_of}
use pi_speculative_action.Plan.Materialize.{nodes_in}
use pi_speculative_action.Plan.Readiness.{
  is_matchable, Readiness, combined, dependency_readiness, is_waiting,
}
use pi_speculative_action.Prelude.{
  has, get, put, String_discrete, ℕ, ◌≤◌, arith, true, false, none, some, String, List, [], ◌∷◌,
  All, is_some, ◌≡◌, refl, ◌⊎◌,
}
use pi_speculative_action.Settlement.{
  control, PlanActionIdentity, ActorActionIdentity, PredictionAdoption, adopted, matched,
  exact_match,
}
use pi_speculative_action.Order.{finished, dependency_order}
use pi_speculative_action.Plan.Proposal.{Action, Dependency, execution_settled}
use pi_speculative_action.Plan.Opportunity.{
  call, call-matching, matching, same_actor_action, Opportunity, OpportunityCall, claims, confirms,
  misses, unobserves, pending, run, outcome_of, run-outcome_of,
}
use pi_speculative_action.Plan.State.{
  has_identity, actor_decision_sequence, opportunity_of, is_settled_execution, execution_projection,
  Plan, ref_of, pinned, parent, Ref, Ref-discrete, Node, Runtime, deferred, node_of, node_in,
}
use pi_speculative_action.Plan.Timing.{forward}
use pi_speculative_action.Plan.Timing.Edges.{edges, present_parents}
use pi_speculative_action.Plan.Timing.Forward.{IsTimed}
use pi_speculative_action.Plan.Timing.Ordered.{forward-IsTimed_ordered}

abbrev identity : String → PlanActionIdentity
identity action = record {
  is_operation = false;
  id = action;
  source = "drafter";
  proposal_id = "p";
  action_id = action;
}

abbrev action : String → List Dependency → Action (Unit {0})
action id ds = record {
  id = id;
  is_operation = false;
  operation_ref = none;
  tool = "read";
  input = tt;
  horizon = none;
  latest_horizon = none;
  resource_demand = none;
  depends_on = ds;
}

abbrev node : String → List Dependency → ℕ → Node (Unit {0})
node id ds opportunity = record {
  identity = identity id;
  action = action id ds;
  action_key = none;
  anchor_decision_seq = 4;
  earliest_decision_seq = 5;
  expected_decision_seq = 5;
  latest_decision_seq = 5;
  critical_path_steps = 1;
  valid_dependencies = true;
  execution = deferred;
  opportunity = opportunity;
  observation = none;
}

abbrev on_first : Dependency
on_first = record {
  action_id = "a";
  cross = none;
  condition = execution_settled;
  observation = none;
}

abbrev runtime : Runtime (Unit {0})
runtime = record {
  plans =
      (
        "p",
        record {
          id = "p";
          source = "drafter";
          revision = 1;
          next_revision = 2;
          nodes = ("b", node "b" (on_first ∷ []) 1) ∷ ("a", node "a" [] 0) ∷ [];
          graph = 0;
        },
      )
      ∷ [];
  graphs = λ _. none;
  next_graph = 0;
  opportunities = λ _. none;
  next_opportunity = 2;
  owners = λ _. pi_speculative_action.Candidate.queued;
}

abbrev order : List Ref
order = ("p", "a") ∷ ("p", "b") ∷ []

runtime-order : dependency_order Ref-discrete (edges runtime) 9 (("p", "b") ∷ []) ≡ finished order
unfolding dependency_order edges node_of Ref-discrete String_discrete get present_parents parent
    pinned ref_of
runtime-order = refl

runtime_nodes : All (λ s. is_some (node_of runtime s) ≡ true) order
unfolding node_of get String_discrete
runtime_nodes = (refl, (refl, tt))

forward-IsTimed_ordered_example : All (IsTimed (forward order runtime)) order
forward-IsTimed_ordered_example =
    forward-IsTimed_ordered runtime 9 (("p", "b") ∷ []) runtime-order runtime_nodes

abbrev actor : ActorActionIdentity
actor = record {
  is_operation = false;
  id = "call_1";
  sequence = 5;
  decision_sequence = some 5;
  turn_id = "t";
}

abbrev later_actor : ActorActionIdentity
later_actor = record {
  is_operation = false;
  id = "call_2";
  sequence = 6;
  decision_sequence = none;
  turn_id = "t";
}

abbrev opened : Opportunity
opened = record { identity = identity "a"; state = pending }

abbrev claimed : Opportunity
claimed = record { identity = identity "a"; state = matching actor exact_match }

-- A miss after the claim and a confirmation by another action are without effect.
abbrev calls : List OpportunityCall
calls =
    claims actor exact_match
    ∷ misses actor
    ∷ confirms later_actor (adopted "c")
    ∷ confirms actor (adopted "c")
    ∷ unobserves (record { stage = control; code = "closed"; detail = none })
    ∷ []

run-outcome_of_example : (run calls opened).1 ≡ outcome_of (run calls opened).0.state
run-outcome_of_example = run-outcome_of calls opened (unfold outcome_of in refl)

call-matching_example :
    ((call (confirms actor (adopted "c")) claimed).0.state ≡ matching actor exact_match)
    ⊎ ((by : ActorActionIdentity) × (adoption : PredictionAdoption) × (confirms actor (adopted "c")
          ≡ confirms by adoption)
        × (same_actor_action actor by ≡ true)
        × ((call (confirms actor (adopted "c")) claimed).1
            ≡ some (record {
              prediction = identity "a";
              outcome = matched actor exact_match adoption;
            })))
call-matching_example = call-matching (confirms actor (adopted "c")) claimed actor exact_match refl

-- The execution of the first node is attached to a candidate.
operate-Moves_example :
    Operates
      (attaches_to ("p", "a") "c" 7)
      ("p", "a")
      runtime
      (operate (attaches_to ("p", "a") "c" 7) runtime)
operate-Moves_example = operate-Moves (attaches_to ("p", "a") "c" 7) runtime

-- The first node can be promoted, and the second one waits for it.
promotions :
    ((promote 9 ("p", "a") runtime).1 ≡ promoted)
    × ((promote 9 ("p", "b") runtime).1 ≡ not_ready is_waiting)
unfolding promote readiness node_of get String_discrete dependency_readiness has combined
    opportunity_of parent pinned ref_of is_settled_execution execution_projection Ref-discrete
promotions = (refl, refl)

abbrev plan : Plan (Unit {0})
plan = record {
  id = "p";
  source = "drafter";
  revision = 1;
  next_revision = 2;
  nodes = ("b", node "b" (on_first ∷ []) 1) ∷ ("a", node "a" [] 0) ∷ [];
  graph = 0;
}

plan_there : get String_discrete "p" runtime.plans ≡ some plan
unfolding get String_discrete
plan_there = refl

reservations-IsSafe : All IsSafe (reservations "p" (0 ∷ 9 ∷ 0 ∷ []) runtime)
unfolding reservations reserve_revision get put String_discrete increment max_safe_integer
reservations-IsSafe = (omega arith, (omega arith, (omega arith, tt)))

reservations-Ascending_example :
    Ascending 2 (0 ∷ 9 ∷ 0 ∷ []) (reservations "p" (0 ∷ 9 ∷ 0 ∷ []) runtime)
reservations-Ascending_example =
    reservations-Ascending "p" (0 ∷ 9 ∷ 0 ∷ []) runtime plan plan_there reservations-IsSafe

-- Beyond the safe integers a revision is given out again.
given_again :
    reservations "p" (9007199254740992 ∷ 0 ∷ []) runtime
    ≡ some 9007199254740992 ∷ some 9007199254740992 ∷ []
unfolding reservations reserve_revision get put String_discrete increment max_safe_integer
given_again = refl

abbrev open_runtime : Runtime (Unit {0})
open_runtime = record runtime {
  opportunities = λ _. some (record { identity = identity "a"; state = pending });
}

enough_turns : readiness_turns runtime ≤ 9
unfolding readiness_turns weight all_refs refs_of nodes_in degree node_of node_in get has
    String_discrete Ref-discrete
enough_turns = omega arith

-- The readiness of the second node.
dependency_readiness-IsReadiness_example :
    (r : Readiness) × (dependency_readiness 9 runtime ("p", "b") false ≡ some r)
    × IsReadiness runtime ("p", "b") false r
dependency_readiness-IsReadiness_example =
    dependency_readiness-IsReadiness runtime ("p", "b") false 9 enough_turns

enough_open_turns : readiness_turns open_runtime ≤ 9
unfolding readiness_turns weight all_refs refs_of nodes_in degree node_of node_in get has
    String_discrete Ref-discrete
enough_open_turns = omega arith

claim_match-IsClaimable_example : Claims open_runtime ("p", "a") "a" actor exact_match 9
claim_match-IsClaimable_example =
    claim_match-IsClaimable open_runtime ("p", "a") "a" actor exact_match 9 enough_open_turns

-- The prediction is claimed.
claimed_there :
    claim_match 9 ("p", "a") "a" actor exact_match open_runtime
    ≡ some (
      with_opportunity 0
          (record { identity = identity "a"; state = matching actor exact_match })
          open_runtime,
      true,
    )
unfolding claim_match node_of get String_discrete can_match dependency_readiness has opportunity_of
    actor_decision_sequence has_identity node_in with_opportunity is_matchable
claimed_there = refl
