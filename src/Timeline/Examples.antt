-- ===== src/Timeline/Examples.antt =====
-- src/timeline-computation.ts: a root with an owned input.
use pi_speculative_action.Order.Complete.{turns}
use pi_speculative_action.Order.{exhausted, dependency_order}
use pi_speculative_action.Timeline.{
  Text, text_discrete, Field, absent, present, Node, Input, Computation, RawSpan, RawInput, RawNode,
  RawComputation, normalize_timeline_computation, dependencies,
}
use pi_speculative_action.Timeline.Sound.{
  IsComputation, normalize_timeline_computation-IsComputation, dependencies-ne-exhausted,
}
use pi_speculative_action.Numbers.{max_safe_integer, Number, unit}
use pi_speculative_action.Prelude.{
  has, ℕ_discrete, put, ◌≡◌, ◌≢◌, refl, true, false, Option, none, some, List, [], ◌∷◌, get, keys,
}

abbrev raw_span : RawSpan
raw_span = record { started = some (Number.finite_pos 3); completed = some (Number.finite_pos 8) }

abbrev raw_input : RawInput
raw_input = record {
  id = some (2 ∷ []);
  owned = present true;
  reused = absent;
  overhead = absent;
  compute_uncertain = present false;
  shared = absent;
}

abbrev raw_node : Text → Field (List (Option RawInput)) → RawNode
raw_node id inputs = record {
  id = some id;
  clock = some (9 ∷ []);
  time_origin = absent;
  span = raw_span;
  spans = absent;
  prior = absent;
  producer = absent;
  groups = present (some (5 ∷ []) ∷ some (5 ∷ []) ∷ []);
  incomplete = absent;
  inputs = inputs;
}

abbrev raw : RawComputation
raw = record {
  version = some (Number.finite_pos unit);
  root = some (1 ∷ []);
  nodes = some (
      some (raw_node (1 ∷ []) (present (some raw_input ∷ [])))
      ∷ some (raw_node (2 ∷ []) absent)
      ∷ []);
}

abbrev input : Input
input = record {
  id = 2 ∷ [];
  owned = true;
  reused = false;
  overhead = false;
  compute_uncertain = false;
  shared = none;
}

abbrev node : Text → List Input → Node
node id inputs = record {
  id = id;
  clock = 9 ∷ [];
  time_origin = none;
  span = record { started = 3; completed = 8 };
  spans = none;
  prior = none;
  producer = none;
  groups = (5 ∷ []) ∷ [];
  incomplete = false;
  inputs = inputs;
}

abbrev computation : Computation
computation = record {
  version = 1;
  root = 1 ∷ [];
  nodes = node (2 ∷ []) [] ∷ node (1 ∷ []) (input ∷ []) ∷ [];
}

accepted : normalize_timeline_computation raw ≡ some computation
unfolding normalize_timeline_computation unit max_safe_integer get put ℕ_discrete dependency_order
    turns has
accepted = refl

normalize_timeline_computation-IsComputation_example : IsComputation computation
normalize_timeline_computation-IsComputation_example =
    normalize_timeline_computation-IsComputation raw accepted

abbrev by_id : List (Text × Node)
by_id = (1 ∷ [], node (1 ∷ []) (input ∷ [])) ∷ (2 ∷ [], node (2 ∷ []) []) ∷ []

dependencies-ne-exhausted_example :
    dependency_order text_discrete
      (dependencies by_id)
      (turns text_discrete (dependencies by_id) (keys by_id))
      ((1 ∷ []) ∷ [])
    ≢ exhausted
unfolding get text_discrete ℕ_discrete
dependencies-ne-exhausted_example = dependencies-ne-exhausted by_id (1 ∷ []) refl
