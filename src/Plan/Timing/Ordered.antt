-- ===== src/Plan/Timing/Ordered.antt =====
-- src/plan-runtime.ts: the order that `commit` takes from src/dependency-order.ts, and the first loop
-- of `recompute` over it.
use pi_speculative_action.Prelude.{ℕ, true, List, All, is_some, ◌≡◌}
use pi_speculative_action.Order.{finished, dependency_order}
use pi_speculative_action.Order.Sound.{dependency_order-DepsFirst}
use pi_speculative_action.Plan.State.{Ref, Ref-discrete, Runtime, node_of}
use pi_speculative_action.Plan.Timing.{forward}
use pi_speculative_action.Plan.Timing.Edges.{edges}
use pi_speculative_action.Plan.Timing.Forward.{IsTimed, forward-IsTimed}

-- If the traversal from some nodes of the plans returns an order of nodes that are there, then the
-- first loop over this order leaves every node of it with a window in order, which lies behind the
-- window of each of its parents by the batch that the parent takes, and with dependencies that are
-- valid only if every parent is there and has valid dependencies.
pub forward-IsTimed_ordered :
    {I : Type 0} (rt : Runtime I) (fuel : ℕ) (roots : List Ref) {refs : List Ref}
    → dependency_order Ref-discrete (edges rt) fuel roots ≡ finished refs
    → All (λ s. is_some (node_of rt s) ≡ true) refs
    → All (IsTimed (forward refs rt)) refs
forward-IsTimed_ordered rt fuel roots {refs} h there =
    forward-IsTimed refs rt (dependency_order-DepsFirst Ref-discrete (edges rt) fuel roots h).0
      there
