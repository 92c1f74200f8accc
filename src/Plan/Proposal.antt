-- ===== src/Plan/Proposal.antt =====
-- src/plan-proposal.ts: the records that producers hand in (raw), and those that the runtime owns.
use pi_speculative_action.Prelude.{ℕ, Bool, Option, String, List}
use pi_speculative_action.Numbers.{Number}

pub data Condition : Type 0 where
  execution_settled execution_succeeded actor_adopted prediction resource : Condition

pub record RawDependency : Type 0 where
  pub action_id : String
  pub proposal_id : Option String
  pub identity : Option String
  pub condition : Option String
  pub observation : Option String

-- `cross` holds the proposal and the identity of a dependency on another plan.
pub record Dependency : Type 0 where
  pub action_id : String
  pub cross : Option (String × String)
  pub condition : Condition
  pub observation : Option String

pub data ActionType : Type 0 where
  tool_call operation unknown_type : ActionType

-- A demand in CPUs, or by dimension; a value that is no number is `none`.
pub data ResourceDemand : Type 0 where
  cpus : Number → ResourceDemand
  dimensions : List (String × Option Number) → ResourceDemand

-- The reference of an operation comes with whether the object is frozen.
pub record RawAction (I : Type 0) : Type 0 where
  pub id : String
  pub type : ActionType
  pub operation_ref : Option (ℕ × Bool)
  pub tool : String
  pub input : I
  pub horizon : Option Number
  pub latest_horizon : Option Number
  pub resource_demand : Option ResourceDemand
  pub depends_on : Option (List RawDependency)

pub record Action (I : Type 0) : Type 0 where
  pub id : String
  pub is_operation : Bool
  pub operation_ref : Option ℕ
  pub tool : String
  pub input : I
  pub horizon : Option Number
  pub latest_horizon : Option Number
  pub resource_demand : Option ResourceDemand
  pub depends_on : List Dependency

-- `A` is the type of the actions, `R` that of the revision.
pub data PlanUpdate (A R : Type 0) : Type 0 where
  proposal : (id source : String) → R → List A → (retain_descendants : Bool) → PlanUpdate A R
  delta :
      (proposal_id source : String)
      → R
      → (upsert : List A) → (remove : List String) → PlanUpdate A R

pub data Rejection : Type 0 where
  invalid_identity invalid_revision source_mismatch proposal_missing stale_revision duplicate_action
        invalid_action invalid_dependency :
      Rejection

pub Condition-discrete : Discrete Condition
Condition-discrete = hlevel
