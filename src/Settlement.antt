-- ===== src/Settlement.antt =====
-- src/settlement.ts: the causes, identities and settlements that the components exchange, and
-- `ActionKeyMatch` of src/action-semantics.ts. A `kind` that is "operation" or absent is a Boolean.
use pi_speculative_action.Prelude.{
  ℕ, Bool, true, false, ◌||◌, not, Option, none, some, String, if◌then◌else◌, String_discrete,
}

pub data ResolutionStage : Type 0 where
  source plan admission execution matching authorization freshness compatibility projection commit
        retention control :
      ResolutionStage

pub record ResolutionCause : Type 0 where
  pub stage : ResolutionStage
  pub code : String
  pub detail : Option String

-- `cause`: an empty detail is left out.
pub cause : ResolutionStage → String → Option String → ResolutionCause
cause stage code none = record { stage = stage; code = code; detail = none }
cause stage code (some detail) = record {
  stage = stage;
  code = code;
  detail = elim (String_discrete detail "") [ yes _ ↦ none | no _ ↦ some detail ];
}

pub data ValidationMode : Type 0 where
  watcher exact : ValidationMode

pub record ValidationMetrics : Type 0 where
  pub bytes_read : ℕ
  pub files_read : ℕ
  pub mode : ValidationMode

abbrev pub zero_validation_metrics : ValidationMode → ValidationMetrics
zero_validation_metrics mode = record { bytes_read = 0; files_read = 0; mode = mode }

pub data ValidationStatus : Type 0 where
  valid : ValidationStatus
  stale : ResolutionCause → Bool → ValidationStatus
  indeterminate : ResolutionCause → ValidationStatus

pub record ResourceValidation : Type 0 where
  pub metrics : ValidationMetrics
  pub status : ValidationStatus

pub record PlanActionIdentity : Type 0 where
  pub is_operation : Bool
  pub id : String
  pub source : String
  pub proposal_id : String
  pub action_id : String

pub record ActorActionIdentity : Type 0 where
  pub is_operation : Bool
  pub id : String
  pub sequence : ℕ
  pub decision_sequence : Option ℕ
  pub turn_id : String

pub data ActionKeyMatch : Type 0 where
  exact_match : ActionKeyMatch
  projected : ℕ → String → ActionKeyMatch
  inputs : ℕ → ActionKeyMatch

pub data PredictionAdoption : Type 0 where
  adopted : String → PredictionAdoption
  rejected : Option String → ResolutionCause → PredictionAdoption

pub data PredictionOutcome : Type 0 where
  unobserved : ResolutionCause → PredictionOutcome
  missed : ActorActionIdentity → PredictionOutcome
  matched : ActorActionIdentity → ActionKeyMatch → PredictionAdoption → PredictionOutcome

pub record PredictionSettlement : Type 0 where
  pub prediction : PlanActionIdentity
  pub outcome : PredictionOutcome

-- `match?.matched`: `none` for a settlement that was not observed.
unfoldable pub match_of : PredictionOutcome → Option Bool
match_of (unobserved c) = none
match_of (missed a) = some false
match_of (matched a r d) = some true

unfoldable pub adoption_of : PredictionOutcome → Bool
adoption_of (matched a r (adopted c)) = true
adoption_of _ = false

pub record Learning : Type 0 where
  pub learned_match : Option Bool
  pub learned_adoption : Option Bool

abbrev is_true : Option Bool → Bool
is_true none = false
is_true (some b) = b

-- `predictionLearning`; `served` is the optional second argument.
unfoldable pub prediction_learning : PredictionSettlement → Option Bool → Learning
unfolding match_of adoption_of
prediction_learning settlement served =
    let m = match_of settlement.outcome in
    let taken : Bool = elim served [ none ↦ adoption_of settlement.outcome | some b ↦ b ] in
    record {
      learned_match = if is_true m || not taken then m else none;
      learned_adoption = if taken || is_true m then some taken else none;
    }
