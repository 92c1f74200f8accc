-- ===== src/Plan/Capture.antt =====
-- src/plan-runtime.ts: `capture` and `validateActions`, which take over what a producer hands in.
-- `immutableSnapshot` of src/stable-json.ts is a parameter: `none` where it throws, or where its
-- result is not immutable.
use Prim.Native.Char.{Char, code}
use pi_speculative_action.Prelude.{
  ℕ, Bool, true, false, ◌&&◌, ◌||◌, not, Option, none, some, String, List, [], ◌∷◌, has,
  if◌then◌else◌, leb, ◌==◌, String_discrete, ℕ_discrete,
}
use pi_speculative_action.Numbers.{
  Number, is_safe_count, max_safe_integer, is_finite_number, non_negative_finite as finite_metric,
}
use pi_speculative_action.Plan.Proposal.{
  Condition, execution_settled, execution_succeeded, actor_adopted, prediction, resource,
  RawDependency, Dependency, ActionType, tool_call, operation, ResourceDemand, dimensions,
  RawAction, Action, PlanUpdate, proposal, delta, Rejection, invalid_identity, invalid_revision,
  duplicate_action, invalid_action, invalid_dependency,
}

pub data Result {ℓ} (A : Type ℓ) : Type ℓ where
  ok : A → Result A
  refused : Rejection → Result A

infixl 5 ◌>>=◌ ◌>>◌
abbrev pub ◌>>=◌ {ℓ κ} : {A : Type ℓ} {B : Type κ} → Result A → (A → Result B) → Result B
ok a >>= f = f a
refused r >>= f = refused r

abbrev pub ◌>>◌ {ℓ} : {B : Type ℓ} → Result (Unit {0}) → Result B → Result B
m >> k = m >>= λ _. k

abbrev pub guard : Bool → Rejection → Result (Unit {0})
guard true r = ok tt
guard false r = refused r

-- White space and line terminators of the language.
is_space : Char → Bool
is_space c =
    let n = code c in
    (leb 9 n && leb n 13)
    || (leb 0x2000 n && leb n 0x200a)
    || has ℕ_discrete n
        (0x20 ∷ 0xa0 ∷ 0x1680 ∷ 0x2028 ∷ 0x2029 ∷ 0x202f ∷ 0x205f ∷ 0x3000 ∷ 0xfeff ∷ [])

last_space : Char → String → Bool
unfolding is_space
last_space c String.[] = is_space c
last_space c (String.◌∷◌ d s) = last_space d s

-- `trim` takes nothing off a text whose first and last characters are no spaces.
unfoldable pub valid_token : String → Bool
unfolding last_space is_space
valid_token String.[] = false
valid_token (String.◌∷◌ c s) = not (is_space c) && not (last_space c s)

valid_optional : Option String → Bool
unfolding valid_token
valid_optional none = false
valid_optional (some s) = valid_token s

named : List (String × Condition) → String → Option Condition
named [] s = none
named ((name, c) ∷ rest) s = elim (String_discrete s name) [ yes _ ↦ some c | no _ ↦ named rest s ]

conditions : List (String × Condition)
conditions =
    ("execution_settled", execution_settled)
    ∷ ("execution_succeeded", execution_succeeded)
    ∷ ("actor_adopted", actor_adopted)
    ∷ ("prediction", prediction)
    ∷ ("resource", resource)
    ∷ []

-- The default is `execution_settled`; `none` is a text that names no condition.
condition_of : Option String → Option Condition
unfolding named conditions
condition_of none = some execution_settled
condition_of (some s) = named conditions s

-- Only a prediction keeps the observation.
is_prediction : Condition → Bool
is_prediction prediction = true
is_prediction _ = false

-- `{ proposalID, identity }` of an owned dependency; `refused` where one of the two is no token.
cross_of : Option String → Option String → Result (Option (String × String))
unfolding valid_token
cross_of none none = ok none
cross_of (some p) (some i) =
    if valid_token p && valid_token i then ok (some (p, i)) else refused invalid_dependency
cross_of _ _ = refused invalid_dependency

known_condition : Option Condition → Result Condition
known_condition none = refused invalid_dependency
known_condition (some c) = ok c

own_dependency : RawDependency → Result Dependency
unfolding condition_of is_prediction cross_of known_condition valid_optional
own_dependency d = do
  guard (valid_token d.action_id) invalid_dependency
  condition ← known_condition (condition_of d.condition)
  guard (not (is_prediction condition) || valid_optional d.observation) invalid_dependency
  cross ← cross_of d.proposal_id d.identity
  ok (record {
    action_id = d.action_id;
    cross = cross;
    condition = condition;
    observation = if is_prediction condition then d.observation else none;
  })

own_dependencies : List RawDependency → Result (List Dependency)
unfolding own_dependency
own_dependencies [] = ok []
own_dependencies (d ∷ ds) = do
  owned ← own_dependency d
  rest ← own_dependencies ds
  ok (owned ∷ rest)

or_empty {ℓ} : {A : Type ℓ} → Option (List A) → List A
or_empty none = []
or_empty (some xs) = xs

-- The type of an action agrees with its operation, which is frozen.
valid_operation : ActionType → Option (ℕ × Bool) → Bool
valid_operation tool_call none = true
valid_operation operation (some (ref, frozen)) = frozen
valid_operation _ _ = false

is_operation_type : ActionType → Bool
is_operation_type operation = true
is_operation_type _ = false

ref_of : Option (ℕ × Bool) → Option ℕ
ref_of none = none
ref_of (some (ref, frozen)) = some ref

-- `RESOURCE_DIMENSIONS` of src/system-resources.ts
abbrev pub resource_dimensions : List String
resource_dimensions = "cpu" ∷ "memory" ∷ "io" ∷ "gpu" ∷ "gpuMemory" ∷ "network" ∷ []

is_measured : Option Number → Bool
unfolding is_finite_number
is_measured (some (Number.finite_neg n)) = false
is_measured v = is_finite_number v

valid_entries : List (String × Option Number) → Bool
unfolding is_measured has String_discrete
valid_entries [] = true
valid_entries ((key, value) ∷ rest) =
    has String_discrete key resource_dimensions && is_measured value && valid_entries rest

valid_demand : Option ResourceDemand → Bool
unfolding valid_entries
valid_demand (some (dimensions entries)) = valid_entries entries
valid_demand _ = true

module _ {I : Type 0} where
  -- The first loop of `validateActions`; `ids` are those of the actions before.
  own_records : List String → List (RawAction I) → Result (List (Action I))
  unfolding own_dependencies or_empty valid_operation is_operation_type ref_of has
  own_records ids [] = ok []
  own_records ids (source ∷ sources) = do
    guard
        (valid_token source.id
          && valid_token source.tool
          && valid_operation source.type source.operation_ref)
        invalid_action
    guard (not (has String_discrete source.id ids)) duplicate_action
    dependencies ← own_dependencies (or_empty source.depends_on)
    rest ← own_records (source.id ∷ ids) sources
    ok (
        (record {
          id = source.id;
          is_operation = is_operation_type source.type;
          operation_ref = ref_of source.operation_ref;
          tool = source.tool;
          input = source.input;
          horizon = source.horizon;
          latest_horizon = source.latest_horizon;
          resource_demand = source.resource_demand;
          depends_on = dependencies;
        })
        ∷ rest)

  module _ (snapshot : I → Option I) where
    -- The second loop, which owns the demands and the inputs.
    own_inputs : List (Action I) → Result (List (Action I))
    unfolding valid_demand
    own_inputs [] = ok []
    own_inputs (action ∷ actions) = do
      guard (valid_demand action.resource_demand) invalid_action
      input ← elim (snapshot action.input) [ none ↦ refused invalid_action | some i ↦ ok i ]
      rest ← own_inputs actions
      ok ((record action { input = input }) ∷ rest)

    unfoldable pub validate_actions : List (RawAction I) → Result (List (Action I))
    unfolding own_records own_inputs
    validate_actions sources = do owned ← own_records [] sources; own_inputs owned

    -- Without several steps only actions that can run at once are taken.
    immediate : List (RawAction I) → List (RawAction I)
    unfolding or_empty finite_metric
    immediate [] = []
    immediate (a ∷ rest_of) =
        let rest = immediate rest_of in
        elim (or_empty a.depends_on) [
          | [] ↦ if finite_metric a.horizon == 0 then a ∷ rest else rest
          | _ ∷ _ ↦ rest
        ]

    check_tokens : List String → Bool
    check_tokens [] = true
    check_tokens (id ∷ ids) = valid_token id && check_tokens ids

    safe_revision : Option Number → Result ℕ
    safe_revision revision = elim (is_safe_count revision 0 max_safe_integer) [
      | none ↦ refused invalid_revision
      | some n ↦ ok n
    ]

    -- `capture` of an update that no capture has returned before.
    unfoldable pub capture :
        PlanUpdate (RawAction I) (Option Number) → Bool → Result (PlanUpdate (Action I) ℕ)
    unfolding immediate check_tokens safe_revision
    capture (proposal id source revision actions retain) multi_step = do
      guard (valid_token id && valid_token source) invalid_identity
      count ← safe_revision revision
      owned ← validate_actions (if multi_step then actions else immediate actions)
      ok (proposal id source count owned (multi_step && retain))
    capture (delta id source revision upsert remove) multi_step = do
      guard (valid_token id && valid_token source) invalid_identity
      count ← safe_revision revision
      owned ← validate_actions (if multi_step then upsert else [])
      guard (check_tokens remove) invalid_action
      ok (delta id source count owned remove)
