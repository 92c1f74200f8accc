-- ===== src/Semantics/Examples.antt =====
-- src/action-semantics.ts: a read of more lines matches one of fewer.
use pi_speculative_action.Semantics.ReadRange.{read_range_action_key_projector}
use pi_speculative_action.Prelude.{true, String, String_discrete, List, [], ◌∷◌, refl, Bool-cases}
use pi_speculative_action.Numbers.{Number, unit}
use pi_speculative_action.Semantics.{
  ActionKey, Value, text, number, action_key_match, same, same_contract,
}
use pi_speculative_action.Semantics.Matching.{IsMatch, action_key_match-IsMatch}

abbrev stringify : String → String → String → List String → String → String
stringify epoch schema execution resources path = path

abbrev read : String → List (String × Value) → ActionKey
read key input = record {
  key = key;
  tool = "read";
  input = ("path", text "f") ∷ input;
  resources = "f" ∷ [];
  semantics_epoch = "pi.read";
  schema_hash = "";
  execution_fingerprint = "";
}

abbrev whole : ActionKey
whole = read "whole" []

abbrev part : ActionKey
part = read "part" (("limit", number (Number.finite_pos unit)) ∷ [])

action_key_match-IsMatch_example :
    IsMatch true whole part
      (read_range_action_key_projector stringify ∷ [])
      (action_key_match whole part (read_range_action_key_projector stringify ∷ []) true)
unfolding same String_discrete Bool-cases same_contract
action_key_match-IsMatch_example =
    action_key_match-IsMatch whole part (read_range_action_key_projector stringify ∷ []) true refl
      refl
