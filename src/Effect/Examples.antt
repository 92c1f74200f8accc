-- ===== src/Effect/Examples.antt =====
-- src/effect-model.ts: requirements and an instance.
use pi_speculative_action.Prelude.{false, [], ◌∷◌, ◌≡◌, refl, arith}
use pi_speculative_action.Effect.{
  EffectCapability, filesystem_read, process, rank, contains, effect_requirements,
  effect_capabilities_cover, only, unrestricted_process_effects,
}
use pi_speculative_action.Effect.Canonical.{
  effect_capabilities_cover-effect_requirements, effect_requirements_canonical,
}

not-covered :
    effect_capabilities_cover (only (filesystem_read ∷ process ∷ [])) unrestricted_process_effects
    ≡ false
unfolding effect_capabilities_cover effect_requirements contains rank
not-covered = refl

same_capabilities :
    (a : EffectCapability)
    → contains a (process ∷ filesystem_read ∷ process ∷ [])
      ≡ contains a (filesystem_read ∷ process ∷ [])
unfolding contains
same_capabilities a = ground arith

effect_requirements_canonical_example :
    effect_requirements (process ∷ filesystem_read ∷ process ∷ [])
    ≡ effect_requirements (filesystem_read ∷ process ∷ [])
effect_requirements_canonical_example =
    effect_requirements_canonical (process ∷ filesystem_read ∷ process ∷ [])
      (filesystem_read ∷ process ∷ []) same_capabilities

effect_capabilities_cover-effect_requirements_example :
    effect_capabilities_cover (only (process ∷ [])) (effect_requirements (process ∷ process ∷ []))
    ≡ effect_capabilities_cover (only (process ∷ [])) (process ∷ process ∷ [])
effect_capabilities_cover-effect_requirements_example =
    effect_capabilities_cover-effect_requirements (only (process ∷ [])) (process ∷ process ∷ [])
