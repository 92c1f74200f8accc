-- ===== src/Effect.antt =====
-- src/effect-model.ts: the capabilities of execution backends. A requirement is sorted by the names
-- of its capabilities, of which `rank` is the order.
pub mod Canonical
mod Examples
use pi_speculative_action.Prelude.{
  ℕ, Bool, true, false, ◌&&◌, ◌||◌, List, [], ◌∷◌, if◌then◌else◌, ltb, ◌==◌,
}

pub data EffectCapability : Type 0 where
  host_function process workspace_path filesystem_read filesystem_write process_spawn
        network_mediate ipc_mediate time_virtualize random_virtualize output_gate
        resource_snapshot :
      EffectCapability

-- The place of the name among those of all capabilities.
unfoldable pub rank : EffectCapability → ℕ
rank filesystem_read = 0
rank filesystem_write = 1
rank host_function = 2
rank process = 3
rank workspace_path = 4
rank ipc_mediate = 5
rank network_mediate = 6
rank output_gate = 7
rank process_spawn = 8
rank random_virtualize = 9
rank time_virtualize = 10
rank resource_snapshot = 11

-- `has` of the set
unfoldable pub contains : EffectCapability → List EffectCapability → Bool
contains c [] = false
contains c (x ∷ xs) = rank c == rank x || contains c xs

unfoldable pub insert : EffectCapability → List EffectCapability → List EffectCapability
insert c [] = c ∷ []
insert c (x ∷ xs) =
    let rest = insert c xs in
    if rank c == rank x then x ∷ xs else if ltb (rank c) (rank x) then c ∷ (x ∷ xs) else x ∷ rest

-- `effectRequirements`, and `normalizeEffectRequirements` of the capabilities of a requirement.
unfoldable pub effect_requirements : List EffectCapability → List EffectCapability
unfolding insert
effect_requirements [] = []
effect_requirements (c ∷ cs) = insert c (effect_requirements cs)

abbrev pub resource_observation_effects : List EffectCapability
resource_observation_effects =
    effect_requirements (host_function ∷ filesystem_read ∷ resource_snapshot ∷ [])

abbrev pub workspace_path_mutation_effects : List EffectCapability
workspace_path_mutation_effects =
    effect_requirements (host_function ∷ workspace_path ∷ filesystem_read ∷ filesystem_write ∷ [])

abbrev pub unrestricted_process_effects : List EffectCapability
unrestricted_process_effects = effect_requirements (
    process ∷ filesystem_read ∷ filesystem_write ∷ process_spawn ∷ network_mediate ∷ ipc_mediate
    ∷ time_virtualize ∷ random_virtualize ∷ output_gate ∷ [])

pub data EffectCapabilities : Type 0 where
  everything : EffectCapabilities
  only : List EffectCapability → EffectCapabilities

every_in : List EffectCapability → List EffectCapability → Bool
unfolding contains
every_in [] provided = true
every_in (c ∷ cs) provided = contains c provided && every_in cs provided

unfoldable pub effect_capabilities_cover : EffectCapabilities → List EffectCapability → Bool
unfolding every_in
effect_capabilities_cover everything required = true
effect_capabilities_cover (only provided) required = every_in required provided
