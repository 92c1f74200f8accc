-- ===== src/Prelude/Text.antt =====
-- Equality of texts as a decision.
use Prim.Native.String.{String}
use mathlib.Core.Path.{◌≡◌}
use mathlib.Core.Bool.{false}
use mathlib.Core.Logic.{inl, inr}
use text.Mathlib.Text.{◌==◌ as str_eq}
use text.Mathlib.TextEquality.{eq_iff}
use pi_speculative_action.Prelude.Tests.{Bool-cases}

unfoldable pub String_discrete : Discrete String
unfolding Bool-cases
String_discrete a b = elim (Bool-cases (str_eq a b)) [
  | inl e ↦ yes ((eq_iff a b).0 e)
  | inr e ↦ no (λ p. different a b p e)
]
  where
    different : (s t : String) → s ≡ t → str_eq s t ≡ false → ⊥
    different s t p e = cc ((eq_iff s t).1 p)
