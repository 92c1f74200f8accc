-- ===== src/Preview/Examples.antt =====
-- src/actor-stream-preview.ts: a call that is complete before its end, beside another one.
use pi_speculative_action.Preview.{
  Text, PartialCall, Update, toolcall_start, toolcall_delta, toolcall_end, observe,
}
use pi_speculative_action.Preview.Once.{
  calls, previews, observes, calls-observe_end, concerns, is_end,
}
use pi_speculative_action.Prelude.{
  delete, put, ◌+◌, ◌≡◌, refl, Option, some, List, [], ◌∷◌, get, ℕ_discrete,
}

-- The parser takes the text itself.
abbrev whole : Text → Option Text
whole text = some text

abbrev partial_call : PartialCall
partial_call = record { id = 1 ∷ []; name = 2 ∷ [] }

abbrev updates : List (Update Text)
updates =
    toolcall_start 0 (some partial_call)
    ∷ toolcall_delta 0 (some partial_call) (123 ∷ [])
    ∷ toolcall_end 1 partial_call []
    ∷ toolcall_delta 0 (some partial_call) (125 ∷ [])
    ∷ []

called_once : calls (previews whole 0 updates []) ≡ 1
unfolding calls previews ℕ_discrete get put delete
called_once = refl

calls-observe_end_example :
    calls (previews whole 0 updates [])
      + calls
          (observe whole
            (toolcall_end 0 partial_call (123 ∷ 125 ∷ []))
            (observes whole updates [])).1
    ≡ 1
unfolding get concerns is_end
calls-observe_end_example =
    calls-observe_end whole 0 updates [] partial_call (123 ∷ 125 ∷ []) refl
      (refl, (refl, (refl, (refl, tt))))
