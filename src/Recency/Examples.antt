-- ===== src/Recency/Examples.antt =====
-- src/bounded-recency-map.ts: a map of two entries, and instances.
use pi_speculative_action.Prelude.{
  ℕ, some, none, List, [], ◌∷◌, ◌≡◌, ◌≢◌, ◌⊎◌, refl, get, delete, ℕ_discrete, arith,
}
use pi_speculative_action.Numbers.{Number}
use pi_speculative_action.Recency.{RecencyMap, at_most, create, recall, set}
use pi_speculative_action.Recency.Bounded.{
  MapCall, recalls, creates, sets, run, IsRecencyMap, run-create-IsRecencyMap,
}
use pi_speculative_action.Recency.Lookup.{set-get}

abbrev full : RecencyMap ℕ ℕ
full = record { capacity = at_most 2; entries = (1, 10) ∷ (2, 20) ∷ [] }

-- The key that was used last stays, and the other one is evicted.
set_evicts_oldest :
    set ℕ_discrete 3 30 (recall ℕ_discrete 1 full).0
    ≡ (record { capacity = at_most 2; entries = (1, 10) ∷ (3, 30) ∷ [] }, some 20)
unfolding set recall ℕ_discrete get delete
set_evicts_oldest = refl

abbrev calls : List (MapCall ℕ ℕ)
calls = sets 1 10 ∷ sets 2 20 ∷ recalls 1 ∷ creates 3 (λ _. some 30) ∷ creates 3 (λ _. none) ∷ []

run-create-IsRecencyMap_example : IsRecencyMap (run ℕ_discrete calls (create (Number.finite_neg 3)))
run-create-IsRecencyMap_example = run-create-IsRecencyMap ℕ_discrete calls (Number.finite_neg 3)

set-get_example :
    (get ℕ_discrete 3 (set ℕ_discrete 3 30 full).0.entries ≡ some 30)
    × ((j : ℕ)
        → j ≢ 3
        → (get ℕ_discrete j (set ℕ_discrete 3 30 full).0.entries ≡ get ℕ_discrete j full.entries)
          ⊎ ((set ℕ_discrete 3 30 full).1 ≡ get ℕ_discrete j full.entries))
set-get_example = set-get ℕ_discrete 3 30 full (omega arith)
