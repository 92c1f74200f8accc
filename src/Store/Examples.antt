-- ===== src/Store/Examples.antt =====
-- src/candidate-stores.ts: a lookup in a store of two reads, one of which is settled.
use pi_speculative_action.Semantics.ReadRange.{read_range_action_key_projector}
use pi_speculative_action.Store.Settling.{
  Call, MakesKey, inserts, settles, removes, creates, hits, trims, run,
}
use pi_speculative_action.Store.Lookup.{lookup_records, match_at}
use pi_speculative_action.Prelude.{
  ℕ, ℕ_discrete, Bool, true, false, some, none, String, List, [], ◌∷◌, get, All, ◌≡◌, refl,
}
use pi_speculative_action.Numbers.{Number}
use pi_speculative_action.Semantics.{ActionKey, ActionKeyProjector, text}
use pi_speculative_action.Semantics.Ranges.{read_range-KeepsPartitions}
use pi_speculative_action.Store.{Entry, empty}
use pi_speculative_action.Store.Complete.{lookup_records-run}

abbrev stringify : String → String → String → List String → String → String
stringify epoch schema execution resources path = path

abbrev read : String → ActionKey
read key = record {
  key = key;
  tool = "read";
  input = ("path", text "f") ∷ [];
  resources = "f" ∷ [];
  semantics_epoch = "pi.read";
  schema_hash = "";
  execution_fingerprint = "";
}

abbrev entry : String → ℕ → Entry
entry id object = record { id = id; object = object; key = some (read id); estimated_bytes = none }

abbrev projectors : List ActionKeyProjector
projectors = read_range_action_key_projector stringify ∷ []

abbrev calls : List Call
calls =
    inserts (entry "a" 1)
    ∷ inserts (entry "b" 2)
    ∷ settles (entry "a" 1) none true (Number.finite_pos 0)
    ∷ removes (entry "b" 2)
    ∷ creates (λ records matches. matches) (read "a") (entry "a" 3) (λ e m. false)
    ∷ creates (λ records matches. matches) (read "c") (entry "c" 4) (λ e m. false)
    ∷ hits (λ records es. es) (entry "a" 1) (some (record { max_entries = 1; max_bytes = 0 }))
        (Number.finite_pos 1)
    ∷ trims (λ records es. es) (record { max_entries = 5; max_bytes = 0 }) (λ e. true)
    ∷ []

calls_make : All MakesKey calls
calls_make = (tt, (tt, (tt, (tt, (refl, (refl, (tt, (tt, tt))))))))

abbrev covered : Entry → Bool
covered e = false

lookup_records-run_example :
    get ℕ_discrete 0 (lookup_records projectors covered (read "c") (run projectors calls (empty 0)))
    ≡ match_at projectors covered (read "c") (run projectors calls (empty 0)) 0
lookup_records-run_example =
    lookup_records-run projectors (read_range-KeepsPartitions stringify, tt) covered (read "c")
      calls 0 0 calls_make
