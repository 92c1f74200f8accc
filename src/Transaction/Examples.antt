-- ===== src/Transaction/Examples.antt =====
-- src/effect-transaction.ts: a commit that fails, and its repetition.
use pi_speculative_action.Prelude.{has, true, false, some, List, [], ◌∷◌, ◌≡◌, refl}
use pi_speculative_action.Settlement.{ResourceValidation, zero_validation_metrics, exact, valid}
use pi_speculative_action.Transaction.{
  starts_commit, sealing, committed, recoverable, no_commit, sealed_transaction, applied, fails,
  Event, requests_validation, resumes_validation, starts_proof, ends_proof, requests_commit,
  checks_commit, ends_commit, aborts, finalizes, run,
}
use pi_speculative_action.Transaction.Invariant.{IsTransaction}
use pi_speculative_action.Transaction.Run.{run-IsTransaction}
use pi_speculative_action.Transaction.Effects.{
  trace, IsTrace, phase_of, begins, restored, succeeded, trace-IsTrace,
}
use pi_speculative_action.Transaction.Coordinator.{
  Branch, Captured, IsSealing, authorizes_inputs_only, end_seal, end_seal-IsSealing,
}

abbrev fresh : ResourceValidation
fresh = record { metrics = zero_validation_metrics exact; status = valid }

-- The second commit waits for its own validation, and an abort comes too late for it.
abbrev events : List Event
events =
    requests_validation false
    ∷ requests_commit
    ∷ starts_commit
    ∷ starts_proof
    ∷ ends_proof (some fresh)
    ∷ checks_commit
    ∷ ends_commit (fails recoverable)
    ∷ resumes_validation false
    ∷ requests_commit
    ∷ starts_commit
    ∷ aborts
    ∷ starts_proof
    ∷ ends_proof (some fresh)
    ∷ checks_commit
    ∷ ends_commit applied
    ∷ finalizes
    ∷ []

events-trace : trace events (sealed_transaction false) ≡ begins ∷ restored ∷ begins ∷ succeeded ∷ []
unfolding trace has
events-trace = refl

state-events : (run events (sealed_transaction false)).state ≡ committed
unfolding run has
state-events = refl

run-IsTransaction_example : IsTransaction (run events (sealed_transaction false))
run-IsTransaction_example = run-IsTransaction events false

trace-IsTrace_example : IsTrace (phase_of no_commit) (trace events (sealed_transaction false))
trace-IsTrace_example = trace-IsTrace events (sealed_transaction false)

abbrev captured : Captured
captured = record { captures_inputs = true; has_source = false }

abbrev inputs : Branch
inputs = record { inputs_only = true; has_output = false }

end_seal-IsSealing_example :
    IsSealing
      (some inputs)
      (authorizes_inputs_only captured false)
      (end_seal captured false (some inputs) sealing)
end_seal-IsSealing_example = end_seal-IsSealing captured false (some inputs)
