-- ===== src/Candidate/Examples.antt =====
-- src/candidate-execution.ts: runs of a candidate and its leases.
use pi_speculative_action.Prelude.{
  ◌+◌, ◌≤◌, true, none, some, String, List, [], ◌∷◌, ◌≡◌, refl, has, String_discrete,
}
use pi_speculative_action.Settlement.{ResolutionCause, control}
use pi_speculative_action.Candidate.{
  cancelled, exclusive_lease, shared_lease, available, consumed, has_succeeded,
}
use pi_speculative_action.Candidate.Board.{
  Board, Call, starts, succeeds, acquires, adopts, perform, run, initial,
}
use pi_speculative_action.Candidate.Monotone.{
  SameExecution, perform-SameExecution, IsConsistent, run-initial-IsConsistent,
}
use pi_speculative_action.Candidate.Exclusive.{actives, spents, run-exclusive_at_most_one}

abbrev stopped : ResolutionCause
stopped = record { stage = control; code = "stopped"; detail = none }

abbrev adoption : List (Call String)
adoption =
    starts none
    ∷ acquires "turn 1"
    ∷ adopts 0
    ∷ succeeds "output" (record { started_at = 0; completed_at = 0 }) none
    ∷ acquires "turn 2"
    ∷ adopts 0
    ∷ acquires "turn 2"
    ∷ []

program : Unit {0}
unfolding initial run perform String_discrete has
program = tt

-- The first adoption comes too early, the second owner too late.
adoption_example : (run adoption (initial exclusive_lease)).candidate.reservation ≡ consumed
unfolding program
adoption_example = refl

abbrev cancelled_board : Board String
cancelled_board = record {
  candidate = record {
    execution = cancelled stopped 0;
    reservation = available;
    completion = some (cancelled stopped 0);
    abort = some stopped;
    releases = 0;
  };
  leases = [];
}

perform-SameExecution_example :
    SameExecution cancelled_board.candidate (perform (starts none) cancelled_board).candidate
perform-SameExecution_example = perform-SameExecution (starts none) cancelled_board refl

run-initial-IsConsistent_example : IsConsistent (run adoption (initial shared_lease)).candidate
run-initial-IsConsistent_example = run-initial-IsConsistent shared_lease adoption

run-exclusive_at_most_one_example :
    let b = run adoption (initial exclusive_lease) in
    (actives b.leases + spents b.leases ≤ 1)
    × (spents b.leases ≡ 1 → has_succeeded b.candidate.execution ≡ true)
run-exclusive_at_most_one_example = run-exclusive_at_most_one adoption
