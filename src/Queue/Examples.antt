-- ===== src/Queue/Examples.antt =====
-- src/post-settlement.ts: a queue of two.
use pi_speculative_action.Prelude.{ℕ, true, false, List, [], ◌∷◌, ◌++◌, ◌≡◌, refl, arith}
use pi_speculative_action.Queue.{Queue, QueueCall, enqueues, delivers, flushes, closes, run}
use pi_speculative_action.Queue.Order.{taken, served, IsQueue, run-pending, run-IsQueue}

abbrev empty_queue : Queue ℕ
empty_queue = record { capacity = 2; pending = []; awaited = false; closed = false }

-- The third event finds the queue full, and the last one finds it closed.
abbrev calls : List (QueueCall ℕ)
calls =
    enqueues 7
    ∷ enqueues 8
    ∷ enqueues 9
    ∷ flushes
    ∷ delivers
    ∷ enqueues 10
    ∷ closes true
    ∷ enqueues 11
    ∷ []

taken-calls : taken calls empty_queue ≡ 7 ∷ 8 ∷ 10 ∷ []
unfolding taken
taken-calls = refl

empty_queue-IsQueue : IsQueue empty_queue
empty_queue-IsQueue = record { bounded = omega arith; waiting = λ h. cc }

run-pending_example :
    [] ++ taken calls empty_queue ≡ served calls empty_queue ++ (run calls empty_queue).pending
run-pending_example = run-pending calls empty_queue

run-IsQueue_example : IsQueue (run calls empty_queue)
run-IsQueue_example = run-IsQueue calls empty_queue empty_queue-IsQueue
