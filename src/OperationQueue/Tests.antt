-- ===== src/OperationQueue/Tests.antt =====
-- The processor on a few operations.
use franklink.Prelude.{ℕ, ◌≡◌, ◌++◌, refl, true, false, none, some, List, [], ◌∷◌, map}
use franklink.OperationQueue.{
  QueuedOperation, Processor, returns, raises, new_operation, all_operations,
  get_pending_operations_for_user,
}
use franklink.OperationQueue.Lifecycle.{Settled}
use franklink.OperationQueue.History.{
  Step, registers, queues, takes, answers, cleans, run, ids, accepted, run-Settled, run_in_turn,
}

abbrev new_processor : Processor ℕ ℕ
new_processor = record {
  handlers = [];
  operations = [];
  queue = [];
  current = none;
  finished = [];
  completions = [];
}

new_processor-Settled : Settled new_processor
new_processor-Settled = record { waiting = tt; running = tt; done = tt; called = refl }

-- Three operations, of which the first succeeds and the second fails.
abbrev steps : List (Step ℕ ℕ)
steps =
    registers "group"
    ∷ queues 10 "op1" "group" "ann" 1 true
    ∷ queues 11 "op0" "other" "ann" 1 true
    ∷ queues 12 "op2" "group" "bob" 2 true
    ∷ takes 13
    ∷ queues 14 "op3" "group" "ann" 3 false
    ∷ answers 15 (returns 7)
    ∷ takes 16
    ∷ answers 17 (raises "no chat")
    ∷ cleans 3613
    ∷ []

run-answers : map (λ c. c.error) (run steps new_processor).completions ≡ none ∷ some "no chat" ∷ []
unfolding run
run-answers = refl

-- An operation is dropped an hour after it was queued; `op3` is kept.
run-cleaned : (run steps new_processor).operations ≡ "op3" ∷ []
unfolding run
run-cleaned = refl

run-Settled_example : Settled (run steps new_processor)
run-Settled_example = run-Settled steps new_processor new_processor-Settled

run_in_turn_example :
    ids (all_operations (run steps new_processor))
    ≡ ids (all_operations new_processor) ++ accepted steps new_processor
run_in_turn_example = run_in_turn steps new_processor

run-pending :
    ids (get_pending_operations_for_user "ann" none (run steps new_processor)) ≡ "op3" ∷ []
unfolding run get_pending_operations_for_user
run-pending = refl

run-pending_bob : ids (get_pending_operations_for_user "bob" none (run steps new_processor)) ≡ []
unfolding run get_pending_operations_for_user
run-pending_bob = refl

abbrev waiting : QueuedOperation ℕ ℕ
waiting = new_operation 14 "op3" "group" "ann" 3 false
