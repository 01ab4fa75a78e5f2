-- ===== src/Coalescer/InOrder.antt =====
-- The order in which the messages of a conversation are handled.
use mathlib.Core.List.{append_assoc}
use franklink.Prelude.{ℕ, ◌≡◌, refl, sym, ap, ◌∙◌, List, [], ◌∷◌, ◌++◌}
use franklink.Coalescer.Conversation.{Event, step, run, handled, new_messages, arrived, settled}
use franklink.Coalescer.Carried.{carried, step-Stepped, run-Valid}

-- No message is lost, repeated or overtaken: after any events the messages whose callback returned
-- or raised, then those in flight, then those that wait are all the messages that arrived, in the
-- order of their arrival.
pub run_in_order :
    (d w start : ℕ) (history : List Event)
    → settled d w start history
        ++ ((run d w start history).in_flight_messages ++ (run d w start history).pending_messages)
      ≡ arrived history
unfolding settled arrived run
run_in_order d w start [] = refl
run_in_order d w start (event ∷ history) =
    let s = run d w start history in
    append_assoc (settled d w start history) (handled event s) (carried (step d w event s))
    ∙ ap (λ x. settled d w start history ++ x)
        (step-Stepped d w event s (run-Valid d w start history)).accounted
    ∙ sym (append_assoc (settled d w start history) (carried s) (new_messages event))
    ∙ ap (λ x. x ++ new_messages event) (run_in_order d w start history)
