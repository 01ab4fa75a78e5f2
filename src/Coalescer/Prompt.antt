-- ===== src/Coalescer/Prompt.antt =====
-- How long a message of a conversation waits.
use mathlib.Core.List.{append-nil}
use franklink.Prelude.{
  ℕ, ◌+◌, ◌≤◌, ◌≡◌, ◌⊎◌, inl, inr, refl, sym, ap, ◌∙◌, true, Option, none, some, List, [], ◌∷◌,
  ◌++◌, leb, le→leb, if_both, arith,
}
use franklink.Coalescer.{
  PendingMessage, ConversationState, process_now, start_processing, timer_fires, debounce_wait,
}
use franklink.Coalescer.Conversation.{Event, run}
use franklink.Coalescer.Carried.{Valid, timer_fires-Started, run-Valid}

start_processing-empties :
    (now : ℕ) (pending : List PendingMessage) (s : ConversationState)
    → s.pending_messages ≡ pending
    → (start_processing now pending s).pending_messages ≡ []
unfolding start_processing
start_processing-empties now [] s e = e
start_processing-empties now (m ∷ ms) s e = refl

timer_fires-empties :
    (w now : ℕ) (timer : Option ℕ) (s : ConversationState)
    → s.debounce_task ≡ timer
    → (s.pending_messages ≡ [])
      ⊎ ((wake : ℕ) × (s.debounce_task ≡ some wake) × (wake ≤ s.first_message_at + w))
    → s.first_message_at + w ≤ now
    → (timer_fires now timer s).pending_messages ≡ []
unfolding timer_fires process_now
timer_fires-empties w now none s t (inl e) late = e
timer_fires-empties w now none s t (inr (wake, e, le)) late = cc
timer_fires-empties w now (some wake) s t (inl e) late =
    if_both (λ (x : ConversationState). x.pending_messages ≡ []) (leb wake now) _ _
      (start_processing-empties now s.pending_messages (record s { debounce_task = none }) refl) e
timer_fires-empties w now (some wake) s t (inr (wakes_at, e, le)) late =
    let same : wakes_at ≡ wake = cc in
    let due : leb wake now ≡ true = le→leb wake now (omega arith) in
    rw due
      (start_processing-empties now s.pending_messages (record s { debounce_task = none }) refl)

-- After any events, once the clock is past the window of the batch, a wake-up of the timer leaves
-- no message waiting: all of them are in flight, after those that were.
pub run-debounce_wait :
    (d w start : ℕ) (history : List Event) (now : ℕ)
    → (run d w start history).first_message_at + w ≤ now
    → ((debounce_wait now (run d w start history)).pending_messages ≡ [])
      × ((debounce_wait now (run d w start history)).in_flight_messages
          ≡ (run d w start history).in_flight_messages ++ (run d w start history).pending_messages)
unfolding debounce_wait
run-debounce_wait d w start history now late =
    let s : ConversationState = run d w start history in
    let v : Valid w s = run-Valid d w start history in
    let empty = timer_fires-empties w now s.debounce_task s refl v.timed late in
    let all = (timer_fires-Started w now s.debounce_task s v).all_carried in
    (
      empty,
      sym (append-nil (debounce_wait now s).in_flight_messages)
          ∙ ap (λ x. (debounce_wait now s).in_flight_messages ++ x) (sym empty)
          ∙ all,
    )
