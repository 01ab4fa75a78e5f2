-- ===== src/Coalescer/Conversation.antt =====
-- One conversation over time: its events, its steps and the messages that come and go.
use franklink.Prelude.{ℕ, Option, none, some, List, [], ◌∷◌, ◌++◌}
use franklink.Coalescer.{
  Payload, PendingMessage, ConversationState, Outcome, completed, failed, cancelled,
  new_conversation, pending_message, end_processing, enqueue_message, debounce_wait,
}

-- A message arrives, with the end of the task that it cancels; the timer wakes; or the callback of
-- the running task returns or raises.
pub data Event : Type 0 where
  arrives : ℕ → ℕ → Outcome → Payload → Event
  wakes : ℕ → Event
  returns raises : Event

unfoldable pub running_ends : Outcome → Option Payload → ConversationState → ConversationState
unfolding end_processing
running_ends outcome none state = state
running_ends outcome (some running) state = end_processing outcome state

module _ (debounce_ms max_window_ms : ℕ) where
  unfoldable pub step : Event → ConversationState → ConversationState
  unfolding enqueue_message debounce_wait running_ends
  step (arrives now later outcome payload) state =
      enqueue_message debounce_ms max_window_ms now later outcome payload state
  step (wakes now) state = debounce_wait now state
  step returns state = running_ends completed state.active_task state
  step raises state = running_ends failed state.active_task state

  -- The events of a conversation that was first seen at `start`, the newest first.
  unfoldable pub run : ℕ → List Event → ConversationState
  unfolding step
  run start [] = new_conversation start
  run start (event ∷ history) = step event (run start history)

-- The messages of a task that comes to an end other than by a cancellation.
abbrev pub batch : Outcome → Option Payload → List PendingMessage → List PendingMessage
batch outcome none messages = []
batch cancelled (some running) messages = []
batch _ (some running) messages = messages

abbrev pub handled : Event → ConversationState → List PendingMessage
handled (arrives now later outcome payload) state =
    batch outcome state.active_task state.in_flight_messages
handled (wakes now) state = []
handled returns state = batch completed state.active_task state.in_flight_messages
handled raises state = batch failed state.active_task state.in_flight_messages

abbrev pub new_messages : Event → List PendingMessage
new_messages (arrives now later outcome payload) = pending_message now payload ∷ []
new_messages _ = []

-- All the messages that arrived, the oldest first.
unfoldable pub arrived : List Event → List PendingMessage
arrived [] = []
arrived (event ∷ history) = arrived history ++ new_messages event

-- The messages whose callback returned or raised.
unfoldable pub settled : ℕ → ℕ → ℕ → List Event → List PendingMessage
unfolding run
settled debounce_ms max_window_ms start [] = []
settled debounce_ms max_window_ms start (event ∷ history) =
    settled debounce_ms max_window_ms start history
    ++ handled event (run debounce_ms max_window_ms start history)
