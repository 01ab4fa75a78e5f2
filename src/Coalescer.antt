-- ===== src/Coalescer.antt =====
-- app/services/message_coalescer.py, with the token of app/services/cancellation.py: the state of
-- one conversation and its operations. A time is in milliseconds. Each operation runs under the
-- lock of the conversation, so that it is one step, and a running task is the payload it was
-- started with. `now` and `later` are two readings of the clock.
pub mod Combine
pub mod Conversation
pub mod Carried
pub mod InOrder
pub mod Prompt
pub mod Conversations
mod Tests
use Prim.Native.String.{String}
use franklink.Prelude.{
  ℕ, zero, suc, ◌+◌, ◌-◌, min, ◌≡◌, Bool, true, false, not, ◌&&◌, Option, none, some, List, [], ◌∷◌,
  ◌++◌, map, if◌then◌else◌, leb, ◌==◌, length,
}
use franklink.Dict.{Dict}
use franklink.Text.{Text, codes}
use franklink.Text.Strip.{strip}
use franklink.Text.Equal.{text_eq, contains, join}

-- The keys of the dict that the coalescer reads or writes, and the others.
pub record Payload : Type 0 where
  pub content : Option Text
  pub message_id : Option Text
  pub from_number : Option Text
  pub chat_guid : Option Text
  pub media_url : Option Text
  pub is_location_share : Bool
  pub coalesced_count : Option ℕ
  pub coalesced_message_ids : Option (List Text)
  pub others : Dict Text

pub record PendingMessage : Type 0 where
  pub content : Text
  pub timestamp : ℕ
  pub message_id : Text
  pub from_number : Text
  pub chat_guid : Option Text
  pub media_url : Option Text
  pub is_location_share : Bool
  pub raw_payload : Payload

pub record CancellationToken : Type 0 where
  pub is_cancelled : Bool
  pub cancel_reason : Option String

-- `active_task` is none when there is no task or the task is done; so is `debounce_task`, which is
-- the time at which the timer wakes.
pub record ConversationState : Type 0 where
  pub pending_messages : List PendingMessage
  pub in_flight_messages : List PendingMessage
  pub active_task : Option Payload
  pub debounce_task : Option ℕ
  pub cancel_token : CancellationToken
  pub first_message_at : ℕ

-- `value or ""`
abbrev pub text_or_empty : Option Text → Text
text_or_empty none = []
text_or_empty (some t) = t

abbrev pub is_filled : Text → Bool
is_filled [] = false
is_filled (c ∷ t) = true

unfoldable pub build_conversation_key : Payload → Text
unfolding contains
build_conversation_key payload =
    let guid = text_or_empty payload.chat_guid in
    if is_filled guid && contains (codes ";+;") guid
    then codes "group:" ++ guid
    else codes "dm:" ++ text_or_empty payload.from_number

abbrev pub fresh_token : CancellationToken
fresh_token = record { is_cancelled = false; cancel_reason = none }

unfoldable pub cancel_token_with : String → CancellationToken → CancellationToken
cancel_token_with reason token = record { is_cancelled = true; cancel_reason = some reason }

unfoldable pub reset_token : CancellationToken → CancellationToken
reset_token token = record { is_cancelled = false; cancel_reason = none }

abbrev pub new_conversation : ℕ → ConversationState
new_conversation now = record {
  pending_messages = [];
  in_flight_messages = [];
  active_task = none;
  debounce_task = none;
  cancel_token = fresh_token;
  first_message_at = now;
}

abbrev pub pending_message : ℕ → Payload → PendingMessage
pending_message now payload = record {
  content = text_or_empty payload.content;
  timestamp = now;
  message_id = text_or_empty payload.message_id;
  from_number = text_or_empty payload.from_number;
  chat_guid = payload.chat_guid;
  media_url = payload.media_url;
  is_location_share = payload.is_location_share;
  raw_payload = payload;
}

-- `sorted(messages, key=timestamp)`, which is stable.
unfoldable pub sort_insert : PendingMessage → List PendingMessage → List PendingMessage
sort_insert m [] = m ∷ []
sort_insert m (x ∷ xs) = if leb m.timestamp x.timestamp then m ∷ x ∷ xs else x ∷ sort_insert m xs

unfoldable pub sort_messages : List PendingMessage → List PendingMessage
unfolding sort_insert
sort_messages [] = []
sort_messages (m ∷ ms) = sort_insert m (sort_messages ms)

-- `content in seen`
unfoldable pub seen_before : Text → List Text → Bool
unfolding text_eq
seen_before t [] = false
seen_before t (s ∷ seen) = if text_eq t s then true else seen_before t seen

-- The loop that leaves out empty contents and those seen before.
unfoldable pub combined_parts : List Text → List PendingMessage → List Text
unfolding seen_before strip
combined_parts seen [] = []
combined_parts seen (m ∷ ms) =
    let content = strip m.content in
    let kept = combined_parts (content ∷ seen) ms in
    let rest = combined_parts seen ms in
    if is_filled content && not (seen_before content seen) then content ∷ kept else rest

unfoldable pub combine_messages : List PendingMessage → Text
unfolding combined_parts sort_messages join
combine_messages messages = join (codes "\n") (combined_parts [] (sort_messages messages))

-- The media of the first message that has some, over those of the payload.
unfoldable pub first_media : List PendingMessage → Option Text → Option Text
first_media [] media = media
first_media (m ∷ ms) media =
    let rest = first_media ms media in
    if is_filled (text_or_empty m.media_url) then m.media_url else rest

unfoldable pub combined_payload : PendingMessage → List PendingMessage → Payload
unfolding combine_messages first_media
combined_payload m ms =
    let base = m.raw_payload in
    record base {
      content = some (combine_messages (m ∷ ms));
      coalesced_count = some (length (m ∷ ms));
      coalesced_message_ids = some (map (λ x. x.message_id) (m ∷ ms));
      media_url = first_media (m ∷ ms) base.media_url;
    }

unfoldable pub start_processing : ℕ → List PendingMessage → ConversationState → ConversationState
unfolding combined_payload reset_token
start_processing now [] state = state
start_processing now (m ∷ ms) state = record state {
  pending_messages = [];
  in_flight_messages = m ∷ ms;
  first_message_at = now;
  cancel_token = reset_token state.cancel_token;
  active_task = some (combined_payload m ms);
}

unfoldable pub process_now : ℕ → ConversationState → ConversationState
unfolding start_processing
process_now now state = start_processing now state.pending_messages state

-- How a task ends: its callback returns, or raises, or the task is cancelled before that.
pub data Outcome : Type 0 where
  completed failed cancelled : Outcome

-- The end of `_run_processing`.
unfoldable pub end_processing : Outcome → ConversationState → ConversationState
end_processing cancelled state = record state { active_task = none }
end_processing _ state = record state { in_flight_messages = []; active_task = none }

-- The branch of `_enqueue_message_locked` that cancels the running task and waits for its end.
-- The task may have returned or raised in place of ending by the cancellation.
unfoldable pub cancel_active : Outcome → Option Payload → ConversationState → ConversationState
unfolding end_processing cancel_token_with
cancel_active outcome none state = state
cancel_active outcome (some running) state =
    let signalled = record state {
      cancel_token = cancel_token_with "New message received" state.cancel_token;
    } in
    let ended = end_processing outcome signalled in
    record ended {
      pending_messages = ended.in_flight_messages ++ ended.pending_messages;
      in_flight_messages = [];
    }

abbrev pub is_idle : List PendingMessage → Option Payload → Bool
is_idle [] none = true
is_idle _ _ = false

unfoldable pub start_debounce_timer : ℕ → ℕ → ℕ → ConversationState → ConversationState
unfolding process_now
start_debounce_timer debounce_ms max_window_ms now state =
    let wait_ms = min debounce_ms ((state.first_message_at + max_window_ms) - now) in
    if wait_ms == 0
    then process_now now (record state { debounce_task = none })
    else record state { debounce_task = some (now + wait_ms) }

unfoldable pub enqueue_message :
    ℕ → ℕ → ℕ → ℕ → Outcome → Payload → ConversationState → ConversationState
unfolding cancel_active process_now start_debounce_timer
enqueue_message debounce_ms max_window_ms now later outcome payload state =
    let pending = pending_message now payload in
    let idle = cancel_active outcome state.active_task state in
    let first =
      if is_idle idle.pending_messages idle.active_task then now else idle.first_message_at in
    let queued = record idle {
      first_message_at = first;
      pending_messages = idle.pending_messages ++ (pending ∷ []);
    } in
    if payload.is_location_share
    then process_now later queued
    else start_debounce_timer debounce_ms max_window_ms later queued

-- `_debounce_wait` when its sleep is over.
unfoldable pub timer_fires : ℕ → Option ℕ → ConversationState → ConversationState
unfolding process_now
timer_fires now none state = state
timer_fires now (some wakes) state =
    if leb wakes now then process_now now (record state { debounce_task = none }) else state

unfoldable pub debounce_wait : ℕ → ConversationState → ConversationState
unfolding timer_fires
debounce_wait now state = timer_fires now state.debounce_task state
