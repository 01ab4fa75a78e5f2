-- ===== src/Coalescer/Tests.antt =====
-- The coalescer on concrete messages.
use Prim.Native.String.{String}
use franklink.Prelude.{◌≡◌, ◌++◌, refl, false, none, some, List, [], ◌∷◌, arith, map}
use franklink.Text.{Text, codes}
use franklink.Text.Strip.{is_space}
use franklink.Text.Find.{starts_with}
use franklink.Text.Equal.{join, text_eq}
use franklink.Coalescer.Conversations.{
  AnyEvent, message as message_arrives, timer, own, or_new, find, run_all, find-run_all,
}
use franklink.Coalescer.{
  Payload, PendingMessage, completed, cancelled, pending_message, combine_messages,
  build_conversation_key, debounce_wait,
}
use franklink.Coalescer.Combine.{PartsOf, combine_messages-PartsOf}
use franklink.Coalescer.Conversation.{Event, arrives, wakes, run, settled, arrived}
use franklink.Coalescer.InOrder.{run_in_order}
use franklink.Coalescer.Prompt.{run-debounce_wait}

abbrev message : String → Payload
message text = record {
  content = some (codes text);
  message_id = none;
  from_number = some (codes "+16463707933");
  chat_guid = none;
  media_url = none;
  is_location_share = false;
  coalesced_count = none;
  coalesced_message_ids = none;
  others = [];
}

-- Two messages are processed together and their task is cancelled by a third one; the timer then
-- wakes once more. The newest event comes first.
abbrev history : List Event
history =
    wakes 6000
    ∷ arrives 3000 3010 cancelled (message "in AI")
    ∷ wakes 2600
    ∷ arrives 1000 1001 completed (message "find a mentor")
    ∷ arrives 0 1 completed (message "yo frank")
    ∷ []

run-cancelled :
    map (λ m. m.timestamp) (run 1500 10000 0 history).in_flight_messages ≡ 0 ∷ 1000 ∷ 3000 ∷ []
unfolding run
run-cancelled = refl

run_in_order_example :
    settled 1500 10000 0 history
      ++ ((run 1500 10000 0 history).in_flight_messages
          ++ (run 1500 10000 0 history).pending_messages)
    ≡ arrived history
run_in_order_example = run_in_order 1500 10000 0 history

abbrev waiting : List Event
waiting =
    arrives 1000 1001 completed (message "find a mentor")
    ∷ arrives 0 1 completed (message "yo frank")
    ∷ []

waiting_start : (run 1500 10000 0 waiting).first_message_at ≡ 0
unfolding run
waiting_start = refl

run-debounce_wait_example :
    ((debounce_wait 10000 (run 1500 10000 0 waiting)).pending_messages ≡ [])
    × ((debounce_wait 10000 (run 1500 10000 0 waiting)).in_flight_messages
        ≡ (run 1500 10000 0 waiting).in_flight_messages
          ++ (run 1500 10000 0 waiting).pending_messages)
run-debounce_wait_example =
    run-debounce_wait 1500 10000 0 waiting 10000 (omega (arith, waiting_start))

abbrev two : List PendingMessage
two = pending_message 7 (message " hi ") ∷ pending_message 3 (message "hi") ∷ []

combine_two : combine_messages two ≡ codes "hi"
unfolding combine_messages is_space
combine_two = refl

combine_messages-PartsOf_example :
    (parts : List Text) × (combine_messages two ≡ join (codes "\n") parts) × PartsOf two parts
combine_messages-PartsOf_example = combine_messages-PartsOf two

key-group :
    build_conversation_key (record (message "x") { chat_guid = some (codes "any;+;1") })
    ≡ codes "group:any;+;1"
unfolding build_conversation_key starts_with
key-group = refl

abbrev ann_key : Text
ann_key = codes "dm:+16463707933"

-- Messages of a user and of a group chat, whose steps alternate.
abbrev both_histories : List AnyEvent
both_histories =
    timer 1700 ann_key
    ∷ message_arrives 400 401 completed
        (record (message "hello all") { chat_guid = some (codes "any;+;1") })
    ∷ message_arrives 0 1 completed (message "yo frank")
    ∷ []

own_events :
    own ann_key both_histories ≡ wakes 1700 ∷ arrives 0 1 completed (message "yo frank") ∷ []
unfolding own build_conversation_key starts_with text_eq
own_events = refl

find-run_all_example :
    or_new 0 (find ann_key (run_all 1500 10000 both_histories))
    ≡ run 1500 10000 0 (own ann_key both_histories)
find-run_all_example = find-run_all 1500 10000 0 ann_key both_histories
