-- ===== src/Networking/Multi/Tests.antt =====
-- Two accepted requests of one group, over tables in memory.
use Prim.Native.String.{String}
use franklink.Prelude.{
  ℕ, ◌≤◌, ◌+◌, ◌≡◌, refl, Bool, true, false, List, [], ◌∷◌, Option, none, some, All,
}
use franklink.Networking.Status.{Status, status_in, valid_status_transitions}
use franklink.Networking.Fault.{Result, ok, raised, changed_concurrently}
use franklink.Networking.Table.{Table, list_table, where_rows, update_where}
use franklink.Networking.Flows.{FlowRow}
use franklink.Networking.Requests.{
  RequestRow, of_id, expects, allowed, get_connection_request, text_in,
  update_connection_request_status,
}
use franklink.Networking.Matches.{MatchDetails}
use franklink.Networking.Handshake.{Env}
use franklink.Networking.Handshake.Approvals.{AllRecorded}
use franklink.Networking.Multi.{
  User, Participant, GroupService, add_reasons, max_threshold, max_chat, ready_check, multi_match,
}
use franklink.Networking.Multi.Accept.{check_multi_match_ready, target_accepts_multi_match}
use franklink.Networking.Multi.Create.{
  CreatedGroup, gather, gather_group, mark_request, mark_all, create_multi_person_group,
}
use franklink.Networking.Multi.Recorded.{MultiStep, accepts_multi, creates_group, joins, run_multi}
use franklink.Networking.Multi.Provision.{GroupTools, provisioning}
use franklink.Networking.Multi.Provisioned.{run_provisioned-IsRecorded}
use franklink.Networking.Multi.Marked.{Exists, HasChat}
use franklink.Networking.Multi.Group.{create_multi_person_group-HasChat}
use franklink.Networking.Multi.Twice.{create_multi_person_group_twice}

abbrev request_rows : Table (RequestRow ℕ)
request_rows = list_table (RequestRow ℕ) "r9"

abbrev flow_rows : Table (FlowRow (MatchDetails ℕ))
flow_rows = list_table (FlowRow (MatchDetails ℕ)) "key"

abbrev every_text : String → Bool
every_text text = true

abbrev first_text : String → String → String
first_text a b = a

-- A service that counts its chats.
abbrev chats : GroupService ℕ
chats = record {
  create_group = λ request n. (some (some "chat"), n + 1);
  add_participant = λ joiner n. (true, n);
}

abbrev everyone : String → Result (Option User)
everyone user_id = ok (some (record { phone_number = some "+1"; name = some "friend" }))

-- The request `id` of ann's group `g` to `target`.
abbrev request_of : String → String → Status → RequestRow ℕ
request_of id target status = record {
  id = id;
  initiator_user_id = "ann";
  target_user_id = target;
  match_score = none;
  matching_reasons = "chess" ∷ [];
  llm_introduction = none;
  llm_concern = none;
  status = status;
  excluded_candidates = none;
  connection_purpose = some "study group";
  signal_group_id = some "g";
  is_multi_match = true;
  multi_match_threshold = 2;
  group_chat_guid = none;
  multi_match_chat_guid = none;
  decline_reason = none;
  target_notified_at = some 2;
  target_responded_at = none;
  group_created_at = none;
  expires_at = 9;
  created_at = 1;
  updated_at = 1;
}

abbrev invited : List (RequestRow ℕ)
invited =
    request_of "r1" "bob" Status.pending_target_approval
    ∷ request_of "r2" "cat" Status.pending_target_approval
    ∷ []

-- The second acceptance reaches the threshold.
second-ready :
    (target_accepts_multi_match request_rows every_text first_text 4 "r2"
      (target_accepts_multi_match request_rows every_text first_text 3 "r1" invited).1).0
    ≡ ok (
      record (request_of "r2" "cat" Status.target_accepted) {
        target_responded_at = some 4;
        updated_at = 4;
      },
      multi_match "g" (record {
        ready = true;
        accepted_count = 2;
        threshold = 2;
        accepted_request_ids = some ("r1" ∷ "r2" ∷ []);
        chat_guid = none;
      }),
    )
unfolding target_accepts_multi_match check_multi_match_ready ready_check max_threshold max_chat
    update_connection_request_status allowed expects of_id status_in valid_status_transitions
    update_where where_rows
second-ready = refl

abbrev waiting : Env request_rows flow_rows
waiting = record { requests = invited; flows = record { cache = []; store = [] } }

abbrev group_steps : List (MultiStep ℕ)
group_steps =
    accepts_multi 3 "r1"
    ∷ accepts_multi 4 "r2"
    ∷ creates_group 5 "g" ("r1" ∷ "r2" ∷ [])
    ∷ joins 6 "r1" "chat"
    ∷ []

-- Tools that count the chats.
abbrev plain_tools : GroupTools ℕ
plain_tools = record {
  generate_welcome = λ names signal reasons n. (some "welcome", n);
  create_group_chat = λ phones message n. (some (some "chat"), n + 1);
  display_name = λ names purpose. purpose;
  update_chat = λ chat name n. n;
  create_identity = λ chat members request name n. n;
  add_row = λ chat user_id is_initiator request n. n;
  record_outbound = λ chat message group n. n;
  add_address = λ chat phone n. (true, n);
  generate_intro = λ j n. (some "hello", n);
  send_and_record = λ chat message user_id n. (true, n);
  participant_ids = λ chat n. none;
  update_member_count = λ chat n. n;
}

run_provisioned-IsRecorded_example :
    AllRecorded request_rows flow_rows every_text
      (run_multi request_rows flow_rows every_text first_text
        (provisioning plain_tools)
        everyone
        group_steps
        (waiting, 0)).0
run_provisioned-IsRecorded_example =
    run_provisioned-IsRecorded plain_tools request_rows flow_rows every_text first_text everyone
      group_steps waiting 0 (tt, (tt, tt))

abbrev both_accepted : List (RequestRow ℕ)
both_accepted =
    request_of "r1" "bob" Status.target_accepted ∷ request_of "r2" "cat" Status.target_accepted ∷ []

abbrev member_of : String → Bool → Option String → Participant
member_of user_id is_initiator request_id = record {
  user_id = user_id;
  phone = some "+1";
  name = some "friend";
  is_initiator = is_initiator;
  request_id = request_id;
}

abbrev trio : CreatedGroup
trio = record {
  chat_guid = some "chat";
  participants =
      member_of "ann" true none
      ∷ member_of "bob" false (some "r1")
      ∷ member_of "cat" false (some "r2")
      ∷ [];
  signal_group_id = "g";
}

create_multi_person_group-HasChat_example :
    (2 ≤ 3)
    × All
        (λ id.
          Exists
            (HasChat (some "chat") id)
            (create_multi_person_group request_rows every_text chats everyone 5 "g"
              ("r1" ∷ "r2" ∷ [])
              (both_accepted, 0)).1.0)
        ("r1" ∷ "r2" ∷ [])
unfolding create_multi_person_group gather_group gather add_reasons text_in get_connection_request
    mark_all mark_request update_connection_request_status allowed expects of_id status_in
    valid_status_transitions update_where where_rows
create_multi_person_group-HasChat_example =
    create_multi_person_group-HasChat request_rows every_text chats everyone 5 "g"
      ("r1" ∷ "r2" ∷ []) both_accepted 0 trio refl

-- The second chat is created, and then refused.
create_multi_person_group_twice_example :
    ((create_multi_person_group request_rows every_text chats everyone 6 "g" ("r1" ∷ "r2" ∷ []) (
      (create_multi_person_group request_rows every_text chats everyone 5 "g"
          ("r1" ∷ "r2" ∷ [])
          (both_accepted, 0)).1.0,
      1,
    )).0
      ≡ raised changed_concurrently)
    × ((create_multi_person_group request_rows every_text chats everyone 6 "g" ("r1" ∷ "r2" ∷ []) (
      (create_multi_person_group request_rows every_text chats everyone 5 "g"
          ("r1" ∷ "r2" ∷ [])
          (both_accepted, 0)).1.0,
      1,
    )).1.0
        ≡ (create_multi_person_group request_rows every_text chats everyone 5 "g"
            ("r1" ∷ "r2" ∷ [])
            (both_accepted, 0)).1.0)
    × ((create_multi_person_group request_rows every_text chats everyone 6 "g" ("r1" ∷ "r2" ∷ []) (
      (create_multi_person_group request_rows every_text chats everyone 5 "g"
          ("r1" ∷ "r2" ∷ [])
          (both_accepted, 0)).1.0,
      1,
    )).1.1
        ≡ 2)
unfolding create_multi_person_group gather_group gather add_reasons text_in get_connection_request
    mark_all mark_request update_connection_request_status allowed expects of_id status_in
    valid_status_transitions update_where where_rows
create_multi_person_group_twice_example =
    create_multi_person_group_twice request_rows every_text chats everyone 5 6 "g" "r1" ("r2" ∷ [])
      ("r2" ∷ []) both_accepted 0 1 2 trio _ _ _ refl refl refl refl
