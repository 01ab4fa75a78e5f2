-- ===== src/Networking/Multi.antt =====
-- The multi-match methods of `HandshakeManager`, on the table of requests. `GroupChatService` is an
-- interface, which Provision fills; `W` is the world that it changes. `users` is `get_user_by_id`,
-- which may raise; `text_max` is the order of the database's texts.
pub mod Accept
pub mod Create
pub mod Join
pub mod Cases
pub mod Provision
pub mod Marked
pub mod Group
pub mod Twice
pub mod Recorded
pub mod Provisioned
mod Tests
use Prim.Native.String.{String}
use text.Mathlib.Text.{◌==◌ as str_eq}
use franklink.Prelude.{
  ℕ, Bool, true, false, not, ◌&&◌, ◌||◌, Option, none, some, List, [], ◌∷◌, ◌++◌, map, max, leb,
  ltb, length, if◌then◌else◌,
}
use franklink.Networking.Status.{Status, target_accepted, group_created, status_eq}
use franklink.Networking.Fault.{
  Result, ok, raised, ◌>>=◌, request_failed, not_found, user_not_found, not_enough_participants,
  group_service_failed,
}
use franklink.Networking.Table.{Table, where_rows}
use franklink.Networking.Requests.{
  RequestRow, is_truthy, text_in, get_connection_request, update_connection_request_status,
}

pub record User : Type 0 where
  pub phone_number : Option String
  pub name : Option String

pub record Participant : Type 0 where
  pub user_id : String
  pub phone : Option String
  pub name : Option String
  pub is_initiator : Bool
  pub request_id : Option String

-- The arguments of `GroupChatService.create_multi_person_group`.
pub record GroupRequest : Type 0 where
  pub participants : List Participant
  pub signal_group_id : String
  pub matching_reasons : List String
  pub connection_purpose : Option String

-- The arguments of `GroupChatService.add_participant_to_group`.
pub record Joiner : Type 0 where
  pub chat_guid : String
  pub user_id : String
  pub phone : Option String
  pub name : Option String
  pub connection_request_id : String
  pub existing_member_names : List (Option String)
  pub connection_purpose : Option String
  pub matching_reasons : List String
  pub llm_introduction : Option String

-- Both methods may raise. The first answers the chat's GUID, which may be missing.
pub record GroupService (W : Type 0) : Type 0 where
  pub create_group : GroupRequest → W → Option (Option String) × W
  pub add_participant : Joiner → W → Bool × W

-- A row of the SQL function `check_multi_match_ready_v1`.
pub record ReadyCheck : Type 0 where
  pub ready : Bool
  pub accepted_count : ℕ
  pub threshold : ℕ
  pub accepted_request_ids : Option (List String)
  pub chat_guid : Option String

-- `request["multi_match_status"]`
pub data MultiMatchStatus : Type 0 where
  single_match : MultiMatchStatus
  multi_match : String → ReadyCheck → MultiMatchStatus

abbrev pub coalesce_two : Option ℕ → ℕ
coalesce_two none = 2
coalesce_two (some n) = n

abbrev pub max_text : (String → String → String) → Option String → Option String → Option String
max_text text_max none b = b
max_text text_max (some a) none = some a
max_text text_max (some a) (some b) = some (text_max a b)

module _ {S : Type 0} where
  abbrev pub is_accepted : RequestRow S → Bool
  is_accepted row = status_eq row.status target_accepted

  abbrev pub in_group : String → RequestRow S → Bool
  in_group group row = elim row.signal_group_id [ none ↦ false | some g ↦ str_eq g group ]

  -- `MAX` of a column, none of no rows.
  unfoldable pub max_threshold : List (RequestRow S) → Option ℕ
  max_threshold [] = none
  max_threshold (row ∷ rows) = elim (max_threshold rows) [
    | none ↦ some row.multi_match_threshold
    | some n ↦ some (max row.multi_match_threshold n)
  ]

  -- `ARRAY_AGG`, null of no rows
  abbrev pub ids_of : List (RequestRow S) → Option (List String)
  ids_of [] = none
  ids_of (row ∷ rows) = some (map (λ (r : RequestRow S). r.id) (row ∷ rows))

  unfoldable pub max_chat : (String → String → String) → List (RequestRow S) → Option String
  max_chat text_max [] = none
  max_chat text_max (row ∷ rows) =
      max_text text_max row.multi_match_chat_guid (max_chat text_max rows)

  -- The SQL function, on the rows of the group.
  unfoldable pub ready_check : (String → String → String) → List (RequestRow S) → ReadyCheck
  unfolding max_threshold max_chat
  ready_check text_max rows =
      let accepted = where_rows is_accepted rows in
      let threshold = coalesce_two (max_threshold rows) in
      record {
        ready = leb threshold (length accepted);
        accepted_count = length accepted;
        threshold = threshold;
        accepted_request_ids = ids_of accepted;
        chat_guid = max_chat text_max rows;
      }

abbrev pub not_ready : ReadyCheck
not_ready = record {
  ready = false;
  accepted_count = 0;
  threshold = 2;
  accepted_request_ids = some [];
  chat_guid = none;
}

-- What is gathered from the requests of a group.
pub record Gathered : Type 0 where
  pub participants : List Participant
  pub initiator : Option String
  pub reasons : List String
  pub purpose : Option String

abbrev pub nothing_gathered : Gathered
nothing_gathered = record { participants = []; initiator = none; reasons = []; purpose = none }

unfoldable pub add_reasons : List String → List String → List String
add_reasons [] reasons = reasons
add_reasons (reason ∷ more) reasons =
    add_reasons more (if text_in reason reasons then reasons else reasons ++ reason ∷ [])

abbrev pub participant_of : String → Bool → Option String → Option User → List Participant
participant_of user_id is_initiator request_id none = []
participant_of user_id is_initiator request_id (some user) =
    record {
      user_id = user_id;
      phone = user.phone_number;
      name = user.name;
      is_initiator = is_initiator;
      request_id = request_id;
    }
    ∷ []
