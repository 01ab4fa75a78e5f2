-- ===== src/Networking/Multi/Join.antt =====
-- `add_late_joiner_to_group` of `HandshakeManager`.
use Prim.Native.String.{String}
use text.Mathlib.Text.{◌==◌ as str_eq}
use franklink.Prelude.{
  ℕ, Bool, true, false, not, ◌&&◌, Option, none, some, List, [], ◌∷◌, ◌++◌, if◌then◌else◌,
}
use franklink.Networking.Status.{group_created, status_eq}
use franklink.Networking.Fault.{
  Result, ok, raised, ◌>>=◌, request_failed, not_found, user_not_found, group_service_failed,
}
use franklink.Networking.Table.{Table}
use franklink.Networking.Requests.{RequestRow, is_truthy, text_in, get_connection_request}
use franklink.Networking.Multi.Create.{mark_request}
use franklink.Networking.Multi.{User, Joiner, GroupService, in_group}

-- The answer of `add_late_joiner_to_group`.
pub record AddedJoiner : Type 0 where
  pub chat_guid : String
  pub added_user_id : String
  pub added_user_name : Option String

module _ {S : Type 0} (R : Table (RequestRow S)) where
  -- The requests of the group that have its chat.
  abbrev pub grouped : String → RequestRow S → Bool
  grouped group row = in_group group row && status_eq row.status group_created

  module _ (users : String → Result (Option User)) where
    -- The names of the members but for the joiner, each once. A user that is not found has none.
    unfoldable pub member_names : String → List String → List String → Result (List (Option String))
    member_names target [] seen = ok []
    member_names target (user_id ∷ more) seen =
        let rest = member_names target more seen in
        let rest' = member_names target more (user_id ∷ seen) in
        if is_truthy (some user_id) && not (str_eq user_id target) && not (text_in user_id seen)
        then users user_id >>= (λ user. rest' >>= (λ names. ok (name_of user ++ names)))
        else rest
      where
        name_of : Option User → List (Option String)
        name_of none = []
        name_of (some user) = user.name ∷ []

    abbrev pub both_users : List (RequestRow S) → List String
    both_users [] = []
    both_users (row ∷ rows) = row.initiator_user_id ∷ row.target_user_id ∷ both_users rows

    abbrev pub names_in : String → Option (List (RequestRow S)) → Result (List (Option String))
    names_in target none = raised request_failed
    names_in target (some rows) = member_names target (both_users rows) []

    unfoldable pub existing_member_names : RequestRow S → R.Store → Result (List (Option String))
    unfolding member_names
    existing_member_names row st = elim row.signal_group_id [
      | none ↦ ok []
      | some group ↦
          if is_truthy (some group)
          then names_in row.target_user_id (R.select (grouped group) st)
          else ok []
    ]

    abbrev pub found_user : Option User → Result User
    found_user none = raised user_not_found
    found_user (some user) = ok user

    abbrev pub found_request : Option (RequestRow S) → Result (RequestRow S)
    found_request none = raised not_found
    found_request (some row) = ok row

    -- The arguments for the service.
    unfoldable pub joiner : String → String → R.Store → Result Joiner
    unfolding existing_member_names get_connection_request
    joiner id chat st = found_request (get_connection_request R id st) >>= (λ row.
        users row.target_user_id >>= found_user >>= (λ user.
          existing_member_names row st >>= (λ names. ok (record {
            chat_guid = chat;
            user_id = row.target_user_id;
            phone = user.phone_number;
            name = user.name;
            connection_request_id = id;
            existing_member_names = names;
            connection_purpose = row.connection_purpose;
            matching_reasons = row.matching_reasons;
            llm_introduction = row.llm_introduction;
          }))))

    module _ {W : Type 0} (service : GroupService W) (valid_uuid : String → Bool) where
      abbrev pub join_marked :
          Joiner → W → Result (RequestRow S) × R.Store → Result AddedJoiner × (R.Store × W)
      join_marked j w (raised e, st) = (raised e, (st, w))
      join_marked j w (ok row, st) = (
        ok (record {
          chat_guid = j.chat_guid;
          added_user_id = j.user_id;
          added_user_name = j.name;
        }),
        (st, w),
      )

      abbrev pub joined : ℕ → Joiner → R.Store → Bool × W → Result AddedJoiner × (R.Store × W)
      joined now j st (false, w) = (raised group_service_failed, (st, w))
      joined now j st (true, w) =
          join_marked j w
            (mark_request R valid_uuid now (some j.chat_guid) j.connection_request_id st)

      unfoldable pub add_late_joiner_to_group :
          ℕ → String → String → R.Store × W → Result AddedJoiner × (R.Store × W)
      unfolding joiner mark_request
      add_late_joiner_to_group now id chat (st, w) = elim (joiner id chat st) [
        | raised e ↦ (raised e, (st, w))
        | ok j ↦ joined now j st (service.add_participant j w)
      ]
