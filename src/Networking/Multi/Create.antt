-- ===== src/Networking/Multi/Create.antt =====
-- `create_multi_person_group` of `HandshakeManager`: the participants are gathered, the group is
-- created, and then the requests are marked, in the order of the list.
use Prim.Native.String.{String}
use franklink.Prelude.{
  ℕ, Bool, true, false, Option, none, some, List, [], ◌∷◌, ◌++◌, ltb, length, if◌then◌else◌,
}
use franklink.Networking.Status.{target_accepted, group_created}
use franklink.Networking.Fault.{
  Result, ok, raised, ◌>>=◌, not_enough_participants, group_service_failed,
}
use franklink.Networking.Table.{Table}
use franklink.Networking.Requests.{
  RequestRow, is_truthy, get_connection_request, update_connection_request_status,
}
use franklink.Networking.Multi.{
  User, Participant, GroupRequest, GroupService, Gathered, nothing_gathered, add_reasons,
  participant_of,
}

-- The answer of `create_multi_person_group`.
pub record CreatedGroup : Type 0 where
  pub chat_guid : Option String
  pub participants : List Participant
  pub signal_group_id : String

-- The additional updates of a request whose group has the chat.
abbrev pub chat_updates : {S : Type 0} → ℕ → Option String → RequestRow S → RequestRow S
chat_updates now guid row = record row {
  group_chat_guid = guid;
  multi_match_chat_guid = guid;
  group_created_at = some now;
}

module _ {S : Type 0} (R : Table (RequestRow S)) where
  module _ (users : String → Result (Option User)) where
    -- The first request gives the initiator and the purpose.
    abbrev pub note_request : RequestRow S → Gathered → Gathered
    note_request row g = elim g.initiator [
      | some user ↦ record g { reasons = add_reasons row.matching_reasons g.reasons }
      | none ↦ record g {
        initiator = some row.initiator_user_id;
        purpose = row.connection_purpose;
        reasons = add_reasons row.matching_reasons g.reasons;
      }
    ]

    abbrev pub note_target : String → RequestRow S → Option User → Gathered → Gathered
    note_target id row user g = record g {
      participants = g.participants ++ participant_of row.target_user_id false (some id) user;
    }

    -- The loop over the accepted requests; a request that is not found is left out.
    unfoldable pub gather : List String → R.Store → Gathered → Result Gathered
    unfolding get_connection_request add_reasons
    gather [] st g = ok g
    gather (id ∷ ids) st g = elim (get_connection_request R id st) [
      | none ↦ gather ids st g
      | some row ↦
          users row.target_user_id
          >>= (λ user. gather ids st (note_target id row user (note_request row g)))
    ]

    abbrev pub with_initiator : Gathered → Result Gathered
    with_initiator g = elim g.initiator [
      | none ↦ ok g
      | some user_id ↦
          if is_truthy (some user_id)
          then users user_id >>= (λ user.
            ok
              (record g { participants = participant_of user_id true none user ++ g.participants }))
          else ok g
    ]

    abbrev pub enough : Gathered → Result Gathered
    enough g = if ltb (length g.participants) 2 then raised not_enough_participants else ok g

    unfoldable pub gather_group : List String → R.Store → Result Gathered
    unfolding gather
    gather_group ids st = gather ids st nothing_gathered >>= with_initiator >>= enough

  -- What follows an update, unless it raises.
  abbrev pub after_update :
      Result (RequestRow S) × R.Store → (R.Store → Result Bool × R.Store) → Result Bool × R.Store
  after_update (raised e, st) next = (raised e, st)
  after_update (ok row, st) next = next st

  module _ (valid_uuid : String → Bool) where
    -- One request is marked, if it is still accepted.
    unfoldable pub mark_request :
        ℕ → Option String → String → R.Store → Result (RequestRow S) × R.Store
    mark_request now guid id st =
        update_connection_request_status R valid_uuid now id group_created (chat_updates now guid)
          (some target_accepted) st

    -- The loop over the requests; the answer of it is true.
    unfoldable pub mark_all : ℕ → Option String → List String → R.Store → Result Bool × R.Store
    unfolding mark_request
    mark_all now guid [] st = (ok true, st)
    mark_all now guid (id ∷ ids) st =
        after_update (mark_request now guid id st) (mark_all now guid ids)

    module _ {W : Type 0} (service : GroupService W) (users : String → Result (Option User)) where
      abbrev pub marked :
          Option String
          → String
          → Gathered
          → W
          → Result Bool × R.Store
          → Result CreatedGroup × (R.Store × W)
      marked guid group g w (raised e, st) = (raised e, (st, w))
      marked guid group g w (ok b, st) = (
        ok (record { chat_guid = guid; participants = g.participants; signal_group_id = group }),
        (st, w),
      )

      abbrev pub group_placed :
          ℕ
          → String
          → List String
          → Gathered
          → R.Store
          → Option (Option String) × W
          → Result CreatedGroup × (R.Store × W)
      group_placed now group ids g st (none, w) = (raised group_service_failed, (st, w))
      group_placed now group ids g st (some guid, w) =
          marked guid group g w (mark_all now guid ids st)

      abbrev pub group_request : String → Gathered → GroupRequest
      group_request group g = record {
        participants = g.participants;
        signal_group_id = group;
        matching_reasons = g.reasons;
        connection_purpose = g.purpose;
      }

      unfoldable pub create_multi_person_group :
          ℕ → String → List String → R.Store × W → Result CreatedGroup × (R.Store × W)
      unfolding gather_group mark_all
      create_multi_person_group now group ids (st, w) = elim (gather_group users ids st) [
        | raised e ↦ (raised e, (st, w))
        | ok g ↦ group_placed now group ids g st (service.create_group (group_request group g) w)
      ]
