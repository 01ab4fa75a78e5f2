-- ===== src/Networking/Multi/Provision.antt =====
-- `create_multi_person_group` and `add_participant_to_group` of `GroupChatService` in
-- app/groupchat/features/provisioning.py. What they call is an interface: the messaging service, the
-- generation of messages and the tables of group chats.
use Prim.Native.String.{String, ◌++◌ as append_text}
use franklink.Prelude.{
  ℕ, Bool, true, false, ◌||◌, Option, none, some, List, [], ◌∷◌, if◌then◌else◌, ltb, length,
}
use franklink.Networking.Requests.{is_truthy, text_in}
use franklink.Networking.Multi.{Participant, GroupRequest, Joiner, GroupService}

-- A call that is caught where it raises answers only the world that it leaves; one that raises
-- answers `none` or false.
pub record GroupTools (W : Type 0) : Type 0 where
  pub generate_welcome : List String → String → List String → W → Option String × W
  -- `photon.create_group_chat`, which answers the chat's GUID, if there is one
  pub create_group_chat : List String → String → W → Option (Option String) × W
  pub display_name : List String → Option String → Option String
  pub update_chat : String → String → W → W
  pub create_identity : String → ℕ → Option String → Option String → W → W
  pub add_row : String → String → Bool → Option String → W → W
  pub record_outbound : String → String → String → W → W
  -- `photon.add_participant`
  pub add_address : String → Option String → W → Bool × W
  pub generate_intro : Joiner → W → Option String × W
  pub send_and_record : String → String → String → W → Bool × W
  pub participant_ids : String → W → Option (List String)
  pub update_member_count : String → W → W

-- The values that are some and not empty.
unfoldable pub filled_texts : List (Option String) → List String
filled_texts [] = []
filled_texts (none ∷ ts) = filled_texts ts
filled_texts (some t ∷ ts) =
    let rest = filled_texts ts in if is_truthy (some t) then t ∷ rest else rest

abbrev pub phones_of : List Participant → List (Option String)
phones_of [] = []
phones_of (p ∷ ps) = p.phone ∷ phones_of ps

abbrev pub names_of : List Participant → List (Option String)
names_of [] = []
names_of (p ∷ ps) = p.name ∷ names_of ps

-- `", ".join(names[:-1]) + f" and {names[-1]}"`
unfoldable pub join_names : String → List String → String
join_names name [] = name
join_names name (last ∷ []) = append_text name (append_text " and " last)
join_names name (next ∷ more ∷ rest) =
    append_text name (append_text ", " (join_names next (more ∷ rest)))

abbrev pub names_text : List String → Option String
names_text [] = none
names_text (name ∷ names) = some (join_names name names)

-- The fallback raises where there is no name.
abbrev pub fallback_message : Option String → Option String
fallback_message none = none
fallback_message (some names) = some (
    append_text "hey everyone! connected you all because you have similar interests. "
      (append_text names ", thought you'd benefit from knowing each other"))

abbrev pub welcome_or_fallback : List String → String → Option String
welcome_or_fallback names welcome =
    if is_truthy (some welcome) then some welcome else fallback_message (names_text names)

-- `connection_purpose or (matching_reasons[0] if matching_reasons else "similar interests")`
abbrev pub signal_text : Option String → List String → String
signal_text none [] = "similar interests"
signal_text none (reason ∷ reasons) = reason
signal_text (some purpose) reasons = elim reasons [
  | [] ↦ if is_truthy (some purpose) then purpose else "similar interests"
  | reason ∷ more ↦ if is_truthy (some purpose) then purpose else reason
]

unfoldable pub initiator_request : List Participant → Option String
initiator_request [] = none
initiator_request (p ∷ ps) = if p.is_initiator then p.request_id else initiator_request ps

module _ {W : Type 0} (tools : GroupTools W) where
  unfoldable pub store_participants : String → List Participant → W → W
  store_participants chat [] w = w
  store_participants chat (p ∷ ps) w =
      store_participants chat ps (tools.add_row chat p.user_id p.is_initiator p.request_id w)

  abbrev pub renamed : String → Option String → W → W
  renamed chat none w = w
  renamed chat (some name) w = if is_truthy (some name) then tools.update_chat chat name w else w

  -- What is recorded of a chat that was made; what raises there is caught.
  abbrev pub chat_recorded : GroupRequest → List String → String → String → W → W
  chat_recorded request names message chat w =
      let name = tools.display_name names request.connection_purpose in
      tools.record_outbound chat message request.signal_group_id (
        store_participants chat request.participants (
          tools.create_identity chat (length request.participants)
            (initiator_request request.participants) name (renamed chat name w)))

  abbrev pub chat_made :
      GroupRequest → List String → String → Option (Option String) × W → Option (Option String) × W
  chat_made request names message (none, w) = (none, w)
  chat_made request names message (some none, w) = (none, w)
  chat_made request names message (some (some chat), w) =
      if is_truthy (some chat)
      then (some (some chat), chat_recorded request names message chat w)
      else (none, w)

  abbrev pub message_sent :
      GroupRequest → List String → List String → W → Option String → Option (Option String) × W
  message_sent request phones names w none = (none, w)
  message_sent request phones names w (some message) =
      chat_made request names message (tools.create_group_chat phones message w)

  abbrev pub message_made :
      GroupRequest → List String → List String → Option String × W → Option (Option String) × W
  message_made request phones names (none, w) = (none, w)
  message_made request phones names (some welcome, w) =
      message_sent request phones names w (welcome_or_fallback names welcome)

  unfoldable pub provision_group : GroupRequest → W → Option (Option String) × W
  unfolding filled_texts
  provision_group request w =
      let phones = filled_texts (phones_of request.participants) in
      let names = filled_texts (names_of request.participants) in
      if ltb (length request.participants) 2 || ltb (length phones) 2
      then (none, w)
      else message_made request phones names (
          tools.generate_welcome names
            (signal_text request.connection_purpose request.matching_reasons)
            request.matching_reasons w)

  -- The new member's row and the number of members, unless the member is there already.
  abbrev pub member_stored : Joiner → Option (List String) → W → W
  member_stored j ids w =
      if known ids
      then w
      else tools.update_member_count j.chat_guid
          (tools.add_row j.chat_guid j.user_id false (some j.connection_request_id) w)
    where
      known : Option (List String) → Bool
      known none = false
      known (some members) = text_in j.user_id members

  abbrev pub announced : Joiner → Bool × W → Bool × W
  announced j (false, w) = (false, w)
  announced j (true, w) = (true, member_stored j (tools.participant_ids j.chat_guid w) w)

  abbrev pub introduced : Joiner → Option String × W → Bool × W
  introduced j (none, w) = (false, w)
  introduced j (some intro, w) = announced j (tools.send_and_record j.chat_guid intro j.user_id w)

  abbrev pub address_added : Joiner → Bool × W → Bool × W
  address_added j (false, w) = (false, w)
  address_added j (true, w) = introduced j (tools.generate_intro j w)

  unfoldable pub provision_member : Joiner → W → Bool × W
  provision_member j w = address_added j (tools.add_address j.chat_guid j.phone w)

  unfoldable pub provisioning : GroupService W
  unfolding provision_group provision_member
  provisioning = record { create_group = provision_group; add_participant = provision_member }
