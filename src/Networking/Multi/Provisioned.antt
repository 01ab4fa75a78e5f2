-- ===== src/Networking/Multi/Provisioned.antt =====
-- `GroupChatService` answers with a chat whenever it does not raise.
use mathlib.Core.Path.{subst}
use Prim.Native.String.{String}
use franklink.Prelude.{◌≡◌, Bool, ◌||◌, Option, none, some, List, IsPresent, ltb, length, if_both}
use franklink.Networking.Fault.{Result}
use franklink.Networking.Table.{Table}
use franklink.Networking.Flows.{FlowRow}
use franklink.Networking.Requests.{RequestRow, is_truthy}
use franklink.Networking.Matches.{MatchDetails}
use franklink.Networking.Handshake.{Env}
use franklink.Networking.Handshake.Approvals.{AllRecorded}
use franklink.Networking.Multi.{User, GroupRequest}
use franklink.Networking.Multi.Provision.{
  GroupTools, filled_texts, phones_of, names_of, welcome_or_fallback, chat_made, message_sent,
  message_made, signal_text, provision_group, provisioning,
}
use franklink.Networking.Multi.Recorded.{MultiStep, run_multi, run_multi-IsRecorded}

module _ {W : Type 0} (tools : GroupTools W) where
  GivesChat : Option (Option String) × W → Type 0
  GivesChat r = (guid : Option String) → r.0 ≡ some guid → IsPresent guid

  raises-GivesChat : (w : W) → GivesChat (none, w)
  unfolding GivesChat
  raises-GivesChat w guid h = cc

  chat-GivesChat : (chat : String) (w : W) → GivesChat (some (some chat), w)
  unfolding GivesChat
  chat-GivesChat chat w guid h = let same : some chat ≡ guid = cc in subst IsPresent same tt

  chat_made-GivesChat :
      (request : GroupRequest) (names : List String) (message : String)
      (r : Option (Option String) × W)
      → GivesChat (chat_made tools request names message r)
  chat_made-GivesChat request names message (none, w) = raises-GivesChat w
  chat_made-GivesChat request names message (some none, w) = raises-GivesChat w
  chat_made-GivesChat request names message (some (some chat), w) =
      if_both GivesChat (is_truthy (some chat)) _ _ (chat-GivesChat chat _) (raises-GivesChat w)

  message_sent-GivesChat :
      (request : GroupRequest) (phones names : List String) (w : W) (message : Option String)
      → GivesChat (message_sent tools request phones names w message)
  message_sent-GivesChat request phones names w none = raises-GivesChat w
  message_sent-GivesChat request phones names w (some message) =
      chat_made-GivesChat request names message (tools.create_group_chat phones message w)

  message_made-GivesChat :
      (request : GroupRequest) (phones names : List String) (r : Option String × W)
      → GivesChat (message_made tools request phones names r)
  message_made-GivesChat request phones names (none, w) = raises-GivesChat w
  message_made-GivesChat request phones names (some welcome, w) =
      message_sent-GivesChat request phones names w (welcome_or_fallback names welcome)

  provision_group-GivesChat :
      (request : GroupRequest) (w : W) → GivesChat (provision_group tools request w)
  unfolding provision_group
  provision_group-GivesChat request w =
      let phones = filled_texts (phones_of request.participants) in
      let names = filled_texts (names_of request.participants) in
      if_both GivesChat (ltb (length request.participants) 2 || ltb (length phones) 2) _ _
        (raises-GivesChat w)
        (message_made-GivesChat request phones names (
          tools.generate_welcome names
            (signal_text request.connection_purpose request.matching_reasons)
            request.matching_reasons w))

  -- With the group chats that `GroupChatService` makes, any sequence of steps of handshakes with one
  -- match and with several, failing or not, keeps every request recorded: one that awaits its target
  -- has the time when the target was notified, one that the target answered has also the time of
  -- the answer, and one with a group chat has also the chat and the time of its creation.
  pub run_provisioned-IsRecorded :
      {S : Type 0} (R : Table (RequestRow S)) (F : Table (FlowRow (MatchDetails S)))
      (valid_uuid : String → Bool) (text_max : String → String → String)
      (users : String → Result (Option User)) (steps : List (MultiStep S)) (env : Env R F) (w : W)
      → AllRecorded R F valid_uuid env
      → AllRecorded R F valid_uuid
          (run_multi R F valid_uuid text_max (provisioning tools) users steps (env, w)).0
  unfolding provisioning GivesChat
  run_provisioned-IsRecorded R F valid_uuid text_max users steps env w h =
      run_multi-IsRecorded R F valid_uuid text_max (provisioning tools) users
        (provision_group-GivesChat) steps env w h
