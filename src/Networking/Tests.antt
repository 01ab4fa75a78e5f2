-- ===== src/Networking/Tests.antt =====
-- Runs of the networking core over tables in memory, and its theorems at concrete inputs.
use franklink.Prelude.{
  ℕ, ◌+◌, ◌≡◌, ◌≢◌, refl, true, false, not, ◌&&◌, List, [], ◌∷◌, none, some, arith, length,
}
use franklink.Dict.{lookup, insert, remove}
use franklink.Networking.Status.{Status, status_in, status_eq, valid_status_transitions}
use franklink.Networking.Fault.{ok, raised, invalid_transition}
use franklink.Networking.Flow.{
  NetworkingState, FlowState, fresh, state_in, valid_transitions, transition_to, start_matching,
  with_match, initiator_confirmed, target_accepted, mark_created, reset, is_terminal,
}
use franklink.Networking.Flow.Laws.{reset-is_terminal}
use franklink.Networking.Flow.Statuses.{may_follow, may_follow-status_in}
use franklink.Networking.Flow.Consent.{
  Call, starts, matches, confirms, accepts, creates, apply, after, Shape, after-Shape,
}
use franklink.Networking.Stored.{
  IsFull, to_dict, from_dict, from_value, items_or_none, from_dict-to_dict,
}
use franklink.Networking.Table.{Table, list_table, where_rows, update_where}
use franklink.Networking.Flows.{
  FlowRow, of_user, of_user_version, new_row, set_state, stored_state, get_networking_state,
  upsert_networking_state,
}
use franklink.Networking.Manager.{Manager, clear_cache, get_state, update_state}
use franklink.Networking.Manager.Durable.{update_state-stored, get_state-update_state}
use franklink.Networking.Manager.Conflict.{current_state, update_state_stale, update_state_lost}

-- The history of a match that leads to a group chat, the newest call first.
abbrev history : List (Call ℕ)
history =
    creates 5 "chat"
    ∷ accepts 4
    ∷ confirms 3
    ∷ matches 2 "r1" "bob" 7 (some "study group")
    ∷ starts 1 "ann"
    ∷ []

abbrev ann : NetworkingState ℕ
ann = fresh 0 (some "ann")

abbrev in_group : NetworkingState ℕ
in_group = record {
  flow_state = FlowState.group_created;
  user_id = some "ann";
  request_id = some "r1";
  request_ids = none;
  initiator_id = some "ann";
  target_ids = some ("bob" ∷ []);
  match_details = some (7 ∷ []);
  group_chat_guid = some "chat";
  connection_purpose = some "study group";
  error_message = none;
  updated_at = 5;
  version = 5;
}

history_runs : after 0 (some "ann") history ≡ ok in_group
unfolding after apply fresh start_matching with_match initiator_confirmed target_accepted
    mark_created transition_to state_in valid_transitions
history_runs = refl

after-Shape_example : Shape FlowState.group_created history × ◌≡◌ {A = ℕ} 5 (length history)
after-Shape_example = after-Shape 0 (some "ann") history in_group history_runs

may_follow-status_in_example :
    may_follow Status.target_accepted Status.cancelled
    ≡ not (
        status_eq Status.target_accepted Status.target_accepted
        && status_eq Status.cancelled Status.cancelled)
unfolding status_in valid_status_transitions
may_follow-status_in_example = may_follow-status_in Status.target_accepted Status.cancelled refl

reset-is_terminal_example :
    (reset 9 in_group
      ≡ ok (record (fresh 9 (some "ann")) { initiator_id = some "ann"; version = 5 + 1 }))
    × ((f : FlowState) (updates : NetworkingState ℕ)
        → f ≢ FlowState.idle
        → transition_to 9 f in_group updates ≡ raised invalid_transition)
unfolding is_terminal state_in
reset-is_terminal_example = reset-is_terminal 9 in_group refl

in_group-IsFull : IsFull in_group
in_group-IsFull = record { request_ids = λ e. cc; target_ids = λ e. cc; match_details = λ e. cc }

from_dict-to_dict_example : from_dict 9 (to_dict in_group) ≡ ok in_group
from_dict-to_dict_example = from_dict-to_dict 9 in_group in_group-IsFull

abbrev flow_table : Table (FlowRow ℕ)
flow_table = list_table (FlowRow ℕ) "key"

-- Ann's state as two workers leave it: at version 5, and at version 6 after a reset.
abbrev at_five : List (FlowRow ℕ)
at_five = new_row "ann" (to_dict in_group) 5 ∷ []

abbrev after_reset : NetworkingState ℕ
after_reset = record (fresh 6 (some "ann")) { initiator_id = some "ann"; version = 6 }

abbrev by_other : NetworkingState ℕ
by_other = record (fresh 7 (some "ann")) { version = 6 }

abbrev manager : Manager flow_table
manager = record { cache = []; store = at_five }

-- Another worker writes between the read and the write.
abbrev overtaken : List (FlowRow ℕ) → List (FlowRow ℕ)
overtaken st = new_row "ann" (to_dict by_other) 7 ∷ []

at_five_state : current_state flow_table 6 "ann" manager ≡ ok in_group
unfolding get_networking_state of_user where_rows from_dict to_dict from_value items_or_none
at_five_state = refl

saves : update_state flow_table 6 "ann" after_reset (λ st. st) manager ≡ (
  ok true,
  record {
    cache = ("ann", after_reset) ∷ [];
    store = set_state (to_dict after_reset) 6 (new_row "ann" (to_dict in_group) 5) ∷ [];
  },
)
unfolding update_state get_state lookup insert remove get_networking_state upsert_networking_state
    of_user of_user_version where_rows update_where from_dict to_dict from_value items_or_none
saves = refl

update_state-stored_example :
    (stored_state "ann"
        (set_state (to_dict after_reset) 6 (new_row "ann" (to_dict in_group) 5) ∷ [])
      ≡ some (to_dict after_reset))
    × (lookup "ann" (("ann", after_reset) ∷ []) ≡ some after_reset)
update_state-stored_example = update_state-stored flow_table 6 "ann" after_reset manager _ saves

after_reset-IsFull : IsFull after_reset
unfolding fresh
after_reset-IsFull = record { request_ids = λ e. cc; target_ids = λ e. cc; match_details = λ e. cc }

abbrev saved_rows : List (FlowRow ℕ)
saved_rows = set_state (to_dict after_reset) 6 (new_row "ann" (to_dict in_group) 5) ∷ []

get_state-update_state_example :
    (get_state flow_table 8 "ann"
      (clear_cache flow_table (record { cache = ("ann", after_reset) ∷ []; store = saved_rows }))).0
    ≡ ok after_reset
unfolding of_user where_rows
get_state-update_state_example =
    get_state-update_state flow_table 6 8 "ann" after_reset manager _ saved_rows after_reset-IsFull
      saves refl

update_state_stale_example :
    ((update_state flow_table 6 "ann" in_group (λ st. st) manager).0 ≡ ok false)
    × ((update_state flow_table 6 "ann" in_group (λ st. st) manager).1.store ≡ at_five)
update_state_stale_example =
    update_state_stale flow_table 6 "ann" in_group in_group (λ st. st) manager at_five_state
      (omega arith)

update_state_lost_example :
    ((update_state flow_table 6 "ann" after_reset overtaken manager).0 ≡ ok true)
    × ((update_state flow_table 6 "ann" after_reset overtaken manager).1.store ≡ overtaken at_five)
    × (lookup "ann" (update_state flow_table 6 "ann" after_reset overtaken manager).1.cache
        ≡ some after_reset)
unfolding of_user_version of_user where_rows to_dict fresh
update_state_lost_example =
    update_state_lost flow_table 6 "ann" after_reset in_group overtaken manager [] at_five_state
      (omega arith) (omega arith) refl refl
