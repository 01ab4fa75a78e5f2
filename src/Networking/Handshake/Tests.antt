-- ===== src/Networking/Handshake/Tests.antt =====
-- Runs of the handshake over tables in memory, and its theorems at concrete inputs.
use Prim.Native.String.{String}
use franklink.Prelude.{ℕ, ◌≡◌, refl, map, Bool, true, false, List, [], ◌∷◌, none, some}
use franklink.Dict.{lookup}
use franklink.Networking.Status.{Status, status_in, valid_status_transitions}
use franklink.Networking.Fault.{Result, raised, changed_concurrently}
use franklink.Networking.Flow.{fresh}
use franklink.Networking.Table.{Table, list_table, where_rows, update_where}
use franklink.Networking.Flows.{FlowRow, get_networking_state}
use franklink.Networking.Requests.{
  RequestRow, request_data, of_id, expects, allowed, create_connection_request,
  update_connection_request_status,
}
use franklink.Networking.Requests.Lifecycle.{
  MovedBy, Pointwise, update_connection_request_status-MovedBy,
}
use franklink.Networking.Requests.Once.{update_connection_request_status_once}
use franklink.Networking.Matches.{MatchResult, MatchDetails, Options, new_request}
use franklink.Networking.Handshake.{
  Env, create_request, initiator_confirms, target_accepts, mark_group_created, step_request,
}
use franklink.Networking.Handshake.Restart.{create_request_idle}
use franklink.Networking.Handshake.Approvals.{Step, perform, run}

-- Requests and handshakes. A match score is a number here.
abbrev request_table : Table (RequestRow ℕ)
request_table = list_table (RequestRow ℕ) "r1"

abbrev flows : Table (FlowRow (MatchDetails ℕ))
flows = list_table (FlowRow (MatchDetails ℕ)) "key"

abbrev any_text : String → Bool
any_text text = true

abbrev bob : MatchResult ℕ
bob = record {
  target_user_id = "bob";
  target_name = some "Bob";
  match_score = 9;
  matching_reasons = [];
  llm_introduction = none;
  llm_concern = none;
}

abbrev options : Options
options = record {
  excluded_candidates = none;
  signal_group_id = none;
  is_multi_match = false;
  multi_match_threshold = 1;
  connection_purpose = some "study group";
  group_chat_guid = none;
}

abbrev nobody : Env request_table flows
nobody = record { requests = []; flows = record { cache = []; store = [] } }

create_request_idle_example :
    (create_request request_table flows 1 "ann" bob options nobody).1.flows.store ≡ []
unfolding get_networking_state where_rows fresh
create_request_idle_example =
    create_request_idle request_table flows 1 "ann" bob options nobody (fresh 1 (some "ann"))
      (unfold lookup in refl) refl refl

abbrev steps : List (Step ℕ)
steps =
    Step.creates 1 "ann" bob options
    ∷ Step.confirms 2 "r1"
    ∷ Step.confirms 3 "r1"
    ∷ Step.accepts 4 "r1"
    ∷ Step.marks 5 "r1" "chat"
    ∷ []

-- The steps leave the request with its group chat: the second confirmation changes nothing.
run-steps :
    map (λ (r : RequestRow ℕ). r.status) (run request_table flows any_text steps nobody).requests
    ≡ Status.group_created ∷ []
unfolding run perform create_request create_connection_request request_data initiator_confirms
    target_accepts mark_group_created step_request update_connection_request_status allowed expects
    of_id status_in valid_status_transitions update_where where_rows
run-steps = refl

abbrev asked : List (RequestRow ℕ)
asked = request_data 1 (new_request "ann" bob options) "r1" ∷ []

abbrev notified : ℕ → RequestRow ℕ → RequestRow ℕ
notified now row = record row { target_notified_at = some now }

update_connection_request_status-MovedBy_example :
    Pointwise
      (MovedBy "r1" Status.pending_initiator_approval Status.pending_target_approval)
      asked
      (update_connection_request_status request_table any_text 2 "r1" Status.pending_target_approval
        (notified 2)
        (some Status.pending_initiator_approval)
        asked).1
update_connection_request_status-MovedBy_example =
    update_connection_request_status-MovedBy request_table any_text 2 "r1"
      Status.pending_target_approval (notified 2) Status.pending_initiator_approval asked
      (λ row. refl)

abbrev confirmed : Result (RequestRow ℕ) × List (RequestRow ℕ)
confirmed =
    update_connection_request_status request_table any_text 2 "r1" Status.pending_target_approval
      (notified 2) (some Status.pending_initiator_approval) asked

update_connection_request_status_once_example :
    ((update_connection_request_status request_table any_text 3 "r1" Status.cancelled
        (λ row. row)
        (some Status.pending_initiator_approval)
        confirmed.1).0
      ≡ raised changed_concurrently)
    × ((update_connection_request_status request_table any_text 3 "r1" Status.cancelled
          (λ row. row)
          (some Status.pending_initiator_approval)
          confirmed.1).1
        ≡ confirmed.1)
unfolding update_connection_request_status allowed expects of_id status_in valid_status_transitions
    update_where where_rows request_data
update_connection_request_status_once_example =
    update_connection_request_status_once request_table any_text 2 3 "r1"
      Status.pending_target_approval Status.cancelled Status.pending_initiator_approval (notified 2)
      (λ row. row) asked _ _ (λ row. refl) refl refl refl
