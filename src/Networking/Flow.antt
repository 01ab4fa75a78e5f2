-- ===== src/Networking/Flow.antt =====
-- app/agents/state/atomic_state.py: the flow states, their valid transitions, and the immutable
-- state `AtomicNetworkingState` with its methods. `D` is the type of a match's details, a `Dict`
-- that the methods only carry along. A time is a number of ticks, and `datetime.utcnow()` is the
-- argument `now`.
pub mod Laws
pub mod Consent
pub mod Statuses
use Prim.Native.String.{String}
use text.Mathlib.Text.{◌==◌ as str_eq}
use franklink.Prelude.{
  ℕ, ◌+◌, Bool, true, false, not, ◌||◌, List, [], ◌∷◌, Option, none, some, if◌then◌else◌,
}
use franklink.Networking.Status.{Status}
use franklink.Networking.Fault.{Result, ok, raised, invalid_transition}

pub data FlowState : Type 0 where
  idle matching pending_initiator_approval pending_target_response : FlowState
  ready_for_group group_created cancelled failed : FlowState

-- `flow_state.value`
abbrev pub value : FlowState → String
value idle = "idle"
value matching = "matching"
value pending_initiator_approval = "pending_initiator_approval"
value pending_target_response = "pending_target_response"
value ready_for_group = "ready_for_group"
value group_created = "group_created"
value cancelled = "cancelled"
value failed = "failed"

abbrev pub state_eq : FlowState → FlowState → Bool
state_eq a b = str_eq (value a) (value b)

unfoldable pub state_in : FlowState → List FlowState → Bool
state_in s [] = false
state_in s (t ∷ ts) = state_eq s t || state_in s ts

-- `NetworkingFlowState.from_connection_status`
unfoldable pub from_connection_status : Status → FlowState
from_connection_status Status.pending_initiator_approval = pending_initiator_approval
from_connection_status Status.pending_target_approval = pending_target_response
from_connection_status Status.target_accepted = ready_for_group
from_connection_status Status.target_declined = cancelled
from_connection_status Status.group_created = group_created
from_connection_status Status.cancelled = cancelled
from_connection_status Status.expired = cancelled

unfoldable pub to_connection_status : FlowState → Option Status
to_connection_status pending_initiator_approval = some Status.pending_initiator_approval
to_connection_status pending_target_response = some Status.pending_target_approval
to_connection_status ready_for_group = some Status.target_accepted
to_connection_status group_created = some Status.group_created
to_connection_status cancelled = some Status.cancelled
to_connection_status idle = none
to_connection_status matching = none
to_connection_status failed = none

unfoldable pub valid_transitions : FlowState → List FlowState
valid_transitions idle = matching ∷ []
valid_transitions matching = pending_initiator_approval ∷ failed ∷ idle ∷ []
valid_transitions pending_initiator_approval = pending_target_response ∷ cancelled ∷ matching ∷ []
valid_transitions pending_target_response = ready_for_group ∷ cancelled ∷ failed ∷ []
valid_transitions ready_for_group = group_created ∷ failed ∷ []
valid_transitions group_created = idle ∷ []
valid_transitions cancelled = idle ∷ []
valid_transitions failed = idle ∷ []

-- `AtomicNetworkingState`
pub record NetworkingState (D : Type 0) : Type 0 where
  pub flow_state : FlowState
  pub user_id : Option String
  pub request_id : Option String
  pub request_ids : Option (List String)
  pub initiator_id : Option String
  pub target_ids : Option (List String)
  pub match_details : Option (List D)
  pub group_chat_guid : Option String
  pub connection_purpose : Option String
  pub error_message : Option String
  pub updated_at : ℕ
  pub version : ℕ

module _ {D : Type 0} where
  -- `AtomicNetworkingState(user_id=user_id)`
  unfoldable pub fresh : ℕ → Option String → NetworkingState D
  fresh now user = record {
    flow_state = idle;
    user_id = user;
    request_id = none;
    request_ids = none;
    initiator_id = none;
    target_ids = none;
    match_details = none;
    group_chat_guid = none;
    connection_purpose = none;
    error_message = none;
    updated_at = now;
    version = 0;
  }

  -- `transition_to`: `updates` is the state with the fields of `**updates` replaced.
  unfoldable pub transition_to :
      ℕ → FlowState → NetworkingState D → NetworkingState D → Result (NetworkingState D)
  transition_to now target s updates =
      if state_in target (valid_transitions s.flow_state)
      then ok (record updates { flow_state = target; updated_at = now; version = s.version + 1 })
      else raised invalid_transition

  unfoldable pub start_matching : ℕ → String → NetworkingState D → Result (NetworkingState D)
  start_matching now user s =
      transition_to now matching s (record s { user_id = some user; initiator_id = some user })

  unfoldable pub with_match :
      ℕ → String → String → D → Option String → NetworkingState D → Result (NetworkingState D)
  with_match now request target details purpose s =
      transition_to now pending_initiator_approval s (record s {
        request_id = some request;
        target_ids = some (target ∷ []);
        match_details = some (details ∷ []);
        connection_purpose = purpose;
      })

  unfoldable pub with_multi_match :
      ℕ
      → List String
      → List String
      → List D
      → Option String
      → NetworkingState D
      → Result (NetworkingState D)
  with_multi_match now requests targets details purpose s =
      transition_to now pending_initiator_approval s (record s {
        request_ids = some requests;
        target_ids = some targets;
        match_details = some details;
        connection_purpose = purpose;
      })

  unfoldable pub initiator_confirmed : ℕ → NetworkingState D → Result (NetworkingState D)
  initiator_confirmed now s = transition_to now pending_target_response s s

  unfoldable pub target_accepted : ℕ → NetworkingState D → Result (NetworkingState D)
  target_accepted now s = transition_to now ready_for_group s s

  -- The method `group_created`.
  unfoldable pub mark_created : ℕ → String → NetworkingState D → Result (NetworkingState D)
  mark_created now guid s =
      transition_to now group_created s (record s { group_chat_guid = some guid })

  unfoldable pub cancel : ℕ → Option String → NetworkingState D → Result (NetworkingState D)
  cancel now reason s = transition_to now cancelled s (record s { error_message = reason })

  unfoldable pub fail : ℕ → String → NetworkingState D → Result (NetworkingState D)
  fail now error s = transition_to now failed s (record s { error_message = some error })

  unfoldable pub reset : ℕ → NetworkingState D → Result (NetworkingState D)
  reset now s = transition_to now idle s (record s {
    request_id = none;
    request_ids = none;
    target_ids = none;
    match_details = none;
    group_chat_guid = none;
    connection_purpose = none;
    error_message = none;
  })

  unfoldable pub is_terminal : NetworkingState D → Bool
  unfolding state_in
  is_terminal s = state_in s.flow_state (group_created ∷ cancelled ∷ failed ∷ [])

  unfoldable pub is_active : NetworkingState D → Bool
  unfolding state_in
  is_active s = not (state_in s.flow_state (idle ∷ group_created ∷ cancelled ∷ failed ∷ []))
