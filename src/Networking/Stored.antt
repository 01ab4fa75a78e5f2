-- ===== src/Networking/Stored.antt =====
-- `to_dict` and `from_dict` of app/agents/state/atomic_state.py: the JSON object in which a state
-- is stored. A field is `none` where the key is absent or null; the text of a time is the time.
use Prim.Native.String.{String}
use text.Mathlib.Text.{◌==◌ as str_eq}
use franklink.Prelude.{ℕ, ◌≡◌, ◌≢◌, refl, List, [], ◌∷◌, Option, none, some, if◌then◌else◌}
use franklink.Networking.Fault.{Result, ok, raised, unknown_state, ◌>>=◌}
use franklink.Networking.Flow.{
  FlowState, idle, matching, pending_initiator_approval, pending_target_response, ready_for_group,
  group_created, cancelled, failed, value, NetworkingState,
}

pub record StateData (D : Type 0) : Type 0 where
  pub flow_state : Option String
  pub user_id : Option String
  pub request_id : Option String
  pub request_ids : Option (List String)
  pub initiator_id : Option String
  pub target_ids : Option (List String)
  pub match_details : Option (List D)
  pub group_chat_guid : Option String
  pub connection_purpose : Option String
  pub error_message : Option String
  pub updated_at : Option ℕ
  pub version : Option ℕ

-- `list(x) if x else None`, and `tuple(x) if x else None`
unfoldable pub items_or_none {ℓ} : {A : Type ℓ} → Option (List A) → Option (List A)
items_or_none none = none
items_or_none (some []) = none
items_or_none (some (x ∷ xs)) = some (x ∷ xs)

abbrev flow_states : List FlowState
flow_states =
    idle ∷ matching ∷ pending_initiator_approval ∷ pending_target_response ∷ ready_for_group
    ∷ group_created ∷ cancelled ∷ failed ∷ []

member_of : String → List FlowState → Result FlowState
member_of text [] = raised unknown_state
member_of text (f ∷ fs) = if str_eq (value f) text then ok f else member_of text fs

-- `NetworkingFlowState(data.get("flow_state", "idle"))`
unfoldable pub from_value : Option String → Result FlowState
unfolding member_of
from_value none = ok idle
from_value (some text) = member_of text flow_states

abbrev or_default : Option ℕ → ℕ → ℕ
or_default none n = n
or_default (some m) n = m

module _ {D : Type 0} where
  unfoldable pub to_dict : NetworkingState D → StateData D
  unfolding items_or_none
  to_dict s = record {
    flow_state = some (value s.flow_state);
    user_id = s.user_id;
    request_id = s.request_id;
    request_ids = items_or_none s.request_ids;
    initiator_id = s.initiator_id;
    target_ids = items_or_none s.target_ids;
    match_details = items_or_none s.match_details;
    group_chat_guid = s.group_chat_guid;
    connection_purpose = s.connection_purpose;
    error_message = s.error_message;
    updated_at = some s.updated_at;
    version = some s.version;
  }

  unfoldable pub from_dict : ℕ → StateData D → Result (NetworkingState D)
  unfolding items_or_none
  from_dict now data' = do
    f ← from_value data'.flow_state
    ok (record {
      flow_state = f;
      user_id = data'.user_id;
      request_id = data'.request_id;
      request_ids = items_or_none data'.request_ids;
      initiator_id = data'.initiator_id;
      target_ids = items_or_none data'.target_ids;
      match_details = items_or_none data'.match_details;
      group_chat_guid = data'.group_chat_guid;
      connection_purpose = data'.connection_purpose;
      error_message = data'.error_message;
      updated_at = or_default data'.updated_at now;
      version = or_default data'.version 0;
    })

-- No tuple of the state is empty. (An empty tuple is stored as null.)
pub record IsFull {D : Type 0} (s : NetworkingState D) : Type 0 where
  pub request_ids : s.request_ids ≢ some []
  pub target_ids : s.target_ids ≢ some []
  pub match_details : s.match_details ≢ some []

from_value-value : (f : FlowState) → from_value (some (value f)) ≡ ok f
unfolding from_value
from_value-value idle = refl
from_value-value f = refl

items_or_none_full {ℓ} :
    {A : Type ℓ} (x : Option (List A)) → x ≢ some [] → items_or_none (items_or_none x) ≡ x
unfolding items_or_none
items_or_none_full none h = refl
items_or_none_full (some []) h = absurd (h refl)
items_or_none_full (some (x ∷ xs)) h = refl

-- A state in which no tuple is empty is read back as it was stored.
pub from_dict-to_dict :
    {D : Type 0} (now : ℕ) (s : NetworkingState D) → IsFull s → from_dict now (to_dict s) ≡ ok s
unfolding from_dict to_dict
from_dict-to_dict now s h = rw (
  from_value-value s.flow_state,
  items_or_none_full s.request_ids h.request_ids,
  items_or_none_full s.target_ids h.target_ids,
  items_or_none_full s.match_details h.match_details,
)

pub version-to_dict : {D : Type 0} (s : NetworkingState D) → (to_dict s).version ≡ some s.version
unfolding to_dict
version-to_dict s = refl
