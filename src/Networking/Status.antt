-- ===== src/Networking/Status.antt =====
-- app/database/models.py: `ConnectionRequestStatus`, and `VALID_STATUS_TRANSITIONS` of
-- app/database/client/connection_requests.py.
use Prim.Native.String.{String}
use text.Mathlib.Text.{◌==◌ as str_eq}
use franklink.Prelude.{Bool, false, ◌||◌, List, [], ◌∷◌}

pub data Status : Type 0 where
  pending_initiator_approval pending_target_approval target_declined : Status
  target_accepted group_created cancelled expired : Status

-- `status.value`
abbrev pub value : Status → String
value pending_initiator_approval = "pending_initiator_approval"
value pending_target_approval = "pending_target_approval"
value target_declined = "target_declined"
value target_accepted = "target_accepted"
value group_created = "group_created"
value cancelled = "cancelled"
value expired = "expired"

abbrev pub status_eq : Status → Status → Bool
status_eq a b = str_eq (value a) (value b)

unfoldable pub valid_status_transitions : Status → List Status
valid_status_transitions pending_initiator_approval = pending_target_approval ∷ cancelled ∷ []
valid_status_transitions pending_target_approval =
    target_accepted ∷ target_declined ∷ cancelled ∷ []
valid_status_transitions target_accepted = group_created ∷ cancelled ∷ []
valid_status_transitions group_created = []
valid_status_transitions target_declined = []
valid_status_transitions cancelled = []
valid_status_transitions expired = []

-- `status in valid_transitions`
unfoldable pub status_in : Status → List Status → Bool
status_in s [] = false
status_in s (t ∷ ts) = status_eq s t || status_in s ts
