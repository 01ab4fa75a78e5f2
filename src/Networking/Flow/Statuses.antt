-- ===== src/Networking/Flow/Statuses.antt =====
-- The statuses of a connection request against the flow states of its initiator.
use franklink.Prelude.{◌≡◌, refl, not, ◌&&◌, Bool, true, some, arith}
use franklink.Networking.Status.{Status, status_eq, status_in, valid_status_transitions}
use franklink.Networking.Flow.{
  FlowState, idle, state_in, valid_transitions, from_connection_status, to_connection_status,
}

-- A flow state that has a status is read back from it.
pub from_to_status :
    (f : FlowState) (s : Status) → to_connection_status f ≡ some s → from_connection_status s ≡ f
unfolding to_connection_status from_connection_status
from_to_status idle s h = cc
from_to_status f s h = ground arith

-- Does the flow of `a` allow the flow of `b` next?
abbrev pub may_follow : Status → Status → Bool
may_follow a b = state_in (from_connection_status b) (valid_transitions (from_connection_status a))

-- Every valid transition of a request's status is a valid transition of the flow state that it is
-- mapped to, but for one: an accepted request may be cancelled, and the flow state
-- `ready_for_group` may not.
pub may_follow-status_in :
    (a b : Status)
    → status_in b (valid_status_transitions a) ≡ true
    → may_follow a b ≡ not (status_eq a Status.target_accepted && status_eq b Status.cancelled)
unfolding status_in valid_status_transitions state_in valid_transitions from_connection_status
may_follow-status_in Status.pending_initiator_approval Status.pending_target_approval h = refl
may_follow-status_in Status.pending_initiator_approval Status.cancelled h = refl
may_follow-status_in Status.pending_target_approval Status.target_accepted h = refl
may_follow-status_in Status.pending_target_approval Status.target_declined h = refl
may_follow-status_in Status.pending_target_approval Status.cancelled h = refl
may_follow-status_in Status.target_accepted Status.group_created h = refl
may_follow-status_in Status.target_accepted Status.cancelled h = refl
may_follow-status_in _ _ h = cc
