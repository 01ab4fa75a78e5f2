-- ===== src/Networking/Handshake.antt =====
-- `HandshakeManager` of app/agents/execution/networking/utils/handshake_manager.py: each step of a
-- handshake moves the status of the request, and then the flow state of the initiator; what fails
-- in the second part is logged and dropped.
pub mod Restart
pub mod Approvals
mod Tests
use Prim.Native.String.{String, ◌++◌ as append_text}
use text.Mathlib.Text.{◌==◌ as str_eq}
use franklink.Prelude.{
  ℕ, ◌+◌, Bool, true, false, ◌&&◌, ◌||◌, not, List, [], ◌∷◌, ◌++◌, Option, none, some,
  if◌then◌else◌,
}
use franklink.Networking.Status.{Status}
use franklink.Networking.Fault.{Result, ok, raised, type_error}
use franklink.Networking.Flow.{
  FlowState, NetworkingState, state_eq, is_terminal, is_active, reset, start_matching, with_match,
  with_multi_match, initiator_confirmed, target_accepted, mark_created, cancel, idle,
  pending_initiator_approval, pending_target_response, ready_for_group,
}
use franklink.Networking.Table.{Table}
use franklink.Networking.Flows.{FlowRow}
use franklink.Networking.Manager.{Manager, get_state, update_state}
use franklink.Networking.Requests.{
  RequestRow, NewRequest, is_truthy, or_empty, create_connection_request,
  update_connection_request_status, add_excluded_candidate,
}
use franklink.Networking.Matches.{
  MatchResult, MatchDetails, Options, new_request, in_state, details_of, with_request, write,
  matched, place_match, place_loaded, reload, restarted, start_from, track_match, advance_loaded,
  advance,
}

-- `value is None`
abbrev is_none {ℓ} : {A : Type ℓ} → Option A → Bool
is_none none = true
is_none (some a) = false

-- The two tables, and the cache in front of one.
pub record Env {S : Type 0} (R : Table (RequestRow S)) (F : Table (FlowRow (MatchDetails S)))
    : Type 0 where
  pub requests : R.Store
  pub flows : Manager F

module _ {S : Type 0} (R : Table (RequestRow S)) (F : Table (FlowRow (MatchDetails S))) where
  -- The last line of the log cuts `signal_group_id` of a multi-match, which raises TypeError for
  -- `None`, after everything is written.
  abbrev logged : Options → RequestRow S → Result (RequestRow S)
  logged o row = if o.is_multi_match && is_none o.signal_group_id then raised type_error else ok row

  abbrev created :
      ℕ
      → String
      → MatchResult S
      → Options
      → Manager F
      → Result (RequestRow S) × R.Store
      → Result (RequestRow S) × Env R F
  created now initiator match o m (raised e, st) = (raised e, record { requests = st; flows = m })
  created now initiator match o m (ok row, st) =
      (logged o row, record { requests = st; flows = track_match F now initiator row.id match o m })

  unfoldable pub create_request :
      ℕ → String → MatchResult S → Options → Env R F → Result (RequestRow S) × Env R F
  create_request now initiator match o env =
      created now initiator match o env.flows
        (create_connection_request R now (new_request initiator match o) env.requests)

  abbrev followed :
      ℕ
      → (NetworkingState (MatchDetails S) → Bool)
      → (NetworkingState (MatchDetails S) → Result (NetworkingState (MatchDetails S)))
      → Manager F
      → Result (RequestRow S) × R.Store
      → Result (RequestRow S) × Env R F
  followed now test move m (raised e, st) = (raised e, record { requests = st; flows = m })
  followed now test move m (ok row, st) =
      (ok row, record { requests = st; flows = advance F now row.initiator_user_id test move m })

module _ {S : Type 0} (R : Table (RequestRow S)) (F : Table (FlowRow (MatchDetails S)))
    (valid_uuid : String → Bool) where
  -- The status moves under its expected value, and then the flow state.
  unfoldable pub step_request :
      ℕ
      → String
      → Status
      → (RequestRow S → RequestRow S)
      → Status
      → (NetworkingState (MatchDetails S) → Bool)
      → (NetworkingState (MatchDetails S) → Result (NetworkingState (MatchDetails S)))
      → Env R F
      → Result (RequestRow S) × Env R F
  step_request now id status additional expected test move env =
      followed R F now test move env.flows (
        update_connection_request_status R valid_uuid now id status additional (some expected)
          env.requests)

  unfoldable pub initiator_confirms : ℕ → String → Env R F → Result (RequestRow S) × Env R F
  unfolding step_request initiator_confirmed
  initiator_confirms now id env =
      step_request now id Status.pending_target_approval
        (λ row. record row { target_notified_at = some now }) Status.pending_initiator_approval
        (in_state pending_initiator_approval) (initiator_confirmed now) env

  -- The candidate is excluded, and the request cancelled; the flow state stays.
  abbrev cancelled_after :
      ℕ → String → Manager F → Result (RequestRow S) × R.Store → Result (RequestRow S) × Env R F
  cancelled_after now id m (raised e, st) = (raised e, record { requests = st; flows = m })
  cancelled_after now id m (ok row, st) =
      (let (r, st') =
          update_connection_request_status R valid_uuid now id Status.cancelled (λ row'. row')
            (some Status.pending_initiator_approval) st in
        (r, record { requests = st'; flows = m }))

  unfoldable pub initiator_requests_different :
      ℕ → String → String → Env R F → Result (RequestRow S) × Env R F
  initiator_requests_different now id target env =
      cancelled_after now id env.flows (add_excluded_candidate R now id target env.requests)

  unfoldable pub initiator_cancels : ℕ → String → Env R F → Result (RequestRow S) × Env R F
  unfolding step_request is_active cancel
  initiator_cancels now id env =
      step_request now id Status.cancelled (λ row. row) Status.pending_initiator_approval is_active
        (cancel now (some "User cancelled")) env

  unfoldable pub target_accepts : ℕ → String → Env R F → Result (RequestRow S) × Env R F
  unfolding step_request target_accepted
  target_accepts now id env =
      step_request now id Status.target_accepted
        (λ row. record row { target_responded_at = some now }) Status.pending_target_approval
        (in_state pending_target_response) (target_accepted now) env

  abbrev declined : ℕ → Option String → RequestRow S → RequestRow S
  declined now reason row = record row {
    target_responded_at = some now;
    decline_reason = if is_truthy reason then reason else row.decline_reason;
  }

  abbrev decline_message : Option String → String
  decline_message none = "Target declined"
  decline_message (some reason) =
      if is_truthy (some reason) then append_text "Target declined: " reason else "Target declined"

  unfoldable pub target_declines :
      ℕ → String → Option String → Env R F → Result (RequestRow S) × Env R F
  unfolding step_request cancel
  target_declines now id reason env =
      step_request now id Status.target_declined (declined now reason)
        Status.pending_target_approval (in_state pending_target_response)
        (cancel now (some (decline_message reason))) env

  unfoldable pub mark_group_created :
      ℕ → String → String → Env R F → Result (RequestRow S) × Env R F
  unfolding step_request mark_created
  mark_group_created now id chat_guid env =
      step_request now id Status.group_created
        (λ row. record row { group_chat_guid = some chat_guid; group_created_at = some now })
        Status.target_accepted (in_state ready_for_group) (mark_created now chat_guid) env
