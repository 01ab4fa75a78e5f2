-- ===== src/Networking/Multi/Accept.antt =====
-- `target_accepts_multi_match` of `HandshakeManager`, and `check_multi_match_ready_v1` of the
-- database's client.
use Prim.Native.String.{String}
use franklink.Prelude.{ℕ, Bool, not, ◌||◌, none, some, if◌then◌else◌}
use franklink.Networking.Status.{pending_target_approval, target_accepted}
use franklink.Networking.Fault.{Result, ok, raised}
use franklink.Networking.Table.{Table}
use franklink.Networking.Requests.{RequestRow, is_truthy, update_connection_request_status}
use franklink.Networking.Multi.{
  ReadyCheck, MultiMatchStatus, single_match, multi_match, in_group, ready_check, not_ready,
}

module _ {S : Type 0} (R : Table (RequestRow S)) where
  -- An exception is answered by the defaults.
  unfoldable pub check_multi_match_ready :
      (String → String → String) → String → R.Store → ReadyCheck
  unfolding ready_check
  check_multi_match_ready text_max group st = elim (R.select (in_group group) st) [
    | none ↦ not_ready
    | some rows ↦ ready_check text_max rows
  ]

  abbrev pub multi_status : (String → String → String) → RequestRow S → R.Store → MultiMatchStatus
  multi_status text_max row st =
      if not row.is_multi_match || not (is_truthy row.signal_group_id)
      then single_match
      else elim row.signal_group_id [
        | none ↦ single_match
        | some group ↦ multi_match group (check_multi_match_ready text_max group st)
      ]

  abbrev pub with_status :
      (String → String → String)
      → Result (RequestRow S) × R.Store
      → Result (RequestRow S × MultiMatchStatus) × R.Store
  with_status text_max (raised e, st) = (raised e, st)
  with_status text_max (ok row, st) = (ok (row, multi_status text_max row st), st)

  unfoldable pub target_accepts_multi_match :
      (String → Bool)
      → (String → String → String)
      → ℕ
      → String
      → R.Store
      → Result (RequestRow S × MultiMatchStatus) × R.Store
  target_accepts_multi_match valid_uuid text_max now id st = with_status text_max (
      update_connection_request_status R valid_uuid now id target_accepted
        (λ row. record row { target_responded_at = some now }) (some pending_target_approval) st)
