-- ===== src/Networking/Matches.antt =====
-- The flow side of `HandshakeManager` of
-- app/agents/execution/networking/utils/handshake_manager.py: what a match is, and how the flow state
-- of the initiator follows a request. No other worker writes to the table of the flow states during
-- a step (the argument `meanwhile` of `update_state` is the identity).
use Prim.Native.String.{String}
use franklink.Prelude.{ℕ, Bool, List, [], ◌∷◌, ◌++◌, Option, some, if◌then◌else◌}
use franklink.Networking.Fault.{Result, ok, raised}
use franklink.Networking.Flow.{
  FlowState, NetworkingState, state_eq, is_terminal, reset, start_matching, with_match,
  with_multi_match, idle,
}
use franklink.Networking.Table.{Table}
use franklink.Networking.Flows.{FlowRow}
use franklink.Networking.Manager.{Manager, get_state, update_state}
use franklink.Networking.Requests.{NewRequest, is_truthy, or_empty}

-- A successful `MatchResult` of value_exchange_matcher.py, as far as it is read here.
pub record MatchResult (S : Type 0) : Type 0 where
  pub target_user_id : String
  pub target_name : Option String
  pub match_score : S
  pub matching_reasons : List String
  pub llm_introduction : Option String
  pub llm_concern : Option String

-- The dict `match_details` of `create_request`.
pub record MatchDetails (S : Type 0) : Type 0 where
  pub target_user_id : String
  pub target_name : Option String
  pub match_score : S
  pub matching_reasons : List String

-- The other arguments of `create_request`.
pub record Options : Type 0 where
  pub excluded_candidates : Option (List String)
  pub signal_group_id : Option String
  pub is_multi_match : Bool
  pub multi_match_threshold : ℕ
  pub connection_purpose : Option String
  pub group_chat_guid : Option String

module _ {S : Type 0} where
  abbrev pub new_request : String → MatchResult S → Options → NewRequest S
  new_request initiator match o = record {
    initiator_user_id = initiator;
    target_user_id = match.target_user_id;
    match_score = some match.match_score;
    matching_reasons = some match.matching_reasons;
    llm_introduction = match.llm_introduction;
    llm_concern = match.llm_concern;
    excluded_candidates = o.excluded_candidates;
    signal_group_id = o.signal_group_id;
    is_multi_match = o.is_multi_match;
    multi_match_threshold = o.multi_match_threshold;
    connection_purpose = o.connection_purpose;
    group_chat_guid = o.group_chat_guid;
  }

  abbrev pub in_state : FlowState → NetworkingState (MatchDetails S) → Bool
  in_state f s = state_eq s.flow_state f

  abbrev pub details_of : MatchResult S → MatchDetails S
  details_of match = record {
    target_user_id = match.target_user_id;
    target_name = match.target_name;
    match_score = match.match_score;
    matching_reasons = match.matching_reasons;
  }

  -- The match is added to the state that the flow is in.
  unfoldable pub with_request :
      ℕ
      → String
      → MatchResult S
      → Options
      → NetworkingState (MatchDetails S)
      → Result (NetworkingState (MatchDetails S))
  unfolding with_match with_multi_match
  with_request now request match o s =
      if o.is_multi_match
      then with_multi_match now (or_empty s.request_ids ++ request ∷ [])
          (or_empty s.target_ids ++ match.target_user_id ∷ [])
          (or_empty s.match_details ++ details_of match ∷ []) o.connection_purpose s
      else with_match now request match.target_user_id (details_of match) o.connection_purpose s

module _ {S : Type 0} (F : Table (FlowRow (MatchDetails S))) where
  -- `await self._state_manager.update_state(...)` under `except Exception`
  abbrev pub write : ℕ → String → Result (NetworkingState (MatchDetails S)) → Manager F → Manager F
  write now user (raised e) m = m
  write now user (ok new_state) m = (update_state F now user new_state (λ st. st) m).1

  abbrev pub matched :
      ℕ
      → String
      → String
      → MatchResult S
      → Options
      → Result (NetworkingState (MatchDetails S))
      → Manager F
      → Manager F
  matched now user request match o (raised e) m = m
  matched now user request match o (ok s) m = write now user (with_request now request match o s) m

  -- From idle the flow starts matching first.
  unfoldable pub place_match :
      ℕ
      → String
      → String
      → MatchResult S
      → Options
      → NetworkingState (MatchDetails S)
      → Manager F
      → Manager F
  unfolding with_request
  place_match now user request match o s m =
      matched now user request match o
        (if state_eq s.flow_state idle then start_matching now user s else ok s) m

  abbrev pub place_loaded :
      ℕ
      → String
      → String
      → MatchResult S
      → Options
      → Result (NetworkingState (MatchDetails S)) × Manager F
      → Manager F
  place_loaded now user request match o (raised e, m) = m
  place_loaded now user request match o (ok s, m) = place_match now user request match o s m

  abbrev pub reload :
      ℕ → String → Result Bool × Manager F → Result (NetworkingState (MatchDetails S)) × Manager F
  reload now user (raised e, m) = (raised e, m)
  reload now user (ok b, m) = get_state F now user m

  -- A terminal state is reset, written, and read again.
  abbrev pub restarted :
      ℕ
      → String
      → Result (NetworkingState (MatchDetails S))
      → Manager F
      → Result (NetworkingState (MatchDetails S)) × Manager F
  restarted now user (raised e) m = (raised e, m)
  restarted now user (ok s) m = reload now user (update_state F now user s (λ st. st) m)

  abbrev pub start_from :
      ℕ
      → String
      → Result (NetworkingState (MatchDetails S)) × Manager F
      → Result (NetworkingState (MatchDetails S)) × Manager F
  start_from now user (raised e, m) = (raised e, m)
  start_from now user (ok s, m) =
      if is_terminal s then restarted now user (reset now s) m else (ok s, m)

  -- The inner `try` of `create_request`.
  unfoldable pub track_match : ℕ → String → String → MatchResult S → Options → Manager F → Manager F
  unfolding place_match
  track_match now user request match o m =
      place_loaded now user request match o (start_from now user (get_state F now user m))

  abbrev pub advance_loaded :
      ℕ
      → String
      → (NetworkingState (MatchDetails S) → Bool)
      → (NetworkingState (MatchDetails S) → Result (NetworkingState (MatchDetails S)))
      → Result (NetworkingState (MatchDetails S)) × Manager F
      → Manager F
  advance_loaded now user test move (raised e, m) = m
  advance_loaded now user test move (ok s, m) = if test s then write now user (move s) m else m

  -- The inner `try` of the other steps: if the flow state of the initiator passes the test, it
  -- moves.
  unfoldable pub advance :
      ℕ
      → String
      → (NetworkingState (MatchDetails S) → Bool)
      → (NetworkingState (MatchDetails S) → Result (NetworkingState (MatchDetails S)))
      → Manager F
      → Manager F
  advance now user test move m =
      if is_truthy (some user)
      then advance_loaded now user test move (get_state F now user m)
      else m
