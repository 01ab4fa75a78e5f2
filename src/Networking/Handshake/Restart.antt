-- ===== src/Networking/Handshake/Restart.antt =====
-- A match for a user whose flow is idle: the state that `create_request` builds is two versions
-- ahead of the table, so that its update is refused.
use Prim.Native.String.{String}
use franklink.Prelude.{
  ℕ, ◌+◌, ◌≡◌, ◌≢◌, refl, ap, ◌∙◌, inl, inr, true, false, [], ◌∷◌, none, arith, Bool-cases,
}
use franklink.Dict.{lookup, insert}
use franklink.Networking.Fault.{Result, ok, raised}
use franklink.Networking.Flow.{
  FlowState, NetworkingState, state_eq, state_in, is_terminal, start_matching, idle, matching,
  pending_initiator_approval, group_created, cancelled, failed,
}
use franklink.Networking.Flow.Consent.{transition_to-Moved}
use franklink.Networking.Table.{Table}
use franklink.Networking.Flows.{FlowRow}
use franklink.Networking.Manager.{Manager}
use franklink.Networking.Manager.Conflict.{current_state, get_state_uncached, update_state_stale}
use franklink.Networking.Requests.{RequestRow, create_connection_request}
use franklink.Networking.Matches.{
  MatchResult, MatchDetails, Options, new_request, write, with_request, matched, place_match,
  track_match,
}
use franklink.Networking.Handshake.{Env, created, create_request}

module _ {S : Type 0} where
  with_request-version :
      (now : ℕ) (request : String) (match : MatchResult S) (o : Options)
      (s t : NetworkingState (MatchDetails S))
      → with_request now request match o s ≡ ok t
      → t.version ≡ s.version + 1
  unfolding with_request
  with_request-version now request match o s t h = elim (Bool-cases o.is_multi_match) [
    | inl e ↦ (transition_to-Moved now pending_initiator_approval s _ t (rw e at h)).1
    | inr e ↦ (transition_to-Moved now pending_initiator_approval s _ t (rw e at h)).1
  ]

  start_matching-version :
      (now : ℕ) (user : String) (s t : NetworkingState (MatchDetails S))
      → start_matching now user s ≡ ok t
      → t.version ≡ s.version + 1
  unfolding start_matching
  start_matching-version now user s t h = (transition_to-Moved now matching s _ t h).1

module _ {S : Type 0} (F : Table (FlowRow (MatchDetails S))) where
  write_stale :
      (now : ℕ) (user : String) (r : Result (NetworkingState (MatchDetails S))) (m : Manager F)
      (s : NetworkingState (MatchDetails S))
      → current_state F now user m ≡ ok s
      → ((t : NetworkingState (MatchDetails S)) → r ≡ ok t → t.version ≢ s.version + 1)
      → (write F now user r m).store ≡ m.store
  write_stale now user (raised e) m s at stale = refl
  write_stale now user (ok t) m s at stale =
      (update_state_stale F now user t s (λ st. st) m at (stale t refl)).1

  place_match_stale :
      (now : ℕ) (user request : String) (match : MatchResult S) (o : Options)
      (s : NetworkingState (MatchDetails S)) (m : Manager F)
      → current_state F now user m ≡ ok s
      → s.flow_state ≡ idle
      → (place_match F now user request match o s m).store ≡ m.store
  unfolding place_match
  place_match_stale now user request match o s m at is_idle =
      let from_idle : state_eq s.flow_state idle ≡ true =
        ap (λ (f : FlowState). state_eq f idle) is_idle in
      rw from_idle (go (start_matching now user s) refl)
    where
      go :
          (r : Result (NetworkingState (MatchDetails S)))
          → start_matching now user s ≡ r
          → (matched F now user request match o r m).store ≡ m.store
      go (raised e) h = refl
      go (ok s') h = write_stale now user (with_request now request match o s') m s at λ t e.
          omega (
            arith,
            with_request-version now request match o s' t e,
            start_matching-version now user s s' h,
          )

  track_match_idle :
      (now : ℕ) (user request : String) (match : MatchResult S) (o : Options)
      (s : NetworkingState (MatchDetails S)) (m : Manager F)
      → lookup user m.cache ≡ none
      → current_state F now user m ≡ ok s
      → s.flow_state ≡ idle
      → (track_match F now user request match o m).store ≡ m.store
  unfolding track_match is_terminal
  track_match_idle now user request match o s m empty at is_idle =
      let running : state_in s.flow_state (group_created ∷ cancelled ∷ failed ∷ []) ≡ false =
        ap (λ (f : FlowState). state_in f (group_created ∷ cancelled ∷ failed ∷ [])) is_idle
        ∙ unfold state_in in refl in
      let m1 : Manager F = record m { cache = insert user s m.cache } in
      rw (get_state_uncached F now user m s empty at, running)
        (place_match_stale now user request match o s m1 at is_idle)

-- `create_request` for a user whose flow state is idle, and not in the cache, leaves the table of
-- the flow states as it is: the user stays idle there, whatever the match and the options.
pub create_request_idle :
    {S : Type 0} (R : Table (RequestRow S)) (F : Table (FlowRow (MatchDetails S))) (now : ℕ)
    (user : String) (match : MatchResult S) (o : Options) (env : Env R F)
    (s : NetworkingState (MatchDetails S))
    → lookup user env.flows.cache ≡ none
    → current_state F now user env.flows ≡ ok s
    → s.flow_state ≡ idle
    → (create_request R F now user match o env).1.flows.store ≡ env.flows.store
unfolding create_request
create_request_idle {S = S} R F now user match o env s empty at is_idle =
    go (create_connection_request R now (new_request user match o) env.requests)
  where
    go :
        (r : Result (RequestRow S) × R.Store)
        → (created R F now user match o env.flows r).1.flows.store ≡ env.flows.store
    go (raised e, st) = refl
    go (ok row, st) = track_match_idle F now user row.id match o s env.flows empty at is_idle
