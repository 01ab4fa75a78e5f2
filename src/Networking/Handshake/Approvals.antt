-- ===== src/Networking/Handshake/Approvals.antt =====
-- What the requests record of their handshakes: whatever the steps and their failures, a request
-- has the times of all the approvals that its status stands for.
use Prim.Native.String.{String}
use mathlib.Core.Path.{subst}
use franklink.Prelude.{
  IsPresent, ℕ, ◌≡◌, refl, inl, inr, Bool, true, List, [], ◌∷◌, Option, some, Bool-cases,
  Option-cases, All, All-append,
}
use franklink.Networking.Status.{
  Status, pending_initiator_approval, pending_target_approval, target_declined, target_accepted,
  group_created, cancelled,
}
use franklink.Networking.Fault.{Result, ok, raised}
use franklink.Networking.Flow.{NetworkingState}
use franklink.Networking.Table.{Table, update_where}
use franklink.Networking.Flows.{FlowRow}
use franklink.Networking.Requests.{
  RequestRow, NewRequest, request_data, expects, of_id, set_status, create_connection_request,
  update_connection_request_status, add_excluded_candidate, get_connection_request, with_excluded,
  exclude, or_empty,
}
use franklink.Networking.Requests.Lifecycle.{expects-parts, update_cases}
use franklink.Networking.Matches.{MatchResult, MatchDetails, Options, new_request}
use franklink.Networking.Handshake.{
  Env, created, create_request, followed, step_request, cancelled_after, initiator_confirms,
  initiator_requests_different, initiator_cancels, target_accepts, target_declines,
  mark_group_created,
}

-- A step of a handshake, with its arguments and its time.
pub data Step (S : Type 0) : Type 0 where
  creates : ℕ → String → MatchResult S → Options → Step S
  confirms : ℕ → String → Step S
  differs : ℕ → String → String → Step S
  cancels : ℕ → String → Step S
  accepts : ℕ → String → Step S
  declines : ℕ → String → Option String → Step S
  marks : ℕ → String → String → Step S

module _ {S : Type 0} where
  -- What a request with this status has recorded.
  abbrev pub Approved : Status → RequestRow S → Type 0
  Approved pending_target_approval r = IsPresent r.target_notified_at
  Approved target_declined r = IsPresent r.target_notified_at × IsPresent r.target_responded_at
  Approved target_accepted r = IsPresent r.target_notified_at × IsPresent r.target_responded_at
  Approved group_created r =
      IsPresent r.target_notified_at
      × IsPresent r.target_responded_at
      × IsPresent r.group_created_at
      × IsPresent r.group_chat_guid
  Approved _ r = Unit

  abbrev pub IsRecorded : RequestRow S → Type 0
  IsRecorded r = Approved r.status r

  update_where-IsRecorded :
      (p : RequestRow S → Bool) (f : RequestRow S → RequestRow S) (rows : List (RequestRow S))
      → ((row : RequestRow S) → p row ≡ true → IsRecorded row → IsRecorded (f row))
      → All IsRecorded rows
      → All IsRecorded (update_where p f rows)
  unfolding update_where
  update_where-IsRecorded p f [] keep h = tt
  update_where-IsRecorded p f (row ∷ rows) keep h = elim (Bool-cases (p row)) [
    | inl e ↦ rw e (keep row e h.0, update_where-IsRecorded p f rows keep h.1)
    | inr e ↦ rw e (h.0, update_where-IsRecorded p f rows keep h.1)
  ]

module _ {S : Type 0} (R : Table (RequestRow S)) (F : Table (FlowRow (MatchDetails S)))
    (valid_uuid : String → Bool) where
  abbrev pub AllRecorded : Env R F → Type 0
  AllRecorded env = All IsRecorded (R.rows env.requests)

  unfoldable pub perform : Step S → Env R F → Env R F
  perform (creates now user match o) env = (create_request R F now user match o env).1
  perform (confirms now id) env = (initiator_confirms R F valid_uuid now id env).1
  perform (differs now id target) env =
      (initiator_requests_different R F valid_uuid now id target env).1
  perform (cancels now id) env = (initiator_cancels R F valid_uuid now id env).1
  perform (accepts now id) env = (target_accepts R F valid_uuid now id env).1
  perform (declines now id reason) env = (target_declines R F valid_uuid now id reason env).1
  perform (marks now id guid) env = (mark_group_created R F valid_uuid now id guid env).1

  unfoldable pub run : List (Step S) → Env R F → Env R F
  run [] env = env
  run (step ∷ steps) env = run steps (perform step env)

  pub update_status-IsRecorded :
      (now : ℕ) (id : String) (status : Status) (additional : RequestRow S → RequestRow S)
      (expected : Status) (st : R.Store)
      → ((row : RequestRow S)
          → Approved expected row
          → IsRecorded (set_status now status additional row))
      → All IsRecorded (R.rows st)
      → All IsRecorded (
          R.rows
            (update_connection_request_status R valid_uuid now id status additional
              (some expected)
              st).1)
  update_status-IsRecorded now id status additional expected st keep h =
      update_cases R valid_uuid (λ r. All IsRecorded (R.rows r.1)) now id status additional expected
        st h h
        (λ valid ok_id.
          elim (R.update_atomic (expects id (some expected)) (set_status now status additional)
            st) [
              | inl e ↦ rw e h
              | inr e ↦ rw e (
                  update_where-IsRecorded _ _ (R.rows st)
                    (λ row hit recorded.
                      keep row (
                        subst (λ x. Approved x row) (expects-parts id expected row hit).1 recorded))
                    h)
            ])

  followed-requests :
      (now : ℕ) (test : NetworkingState (MatchDetails S) → Bool)
      (move : NetworkingState (MatchDetails S) → Result (NetworkingState (MatchDetails S)))
      (env : Env R F) (r : Result (RequestRow S) × R.Store)
      → (followed R F now test move env.flows r).1.requests ≡ r.1
  followed-requests now test move env (ok row, st) = refl
  followed-requests now test move env (raised e, st) = refl

  step_request-IsRecorded :
      (now : ℕ) (id : String) (status : Status) (additional : RequestRow S → RequestRow S)
      (expected : Status) (test : NetworkingState (MatchDetails S) → Bool)
      (move : NetworkingState (MatchDetails S) → Result (NetworkingState (MatchDetails S)))
      (env : Env R F)
      → ((row : RequestRow S)
          → Approved expected row
          → IsRecorded (set_status now status additional row))
      → AllRecorded env
      → AllRecorded (step_request R F valid_uuid now id status additional expected test move env).1
  unfolding step_request
  step_request-IsRecorded now id status additional expected test move env keep h =
      rw
        (followed-requests now test move env (
          update_connection_request_status R valid_uuid now id status additional (some expected)
            env.requests))
        (update_status-IsRecorded now id status additional expected env.requests keep h)

  created-IsRecorded :
      (now : ℕ) (user : String) (match : MatchResult S) (o : Options) (env : Env R F)
      (r : Result (RequestRow S) × R.Store)
      → All IsRecorded (R.rows r.1)
      → AllRecorded (created R F now user match o env.flows r).1
  created-IsRecorded now user match o env (ok row, st) h = h
  created-IsRecorded now user match o env (raised e, st) h = h

  create-IsRecorded :
      (now : ℕ) (new : NewRequest S) (st : R.Store)
      → All IsRecorded (R.rows st)
      → All IsRecorded (R.rows (create_connection_request R now new st).1)
  unfolding create_connection_request
  create-IsRecorded now new st h = elim (R.insert_atomic (request_data now new) st) [
    | inl e ↦ rw e h
    | inr (key, e) ↦
        rw e (All-append IsRecorded (R.rows st) (request_data now new key ∷ []) h (tt, tt))
  ]

  with_excluded-Approved :
      (s : Status) (candidates : List String) (now : ℕ) (row : RequestRow S)
      → Approved s row
      → Approved s (with_excluded R candidates now row)
  with_excluded-Approved pending_target_approval candidates now row a = a
  with_excluded-Approved _ candidates now row a = a

  exclude-IsRecorded :
      (now : ℕ) (id candidate : String) (st : R.Store)
      → All IsRecorded (R.rows st)
      → All IsRecorded (R.rows (add_excluded_candidate R now id candidate st).1)
  unfolding add_excluded_candidate
  exclude-IsRecorded now id candidate st h = elim (Option-cases (get_connection_request R id st)) [
    | inl e ↦ rw (e, add_excluded_candidate) h
    | inr (row, e) ↦
        rw (e, add_excluded_candidate)
          (elim (R.update_atomic (of_id id)
            (with_excluded R (exclude R (or_empty row.excluded_candidates) candidate) now) st) [
              | inl f ↦ rw f h
              | inr f ↦ rw f (
                  update_where-IsRecorded (of_id id)
                    (with_excluded R (exclude R (or_empty row.excluded_candidates) candidate) now)
                    (R.rows st)
                    (λ row' hit recorded.
                      with_excluded-Approved row'.status
                        (exclude R (or_empty row.excluded_candidates) candidate) now row' recorded)
                    h)
            ])
  ]

  cancelled_after-IsRecorded :
      (now : ℕ) (id : String) (env : Env R F) (r : Result (RequestRow S) × R.Store)
      → All IsRecorded (R.rows r.1)
      → AllRecorded (cancelled_after R F valid_uuid now id env.flows r).1
  cancelled_after-IsRecorded now id env (raised e, st) h = h
  cancelled_after-IsRecorded now id env (ok row, st) h =
      update_status-IsRecorded now id cancelled (λ row'. row') pending_initiator_approval st
        (λ row' a. tt) h

  pub perform-IsRecorded :
      (step : Step S) (env : Env R F) → AllRecorded env → AllRecorded (perform step env)
  unfolding perform create_request initiator_confirms initiator_requests_different initiator_cancels
      target_accepts target_declines mark_group_created
  perform-IsRecorded (creates now user match o) env h =
      created-IsRecorded now user match o env _
        (create-IsRecorded now (new_request user match o) env.requests h)
  perform-IsRecorded (confirms now id) env h =
      step_request-IsRecorded now id _ _ pending_initiator_approval _ _ env (λ row a. tt) h
  perform-IsRecorded (differs now id target) env h =
      cancelled_after-IsRecorded now id env _ (exclude-IsRecorded now id target env.requests h)
  perform-IsRecorded (cancels now id) env h =
      step_request-IsRecorded now id _ _ pending_initiator_approval _ _ env (λ row a. tt) h
  perform-IsRecorded (accepts now id) env h =
      step_request-IsRecorded now id _ _ pending_target_approval _ _ env (λ row a. (a, tt)) h
  perform-IsRecorded (declines now id reason) env h =
      step_request-IsRecorded now id _ _ pending_target_approval _ _ env (λ row a. (a, tt)) h
  perform-IsRecorded (marks now id guid) env h =
      step_request-IsRecorded now id _ _ target_accepted _ _ env (λ row a. (a.0, a.1, tt, tt)) h

  -- Any sequence of steps, failing or not, keeps every request recorded: one that awaits its target
  -- has the time when the target was notified, one that the target answered has also the time of
  -- the answer, and one with a group chat has also the chat and the time of its creation.
  pub run-IsRecorded :
      (steps : List (Step S)) (env : Env R F) → AllRecorded env → AllRecorded (run steps env)
  unfolding run
  run-IsRecorded [] env h = h
  run-IsRecorded (step ∷ steps) env h =
      run-IsRecorded steps (perform step env) (perform-IsRecorded step env h)
