-- ===== src/Networking/Multi/Recorded.antt =====
-- What the requests record of their handshakes, also of those with several matches.
use Prim.Native.String.{String}
use franklink.Prelude.{
  ℕ, ◌≡◌, refl, IsPresent, Bool, true, false, List, [], ◌∷◌, Option, none, some, All,
}
use franklink.Networking.Status.{pending_target_approval, target_accepted, group_created}
use franklink.Networking.Fault.{Result, ok, raised}
use franklink.Networking.Table.{Table}
use franklink.Networking.Flows.{FlowRow}
use franklink.Networking.Requests.{RequestRow}
use franklink.Networking.Matches.{MatchDetails}
use franklink.Networking.Handshake.{Env}
use franklink.Networking.Handshake.Approvals.{
  Step, IsRecorded, AllRecorded, perform, update_status-IsRecorded, perform-IsRecorded,
}
use franklink.Networking.Multi.{User, GroupRequest, Gathered, Joiner, GroupService}
use franklink.Networking.Multi.Accept.{with_status, target_accepts_multi_match}
use franklink.Networking.Multi.Create.{
  chat_updates, mark_request, marked, group_placed, group_request, create_multi_person_group,
}
use franklink.Networking.Multi.Cases.{mark_all_keeps, create_cases, join_cases}
use franklink.Networking.Multi.Join.{join_marked, joined, add_late_joiner_to_group}

-- A step of a handshake with one match, or with several.
pub data MultiStep (S : Type 0) : Type 0 where
  of_one : Step S → MultiStep S
  accepts_multi : ℕ → String → MultiStep S
  creates_group : ℕ → String → List String → MultiStep S
  joins : ℕ → String → String → MultiStep S

module _ {S W : Type 0} (R : Table (RequestRow S)) (F : Table (FlowRow (MatchDetails S)))
    (valid_uuid : String → Bool) (text_max : String → String → String) (service : GroupService W)
    (users : String → Result (Option User)) where
  abbrev pub with_requests : Env R F → R.Store × W → Env R F × W
  with_requests env (st, w) = (record { requests = st; flows = env.flows }, w)

  unfoldable pub perform_multi : MultiStep S → Env R F × W → Env R F × W
  perform_multi (of_one step) (env, w) = (perform R F valid_uuid step env, w)
  perform_multi (accepts_multi now id) (env, w) =
      with_requests env
        ((target_accepts_multi_match R valid_uuid text_max now id env.requests).1, w)
  perform_multi (creates_group now group ids) (env, w) =
      with_requests env
        (create_multi_person_group R valid_uuid service users now group ids (env.requests, w)).1
  perform_multi (joins now id chat) (env, w) =
      with_requests env
        (add_late_joiner_to_group R users service valid_uuid now id chat (env.requests, w)).1

  unfoldable pub run_multi : List (MultiStep S) → Env R F × W → Env R F × W
  run_multi [] env = env
  run_multi (step ∷ steps) env = run_multi steps (perform_multi step env)

  Recorded : R.Store → Type 0
  Recorded st = All IsRecorded (R.rows st)

  accept-Recorded :
      (r : Result (RequestRow S) × R.Store) → Recorded r.1 → Recorded (with_status R text_max r).1
  accept-Recorded (raised e, st) h = h
  accept-Recorded (ok row, st) h = h

  mark_request-Recorded :
      (now : ℕ) (guid : Option String) (id : String) (st : R.Store)
      → IsPresent guid
      → Recorded st
      → Recorded (mark_request R valid_uuid now guid id st).1
  unfolding mark_request Recorded
  mark_request-Recorded now guid id st present h =
      update_status-IsRecorded R F valid_uuid now id group_created (chat_updates now guid)
        target_accepted st (λ row a. (a.0, a.1, tt, present)) h

  marked-Recorded :
      (guid : Option String) (group : String) (g : Gathered) (w : W) (r : Result Bool × R.Store)
      → Recorded r.1
      → Recorded (marked R valid_uuid service users guid group g w r).1.0
  marked-Recorded guid group g w (raised e, st) h = h
  marked-Recorded guid group g w (ok b, st) h = h

  module _
      (gives_chat : (request : GroupRequest) (w : W) (guid : Option String)
        → (service.create_group request w).0 ≡ some guid
        → IsPresent guid) where
    placed-Recorded :
        (now : ℕ) (group : String) (ids : List String) (g : Gathered) (st : R.Store)
        (r : Option (Option String) × W)
        → ((guid : Option String) → r.0 ≡ some guid → IsPresent guid)
        → Recorded st
        → Recorded (group_placed R valid_uuid service users now group ids g st r).1.0
    placed-Recorded now group ids g st (none, w) present h = h
    placed-Recorded now group ids g st (some guid, w) present h = marked-Recorded guid group g w _ (
        mark_all_keeps R valid_uuid Recorded now guid
          (λ id st' h'. mark_request-Recorded now guid id st' (present guid refl) h') ids st h)

    join_marked-Recorded :
        (j : Joiner) (w : W) (r : Result (RequestRow S) × R.Store)
        → Recorded r.1
        → Recorded (join_marked R users service valid_uuid j w r).1.0
    join_marked-Recorded j w (raised e, st) h = h
    join_marked-Recorded j w (ok row, st) h = h

    joined-Recorded :
        (now : ℕ) (j : Joiner) (st : R.Store) (r : Bool × W)
        → Recorded st
        → Recorded (joined R users service valid_uuid now j st r).1.0
    joined-Recorded now j st (false, w) h = h
    joined-Recorded now j st (true, w) h =
        join_marked-Recorded j w _
          (mark_request-Recorded now (some j.chat_guid) j.connection_request_id st tt h)

    perform_multi-Recorded :
        (step : MultiStep S) (env : Env R F) (w : W)
        → AllRecorded R F valid_uuid env
        → AllRecorded R F valid_uuid (perform_multi step (env, w)).0
    unfolding perform_multi Recorded target_accepts_multi_match
    perform_multi-Recorded (of_one step) env w h = perform-IsRecorded R F valid_uuid step env h
    perform_multi-Recorded (accepts_multi now id) env w h = accept-Recorded _ (
        update_status-IsRecorded R F valid_uuid now id target_accepted _ pending_target_approval
          env.requests (λ row a. (a, tt)) h)
    perform_multi-Recorded (creates_group now group ids) env w h =
        create_cases R valid_uuid service users (λ r. Recorded r.1.0) now group ids env.requests w
          (λ e. h)
          (λ g found.
            placed-Recorded now group ids g env.requests _
              (gives_chat (group_request R valid_uuid service users group g) w) h)
    perform_multi-Recorded (joins now id chat) env w h =
        join_cases R valid_uuid service users (λ r. Recorded r.1.0) now id chat env.requests w
          (λ e. h) (λ j found. joined-Recorded now j env.requests _ h)

    -- Where the service of group chats answers with a chat whenever it does not raise, any
    -- sequence of steps of handshakes with one match and with several, failing or not, keeps every
    -- request recorded: one that awaits its target has the time when the target was notified, one
    -- that the target answered has also the time of the answer, and one with a group chat has also
    -- the chat and the time of its creation.
    pub run_multi-IsRecorded :
        (steps : List (MultiStep S)) (env : Env R F) (w : W)
        → AllRecorded R F valid_uuid env
        → AllRecorded R F valid_uuid (run_multi steps (env, w)).0
    unfolding run_multi
    run_multi-IsRecorded [] env w h = h
    run_multi-IsRecorded (step ∷ steps) env w h =
        run_multi-IsRecorded steps (perform_multi step (env, w)).0 (perform_multi step (env, w)).1
          (perform_multi-Recorded step env w h)
