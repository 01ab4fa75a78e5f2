-- ===== src/Networking/Requests/Once.antt =====
-- A request leaves a status by an update under that expected status once at most.
use Prim.Native.String.{String}
use franklink.Prelude.{ℕ, ◌≡◌, refl, ap, ◌∙◌, Bool, true, List, [], map, Option, none, some}
use franklink.Networking.Status.{Status, status_in, valid_status_transitions}
use franklink.Networking.Fault.{Fault, ok, raised, changed_concurrently}
use franklink.Networking.Table.{Table, where_rows, update_where, update_where-none}
use franklink.Networking.Requests.{
  RequestRow, expects, allowed, set_status, row_or, update_connection_request_status,
}
use franklink.Networking.Requests.Lifecycle.{update_cases, where_rows-update_where}

module _ {S : Type 0} (T : Table (RequestRow S)) (valid_uuid : String → Bool) where
  pub row_or-ok :
      (missing : Fault) (answer : Option (List (RequestRow S))) (row : RequestRow S)
      → row_or (raised missing) answer ≡ ok row
      → (rs : List (RequestRow S)) × (answer ≡ some rs)
  row_or-ok missing none row h = cc
  row_or-ok missing (some rs) row h = (rs, refl)

  -- What a successful update leaves: the updated rows, by a valid transition.
  pub update_ok :
      (now : ℕ) (id : String) (status : Status) (additional : RequestRow S → RequestRow S)
      (expected : Status) (st : T.Store) (row : RequestRow S)
      → (update_connection_request_status T valid_uuid now id status additional
          (some expected)
          st).0
        ≡ ok row
      → (valid_uuid id ≡ true)
        × (status_in status (valid_status_transitions expected) ≡ true)
        × (T.rows
              (update_connection_request_status T valid_uuid now id status additional
                (some expected)
                st).1
            ≡ update_where
                (expects id (some expected))
                (set_status now status additional)
                (T.rows st))
  update_ok now id status additional expected st row =
      update_cases T valid_uuid
        (λ r.
          r.0 ≡ ok row
          → (valid_uuid id ≡ true)
            × (status_in status (valid_status_transitions expected) ≡ true)
            × (T.rows r.1
                ≡ update_where (expects id (some expected)) (set_status now status additional)
                    (T.rows st)))
        now id status additional expected st (λ h. cc) (λ h. cc)
        (λ valid ok_id h.
          let (rs, e) = row_or-ok changed_concurrently _ row h in
          (ok_id, valid, T.update_rows _ (set_status now status additional) st rs e))

  -- When no row is expected any more, an allowed update answers that the request has changed.
  pub update_nobody :
      (now : ℕ) (id : String) (status : Status) (additional : RequestRow S → RequestRow S)
      (expected : Status) (st : T.Store) (rs : List (RequestRow S))
      → where_rows (expects id (some expected)) (T.rows st) ≡ []
      → (T.update (expects id (some expected)) (set_status now status additional) st).0 ≡ some rs
      → valid_uuid id ≡ true
      → status_in status (valid_status_transitions expected) ≡ true
      → ((update_connection_request_status T valid_uuid now id status additional
            (some expected)
            st).0
          ≡ raised changed_concurrently)
        × (T.rows
              (update_connection_request_status T valid_uuid now id status additional
                (some expected)
                st).1
            ≡ T.rows st)
  unfolding update_connection_request_status allowed
  update_nobody now id status additional expected st rs nobody answer ok_id valid =
      let none_hit : rs ≡ [] =
        T.update_answer _ (set_status now status additional) st rs answer
        ∙ ap (map (set_status now status additional)) nobody in
      rw (ok_id, valid)
        (
          rw (answer, none_hit),
          T.update_rows _ (set_status now status additional) st rs answer
              ∙ update_where-none _ _ _ nobody,
        )

  -- A status is left once: after an update under an expected status has succeeded, another valid
  -- update of the same request under that status raises that the request has changed, and writes
  -- nothing.
  pub update_connection_request_status_once :
      (now later : ℕ) (id : String) (status status' expected : Status)
      (additional additional' : RequestRow S → RequestRow S) (st : T.Store) (row : RequestRow S)
      (rs : List (RequestRow S))
      → ((r : RequestRow S) → (additional r).status ≡ r.status)
      → (update_connection_request_status T valid_uuid now id status additional
          (some expected)
          st).0
        ≡ ok row
      → status_in status' (valid_status_transitions expected) ≡ true
      → (T.update
          (expects id (some expected))
          (set_status later status' additional')
          (update_connection_request_status T valid_uuid now id status additional
            (some expected)
            st).1).0
        ≡ some rs
      → ((update_connection_request_status T valid_uuid later id status' additional'
            (some expected)
            (update_connection_request_status T valid_uuid now id status additional
              (some expected)
              st).1).0
          ≡ raised changed_concurrently)
        × (T.rows
              (update_connection_request_status T valid_uuid later id status' additional'
                (some expected)
                (update_connection_request_status T valid_uuid now id status additional
                  (some expected)
                  st).1).1
            ≡ T.rows
                (update_connection_request_status T valid_uuid now id status additional
                  (some expected)
                  st).1)
  update_connection_request_status_once now later id status status' expected additional additional'
        st row rs keeps h valid answer =
      let (ok_id, first_valid, rows) = update_ok now id status additional expected st row h in
      update_nobody later id status' additional' expected _ rs
        (ap (where_rows (expects id (some expected))) rows
          ∙ where_rows-update_where now id expected status additional keeps first_valid (T.rows st))
        answer ok_id valid
