-- ===== src/Networking/Queries/Existing.antt =====
-- A request that was created is found between its two users.
use Prim.Native.String.{String}
use text.Mathlib.Text.{◌==◌ as str_eq}
use text.Mathlib.TextPositions.{eq_refl}
use franklink.Prelude.{
  ℕ, ◌+◌, ◌<◌, ◌≡◌, refl, ap, ◌∙◌, inl, inr, Bool, true, false, ◌&&◌, ◌||◌, Option, none, some,
  List, [], ◌∷◌, ◌++◌, IsPresent, IsPresent-some, Bool-cases, ltb, arith,
}
use franklink.Networking.Status.{status_in}
use franklink.Networking.Fault.{ok, index_error}
use franklink.Networking.Table.{Table, where_rows}
use franklink.Networking.Requests.{
  RequestRow, NewRequest, three_days, request_data, create_connection_request,
}
use franklink.Networking.Requests.Once.{row_or-ok}
use franklink.Networking.Queries.{
  ChatMember, has_rows, between, request_exists, shared_or, chats_or, check_existing_connection,
}

alive : (later now : ℕ) → later < now + three_days → ltb later (now + three_days) ≡ true
alive later now h = ground arith

either : (b : Bool) → (b || true) ≡ true
either true = refl
either false = refl

module _ {S : Type 0} where
  -- The new row is found if it passes.
  found_last :
      (p : RequestRow S → Bool) (rows : List (RequestRow S)) (row : RequestRow S)
      → p row ≡ true
      → has_rows (some (where_rows p (rows ++ row ∷ []))) ≡ true
  unfolding where_rows
  found_last p [] row h = rw h refl
  found_last p (r ∷ rows) row h = elim (Bool-cases (p r)) [
    | inl e ↦ rw e refl
    | inr e ↦ rw e (found_last p rows row h)
  ]

  between_forth :
      (now later : ℕ) (new : NewRequest S) (key : String)
      → later < now + three_days
      → between later new.initiator_user_id new.target_user_id (request_data now new key) ≡ true
  unfolding between request_data status_in
  between_forth now later new key h =
      rw (eq_refl new.initiator_user_id, eq_refl new.target_user_id) (alive later now h)

  between_back :
      (now later : ℕ) (new : NewRequest S) (key : String)
      → later < now + three_days
      → between later new.target_user_id new.initiator_user_id (request_data now new key) ≡ true
  unfolding between request_data status_in
  between_back now later new key h =
      rw
        (
          eq_refl new.initiator_user_id,
          eq_refl new.target_user_id,
          either (
              str_eq new.initiator_user_id new.target_user_id
              && str_eq new.target_user_id new.initiator_user_id),
        )
        (alive later now h)

module _ {S : Type 0} (R : Table (RequestRow S)) (P : Table ChatMember)
    (valid_uuid : String → Bool) where
  shared_or-true : (o : Option (List ChatMember)) → IsPresent o → shared_or R P true o ≡ true
  shared_or-true none h = absurd h
  shared_or-true (some []) h = refl
  shared_or-true (some (m ∷ ms)) h = refl

  chats_or-true :
      (b : String) (members : P.Store) (o : Option (List ChatMember))
      → IsPresent o
      → ((p : ChatMember → Bool) → IsPresent (P.select p members))
      → chats_or R P true b members o ≡ true
  chats_or-true b members none h answers = absurd h
  chats_or-true b members (some []) h answers = refl
  chats_or-true b members (some (m ∷ ms)) h answers = shared_or-true _ (answers _)

  -- A request that is found makes a connection.
  found_exists :
      (later : ℕ) (a b : String) (requests : R.Store) (members : P.Store)
      → request_exists R P later a b requests ≡ true
      → valid_uuid a ≡ true
      → valid_uuid b ≡ true
      → ((p : ChatMember → Bool) → IsPresent (P.select p members))
      → check_existing_connection R P valid_uuid later a b requests members ≡ true
  unfolding check_existing_connection
  found_exists later a b requests members found ok_a ok_b answers =
      rw (ok_a, ok_b, found) (chats_or-true b members _ (answers _) answers)

  request_found :
      (now later : ℕ) (new : NewRequest S) (st : R.Store) (row : RequestRow S) (a b : String)
      → (create_connection_request R now new st).0 ≡ ok row
      → ((key : String) → between later a b (request_data now new key) ≡ true)
      → IsPresent (R.select (between later a b) (create_connection_request R now new st).1)
      → request_exists R P later a b (create_connection_request R now new st).1 ≡ true
  unfolding create_connection_request
  request_found now later new st row a b made passes answers =
      let (rs, inserted) = row_or-ok R valid_uuid index_error _ row made in
      let (key, is_row, rows) = R.insert_rows (request_data now new) st rs inserted in
      let (found, selected) = IsPresent-some _ answers in
      ap has_rows (
        selected
        ∙ ap some (R.select_rows (between later a b) _ found selected)
        ∙ ap (λ xs. some (where_rows (between later a b) xs)) rows)
      ∙ found_last (between later a b) (R.rows st) (request_data now new key) (passes key)

  -- Right after its creation a request is found by `check_existing_connection` in both directions,
  -- at any time before it expires after three days, if the identifiers are valid and no query
  -- raises.
  pub check_existing_connection-create_connection_request :
      (now later : ℕ) (new : NewRequest S) (st : R.Store) (row : RequestRow S) (members : P.Store)
      → (create_connection_request R now new st).0 ≡ ok row
      → later < now + three_days
      → valid_uuid new.initiator_user_id ≡ true
      → valid_uuid new.target_user_id ≡ true
      → ((p : RequestRow S → Bool)
          → IsPresent (R.select p (create_connection_request R now new st).1))
      → ((p : ChatMember → Bool) → IsPresent (P.select p members))
      → (check_existing_connection R P valid_uuid later new.initiator_user_id new.target_user_id
            (create_connection_request R now new st).1
            members
          ≡ true)
        × (check_existing_connection R P valid_uuid later new.target_user_id new.initiator_user_id
              (create_connection_request R now new st).1
              members
            ≡ true)
  check_existing_connection-create_connection_request now later new st row members made before
        ok_initiator ok_target answers members_answer =
      (
        found_exists later new.initiator_user_id new.target_user_id _ members
            (request_found now later new st row _ _ made
              (λ key. between_forth now later new key before) (answers _))
            ok_initiator ok_target members_answer,
        found_exists later new.target_user_id new.initiator_user_id _ members
            (request_found now later new st row _ _ made
              (λ key. between_back now later new key before) (answers _))
            ok_target ok_initiator members_answer,
      )
