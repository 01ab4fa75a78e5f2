-- ===== src/Networking/Queries.antt =====
-- The queries of app/database/client/connection_requests.py that find requests. `now` is the time of
-- the call.
pub mod Existing
pub mod Listed
mod Tests
use Prim.Native.String.{String}
use text.Mathlib.Text.{◌==◌ as str_eq}
use franklink.Prelude.{
  ℕ, ◌≤◌, ◌≡◌, Bool, true, false, not, ◌&&◌, ◌||◌, Option, none, some, List, [], ◌∷◌, length, min,
  max, if◌then◌else◌, ltb, leb, ◌==◌, ◌-◌, All,
}
use franklink.Networking.Status.{
  Status, pending_initiator_approval, pending_target_approval, target_accepted, group_created,
  status_eq, status_in,
}
use franklink.Networking.Table.{Table}
use franklink.Networking.Requests.{RequestRow, is_truthy, text_in}

-- `.order(column, desc=True).limit(n)`, on the rows that pass a filter.
pub record TopQuery {Row : Type 0} (T : Table Row) : Type 1 where
  pub newest : (Row → Bool) → (Row → ℕ) → ℕ → T.Store → Option (List Row)
  pub newest_passes :
      (p : Row → Bool) (key : Row → ℕ) (n : ℕ) (st : T.Store) (rs : List Row)
      → newest p key n st ≡ some rs
      → (length rs ≤ n) × All (λ row. p row ≡ true) rs

-- A row of `group_chat_participants`.
pub record ChatMember : Type 0 where
  pub chat_guid : String
  pub user_id : String

abbrev pub rows_or_none {ℓ} : {A : Type ℓ} → Option (List A) → List A
rows_or_none none = []
rows_or_none (some rows) = rows

abbrev pub first_of {ℓ} : {A : Type ℓ} → Option (List A) → Option A
first_of none = none
first_of (some []) = none
first_of (some (a ∷ as')) = some a

abbrev pub has_rows {ℓ} : {A : Type ℓ} → Option (List A) → Bool
has_rows none = false
has_rows (some []) = false
has_rows (some (a ∷ as')) = true

abbrev pub chats_of : List ChatMember → List String
chats_of [] = []
chats_of (m ∷ ms) = m.chat_guid ∷ chats_of ms

-- `max(1, min(int(limit or default), 25))`
abbrev pub page_size : ℕ → ℕ → ℕ
page_size default limit = max 1 (min (if limit == 0 then default else limit) 25)

-- The statuses of a connection that counts.
abbrev pub active_statuses : List Status
active_statuses =
    pending_initiator_approval ∷ pending_target_approval ∷ target_accepted ∷ group_created ∷ []

module _ {S : Type 0} where
  abbrev pub unexpired : ℕ → RequestRow S → Bool
  unexpired now row = ltb now row.expires_at

  abbrev pub awaits_initiator : ℕ → String → RequestRow S → Bool
  awaits_initiator now user row =
      str_eq row.initiator_user_id user
      && (status_eq row.status pending_initiator_approval && unexpired now row)

  abbrev pub awaits_target : ℕ → String → RequestRow S → Bool
  awaits_target now user row =
      str_eq row.target_user_id user
      && (status_eq row.status pending_target_approval && unexpired now row)

  abbrev pub sent_by : ℕ → String → RequestRow S → Bool
  sent_by now user row =
      str_eq row.initiator_user_id user
      && (status_eq row.status pending_target_approval && unexpired now row)

  -- A request between two users, in either direction.
  unfoldable pub between : ℕ → String → String → RequestRow S → Bool
  unfolding status_in
  between now a b row =
      ((str_eq row.initiator_user_id a && str_eq row.target_user_id b)
        || (str_eq row.initiator_user_id b && str_eq row.target_user_id a))
      && (status_in row.status active_statuses && unexpired now row)

  abbrev pub created_of : RequestRow S → ℕ
  created_of row = row.created_at

  module _ (R : Table (RequestRow S)) (Q : TopQuery R) where
    unfoldable pub get_pending_request_for_user :
        ℕ → String → Bool → R.Store → Option (RequestRow S)
    get_pending_request_for_user now user as_initiator st = first_of (
        Q.newest (if as_initiator then awaits_initiator now user else awaits_target now user)
          created_of 1 st)

    unfoldable pub get_pending_request_for_target : ℕ → String → R.Store → Option (RequestRow S)
    get_pending_request_for_target now user st =
        first_of (Q.newest (awaits_target now user) created_of 1 st)

    unfoldable pub list_pending_requests_for_target : ℕ → String → ℕ → R.Store → List (RequestRow S)
    list_pending_requests_for_target now user limit st =
        rows_or_none (Q.newest (awaits_target now user) created_of (page_size 5 limit) st)

    unfoldable pub list_pending_requests_for_initiator :
        ℕ → String → ℕ → R.Store → List (RequestRow S)
    list_pending_requests_for_initiator now user limit st =
        rows_or_none (Q.newest (awaits_initiator now user) created_of (page_size 5 limit) st)

    unfoldable pub list_requests_awaiting_target_response :
        ℕ → String → ℕ → R.Store → List (RequestRow S)
    list_requests_awaiting_target_response now user limit st =
        rows_or_none (Q.newest (sent_by now user) created_of (page_size 10 limit) st)

  module _ (R : Table (RequestRow S)) (P : Table ChatMember) where
    abbrev pub of_member : String → ChatMember → Bool
    of_member user m = str_eq m.user_id user

    abbrev pub in_chats : String → List String → ChatMember → Bool
    in_chats user chats m = str_eq m.user_id user && text_in m.chat_guid chats

    -- The last query, for requests.
    abbrev pub request_exists : ℕ → String → String → R.Store → Bool
    request_exists now a b st = has_rows (R.select (between now a b) st)

    -- The chats of `b` among those of `a`: a query that raises answers false for the whole method.
    abbrev pub shared_or : Bool → Option (List ChatMember) → Bool
    shared_or otherwise none = false
    shared_or otherwise (some []) = otherwise
    shared_or otherwise (some (m ∷ ms)) = true

    abbrev pub chats_or : Bool → String → P.Store → Option (List ChatMember) → Bool
    chats_or otherwise b st none = false
    chats_or otherwise b st (some []) = otherwise
    chats_or otherwise b st (some (m ∷ ms)) =
        shared_or otherwise (P.select (in_chats b (chats_of (m ∷ ms))) st)

    unfoldable pub check_existing_connection :
        (String → Bool) → ℕ → String → String → R.Store → P.Store → Bool
    unfolding between text_in
    check_existing_connection valid_uuid now a b requests members =
        if not (valid_uuid a && valid_uuid b)
        then false
        else chats_or (request_exists now a b requests) b members (P.select (of_member a) members)
