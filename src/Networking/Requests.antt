-- ===== src/Networking/Requests.antt =====
-- The methods of app/database/client/connection_requests.py on the table `connection_requests` that
-- write it or read one request. `S` is the type of a match score, a `float` that is only stored.
-- `valid_uuid` says which texts `uuid.UUID` accepts. `none` in a column is null.
pub mod Lifecycle
pub mod Once
use Prim.Native.String.{String}
use text.Mathlib.Text.{◌==◌ as str_eq}
use franklink.Prelude.{
  ℕ, ◌+◌, Bool, true, false, ◌&&◌, ◌||◌, not, List, [], ◌∷◌, ◌++◌, Option, none, some,
  if◌then◌else◌,
}
use franklink.Networking.Status.{
  Status, pending_initiator_approval, status_eq, status_in, valid_status_transitions,
}
use franklink.Networking.Fault.{
  Result, ok, raised, request_failed, invalid_request_id, invalid_status_transition,
  changed_concurrently, not_found, index_error,
}
use franklink.Networking.Table.{Table}

pub record RequestRow (S : Type 0) : Type 0 where
  pub id : String
  pub initiator_user_id : String
  pub target_user_id : String
  pub match_score : Option S
  pub matching_reasons : List String
  pub llm_introduction : Option String
  pub llm_concern : Option String
  pub status : Status
  pub excluded_candidates : Option (List String)
  pub connection_purpose : Option String
  pub signal_group_id : Option String
  pub is_multi_match : Bool
  pub multi_match_threshold : ℕ
  pub group_chat_guid : Option String
  pub multi_match_chat_guid : Option String
  pub decline_reason : Option String
  pub target_notified_at : Option ℕ
  pub target_responded_at : Option ℕ
  pub group_created_at : Option ℕ
  pub expires_at : ℕ
  pub created_at : ℕ
  pub updated_at : ℕ

-- The arguments of `create_connection_request`.
pub record NewRequest (S : Type 0) : Type 0 where
  pub initiator_user_id : String
  pub target_user_id : String
  pub match_score : Option S
  pub matching_reasons : Option (List String)
  pub llm_introduction : Option String
  pub llm_concern : Option String
  pub excluded_candidates : Option (List String)
  pub signal_group_id : Option String
  pub is_multi_match : Bool
  pub multi_match_threshold : ℕ
  pub connection_purpose : Option String
  pub group_chat_guid : Option String

-- `if text:`, and the text or null
abbrev pub is_truthy : Option String → Bool
is_truthy none = false
is_truthy (some text) = not (str_eq text "")

abbrev pub or_null : Option String → Option String
or_null text = if is_truthy text then text else none

abbrev pub or_empty {ℓ} : {A : Type ℓ} → Option (List A) → List A
or_empty none = []
or_empty (some xs) = xs

-- `timedelta(days=3)`, in microseconds
abbrev pub three_days : ℕ
three_days = 259_200_000_000

unfoldable pub text_in : String → List String → Bool
text_in text [] = false
text_in text (t ∷ ts) = str_eq text t || text_in text ts

-- The check of the transition, if a status is expected.
unfoldable pub allowed : Option Status → Status → Bool
allowed none status = true
allowed (some expected) status = status_in status (valid_status_transitions expected)

module _ {S : Type 0} where
  -- The row that is inserted. A column that is left out has its default.
  unfoldable pub request_data : ℕ → NewRequest S → String → RequestRow S
  request_data now new id =
      let multi = new.is_multi_match && is_truthy new.signal_group_id in
      record {
        id = id;
        initiator_user_id = new.initiator_user_id;
        target_user_id = new.target_user_id;
        match_score = new.match_score;
        matching_reasons = or_empty new.matching_reasons;
        llm_introduction = new.llm_introduction;
        llm_concern = new.llm_concern;
        status = pending_initiator_approval;
        excluded_candidates = some (or_empty new.excluded_candidates);
        connection_purpose = or_null new.connection_purpose;
        signal_group_id = if multi then new.signal_group_id else none;
        is_multi_match = multi;
        multi_match_threshold = if multi then new.multi_match_threshold else 2;
        group_chat_guid = or_null new.group_chat_guid;
        multi_match_chat_guid = none;
        decline_reason = none;
        target_notified_at = none;
        target_responded_at = none;
        group_created_at = none;
        expires_at = now + three_days;
        created_at = now;
        updated_at = now;
      }

  -- `.eq("id", request_id)`
  unfoldable pub of_id : String → RequestRow S → Bool
  of_id id row = str_eq row.id id

  -- `.eq("id", request_id)`, and `.eq("status", ...)` if a status is expected
  unfoldable pub expects : String → Option Status → RequestRow S → Bool
  unfolding of_id
  expects id none row = of_id id row
  expects id (some status) row = of_id id row && status_eq row.status status

  abbrev first_row : Option (List (RequestRow S)) → Option (RequestRow S)
  first_row none = none
  first_row (some []) = none
  first_row (some (row ∷ rows)) = some row

  -- `result.data[0]`, and what is raised if there is none.
  abbrev pub row_or : Result (RequestRow S) → Option (List (RequestRow S)) → Result (RequestRow S)
  row_or missing none = raised request_failed
  row_or missing (some []) = missing
  row_or missing (some (row ∷ rows)) = ok row

  abbrev pub missing_row : Option Status → Result (RequestRow S)
  missing_row none = raised not_found
  missing_row (some status) = raised changed_concurrently

  abbrev pub refused : Option Status → Status → Result (RequestRow S)
  refused none status = raised not_found
  refused (some expected) status = raised (invalid_status_transition expected status)

  abbrev pub set_status : ℕ → Status → (RequestRow S → RequestRow S) → RequestRow S → RequestRow S
  set_status now status additional row =
      additional (record row { status = status; updated_at = now })

module _ {S : Type 0} (T : Table (RequestRow S)) where
  unfoldable pub create_connection_request :
      ℕ → NewRequest S → T.Store → Result (RequestRow S) × T.Store
  unfolding request_data
  create_connection_request now new st =
      let (answer, st') = T.insert (request_data now new) st in
      (row_or (raised index_error) answer, st')

  -- `additional` writes the fields of `additional_updates`.
  unfoldable pub update_connection_request_status :
      (String → Bool)
      → ℕ
      → String
      → Status
      → (RequestRow S → RequestRow S)
      → Option Status
      → T.Store
      → Result (RequestRow S) × T.Store
  update_connection_request_status valid_uuid now id status additional expected st =
      if not (valid_uuid id)
      then (raised invalid_request_id, st)
      else if not (allowed expected status)
      then (refused expected status, st)
      else let (answer, st') =
          T.update (expects id expected) (set_status now status additional) st in
        (row_or (missing_row expected) answer, st')

  -- An exception is logged, and reads as no request.
  unfoldable pub get_connection_request : String → T.Store → Option (RequestRow S)
  get_connection_request id st = first_row (T.select (of_id id) st)

  abbrev pub with_excluded : List String → ℕ → RequestRow S → RequestRow S
  with_excluded candidates now row = record row {
    excluded_candidates = some candidates;
    updated_at = now;
  }

  abbrev pub exclude : List String → String → List String
  exclude excluded candidate =
      if text_in candidate excluded then excluded else excluded ++ candidate ∷ []

  unfoldable pub add_excluded_candidate :
      ℕ → String → String → T.Store → Result (RequestRow S) × T.Store
  unfolding text_in get_connection_request
  add_excluded_candidate now id candidate st = elim (get_connection_request id st) [
    | none ↦ (raised not_found, st)
    | some row ↦
        (let (answer, st') =
            T.update (of_id id)
              (with_excluded (exclude (or_empty row.excluded_candidates) candidate) now) st in
          (row_or (raised index_error) answer, st'))
  ]

  -- An exception is logged, and answered by None, as is a missing row.
  unfoldable pub update_connection_request :
      ℕ → String → (RequestRow S → RequestRow S) → T.Store → Option (RequestRow S) × T.Store
  update_connection_request now id updates st =
      let (answer, st') =
        T.update (of_id id) (λ row. record (updates row) { updated_at = now }) st in
      (first_row answer, st')
