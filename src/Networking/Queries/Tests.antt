-- ===== src/Networking/Queries/Tests.antt =====
-- A request that was just created.
use Prim.Native.String.{String}
use franklink.Prelude.{ℕ, ◌≡◌, refl, Bool, true, false, List, [], ◌∷◌, none, arith}
use franklink.Networking.Table.{Table, list_table}
use franklink.Networking.Requests.{RequestRow, NewRequest, request_data, create_connection_request}
use franklink.Networking.Queries.{ChatMember, check_existing_connection}
use franklink.Networking.Queries.Existing.{check_existing_connection-create_connection_request}

abbrev stored_requests : Table (RequestRow ℕ)
stored_requests = list_table (RequestRow ℕ) "r1"

abbrev chat_members : Table ChatMember
chat_members = list_table ChatMember "m"

abbrev is_uuid : String → Bool
is_uuid text = true

abbrev ann_to_bob : NewRequest ℕ
ann_to_bob = record {
  initiator_user_id = "ann";
  target_user_id = "bob";
  match_score = none;
  matching_reasons = none;
  llm_introduction = none;
  llm_concern = none;
  excluded_candidates = none;
  signal_group_id = none;
  is_multi_match = false;
  multi_match_threshold = 1;
  connection_purpose = none;
  group_chat_guid = none;
}

-- Ann is in a chat of her own.
abbrev ann_alone : List ChatMember
ann_alone = record { chat_guid = "c"; user_id = "ann" } ∷ []

check_existing_connection-create_connection_request_example :
    (check_existing_connection stored_requests chat_members is_uuid 9 "ann" "bob"
        (create_connection_request stored_requests 5 ann_to_bob []).1
        ann_alone
      ≡ true)
    × (check_existing_connection stored_requests chat_members is_uuid 9 "bob" "ann"
          (create_connection_request stored_requests 5 ann_to_bob []).1
          ann_alone
        ≡ true)
unfolding create_connection_request
check_existing_connection-create_connection_request_example =
    check_existing_connection-create_connection_request stored_requests chat_members is_uuid 5 9
      ann_to_bob [] (request_data 5 ann_to_bob "r1") ann_alone refl (omega arith) refl refl
      (λ p. tt) (λ p. tt)
