-- ===== src/Kafka/Event.antt =====
-- `build_kafka_event` and the functions that compute its keys. `R` is the type of a raw payload;
-- `digest` is the first sixteen hexadecimal digits of SHA-256. A value that is not a text is taken
-- as the text that `str` makes of it.
use franklink.Prelude.{
  ℕ, Bool, true, false, not, ◌&&◌, ◌||◌, Option, none, some, [], ◌∷◌, ◌++◌, if◌then◌else◌, drop,
  length,
}
use franklink.Text.{Text, codes}
use franklink.Text.Strip.{strip}
use franklink.Text.Find.{starts_with}
use franklink.Text.Equal.{contains, join}

pub record PhotonPayload (R : Type 0) : Type 0 where
  pub message_id : Option Text
  pub from_number : Option Text
  pub to_number : Option Text
  pub content : Option Text
  pub media_url : Option Text
  pub chat_guid : Option Text
  pub timestamp : Option Text
  pub is_location_share : Bool
  pub attempt : Option ℕ
  pub trace_id : Option Text
  pub raw_payload : Option R

pub record KafkaEvent (R : Type 0) : Type 0 where
  pub schema_version : ℕ
  pub event_id : Text
  pub idempotency_key : Text
  pub source : Text
  pub received_at : Text
  pub payload_timestamp : Option Text
  pub from_number : Option Text
  pub to_number : Option Text
  pub content : Option Text
  pub media_url : Option Text
  pub message_id : Option Text
  pub chat_guid : Option Text
  pub is_group : Bool
  pub is_location_share : Bool
  pub attempt : ℕ
  pub trace_id : Text
  pub partition_key : Text
  pub test_run : Option Text
  pub raw_payload : Option R

-- `value or other`, for a text and for what may be none.
abbrev pub or_else : Text → Text → Text
or_else [] other = other
or_else (c ∷ t) other = c ∷ t

abbrev pub text_or : Option Text → Text → Text
text_or none other = other
text_or (some t) other = or_else t other

abbrev pub text_or_none : Text → Option Text
text_or_none [] = none
text_or_none (c ∷ t) = some (c ∷ t)

abbrev pub photon_hash : Text
photon_hash = codes "photon_hash:"

abbrev pub is_empty_text : Text → Bool
is_empty_text [] = true
is_empty_text (c ∷ t) = false

abbrev pub attempt_or_zero : Option ℕ → ℕ
attempt_or_zero none = 0
attempt_or_zero (some n) = n

module _ {R : Type 0} (digest : Text → Text) where
  unfoldable pub compute_fallback_event_id : PhotonPayload R → Text
  unfolding join
  compute_fallback_event_id payload = digest (
      join (codes "|") (
        text_or payload.from_number (codes "unknown")
        ∷ text_or payload.chat_guid []
        ∷ text_or payload.content []
        ∷ text_or payload.media_url []
        ∷ []))

  -- `message_id.split("photon_hash:", 1)[1]` is what follows the prefix.
  unfoldable pub build_idempotency_key : Bool → PhotonPayload R → Text → Text
  unfolding compute_fallback_event_id strip starts_with
  build_idempotency_key development payload message_id =
      let env_prefix = if development then codes "dev_" else [] in
      let id = strip message_id in
      if not (is_empty_text id) && not (starts_with photon_hash id)
      then env_prefix ++ (codes "photon_msg:" ++ id)
      else if starts_with photon_hash id
      then env_prefix ++ (codes "photon_msg_hash:" ++ drop (length photon_hash) id)
      else env_prefix ++ (codes "photon_msg_hash:" ++ compute_fallback_event_id payload)

  unfoldable pub event_id_of : PhotonPayload R → Text
  unfolding compute_fallback_event_id strip
  event_id_of payload =
      or_else (strip (text_or payload.message_id []))
        (photon_hash ++ compute_fallback_event_id payload)

  -- `now` is the time, `new_trace` a new `uuid4`, and `test_run` the setting, stripped.
  unfoldable pub build_kafka_event : Bool → Text → Text → Text → PhotonPayload R → KafkaEvent R
  unfolding event_id_of build_idempotency_key contains
  build_kafka_event development now new_trace test_run payload =
      let message_id = strip (text_or payload.message_id []) in
      let event_id = event_id_of payload in
      let guid = text_or payload.chat_guid [] in
      record {
        schema_version = 1;
        event_id = event_id;
        idempotency_key = build_idempotency_key development payload (or_else message_id event_id);
        source = codes "photon";
        received_at = now;
        payload_timestamp = payload.timestamp;
        from_number = payload.from_number;
        to_number = payload.to_number;
        content = payload.content;
        media_url = payload.media_url;
        message_id = text_or_none message_id;
        chat_guid = payload.chat_guid;
        is_group =
            not (is_empty_text guid)
            && (contains (codes ";+;") guid || starts_with (codes "chat") guid);
        is_location_share = payload.is_location_share;
        attempt = attempt_or_zero payload.attempt;
        trace_id = text_or payload.trace_id new_trace;
        partition_key = or_else guid (text_or payload.from_number (or_else message_id event_id));
        test_run = text_or_none test_run;
        raw_payload = payload.raw_payload;
      }
