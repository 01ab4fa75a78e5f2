-- ===== src/Kafka/Failure.antt =====
-- `_handle_failure` and the functions that choose the topic and the delay of a retry. `B` is the type
-- of the keys of an event that are only passed on.
use Prim.Native.String.{String}
use franklink.Prelude.{
  ℕ, zero, suc, ◌-◌, min, max, Bool, true, false, ◌&&◌, Option, none, some, if◌then◌else◌, ltb, not,
}

pub record Settings : Type 0 where
  pub topic_retry_30s : String
  pub topic_retry_2m : String
  pub topic_retry_10m : String
  pub topic_dlq : String
  pub max_attempts : ℕ

pub record FailingEvent (B : Type 0) : Type 0 where
  pub attempt : Option ℕ
  pub retry_after_seconds : Option ℕ
  pub source_topic : Option String
  pub retry_from_topic : Option String
  pub last_error : Option String
  pub body : B

-- The exception of a handler: one of the retryable types, another ValueError, or another one.
pub data ErrorKind : Type 0 where
  retryable_type value_error other_error : ErrorKind

unfoldable pub is_retryable_error : ErrorKind → Bool
is_retryable_error retryable_type = true
is_retryable_error value_error = false
is_retryable_error other_error = true

-- `values[idx]` of three values; the index is cut to the last.
abbrev pub pick : {A : Type 0} → A → A → A → ℕ → A
pick a b c zero = a
pick a b c (suc zero) = b
pick a b c (suc (suc n)) = c

unfoldable pub retry_delay_seconds : ℕ → ℕ
retry_delay_seconds attempt = pick 30 120 600 (min (max 1 attempt - 1) 2)

unfoldable pub retry_topic : Settings → ℕ → String
retry_topic s attempt =
    pick s.topic_retry_30s s.topic_retry_2m s.topic_retry_10m (min (max 1 attempt - 1) 2)

-- The event was sent to a topic for a retry, or to the dead letters; or there is no producer, or
-- the sending raised.
pub data Failure (B : Type 0) : Type 0 where
  retried : String → FailingEvent B → Failure B
  dead_lettered : FailingEvent B → Failure B
  no_producer : Failure B
  not_sent : Failure B

abbrev pub attempt_of : Option ℕ → ℕ
attempt_of none = 0
attempt_of (some n) = n

-- `handled` of `_handle_record`; an exception of the sending leaves it false.
abbrev pub is_handled : {B : Type 0} → Failure B → Bool
is_handled (retried topic event) = true
is_handled (dead_lettered event) = true
is_handled _ = false

module _ {B : Type 0} (s : Settings) where
  unfoldable pub handle_failure : Bool → Bool → ErrorKind → String → FailingEvent B → Failure B
  unfolding is_retryable_error retry_delay_seconds retry_topic
  handle_failure has_producer sends kind error event =
      let next = suc (attempt_of event.attempt) in
      let again : FailingEvent B = record event {
        last_error = some error;
        attempt = some next;
        retry_after_seconds = some (retry_delay_seconds next);
        retry_from_topic = event.source_topic;
      } in
      let dead : FailingEvent B = record event {
        last_error = some error;
        attempt = some next;
        retry_after_seconds = some 0;
      } in
      if not has_producer
      then no_producer
      else if is_retryable_error kind && ltb (attempt_of event.attempt) s.max_attempts
      then (if sends then retried (retry_topic s next) again else not_sent)
      else if sends
      then dead_lettered dead
      else not_sent
