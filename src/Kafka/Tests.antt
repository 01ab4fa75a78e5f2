-- ===== src/Kafka/Tests.antt =====
-- A partition, a failing event and a few messages.
use franklink.Prelude.{
  ℕ, ◌≡◌, ◌≢◌, ◌↔◌, refl, true, false, none, some, List, [], ◌∷◌, arith, Returns, ltb,
}
use franklink.Text.{codes}
use franklink.Text.Strip.{strip, is_space}
use franklink.Kafka.Tracker.{
  Partition, confirmed, unconfirmed, rejected, member, new_tracker, begin_record, advance_commit,
  Step, begins, finishes, assigns, run,
}
use franklink.Kafka.Advance.{IsEnd, advance_commit-IsEnd}
use franklink.Kafka.Committed.{Safe, handled_after, run-Safe}
use franklink.Kafka.Stalled.{Waits, run-Waits}
use franklink.Kafka.Failure.{Settings, FailingEvent, retryable_type}
use franklink.Kafka.Journey.{in_dead_letters, kept, journey, Journeyed, journey-Journeyed}
use franklink.Kafka.Serial.{
  Delivery, succeeds, fails, is_committed, handle_records, PassedOver, SomeCommitted,
  handle_records-PassedOver,
}
use franklink.Kafka.Event.{PhotonPayload, build_idempotency_key}
use franklink.Kafka.Keys.{build_idempotency_key-inj}

-- The partition when record 5 arrives as the first.
abbrev opened : Partition
opened =
    (begin_record 5
      (record { connected = true; assigned = true; tracker = new_tracker; commits = [] })).1

no_commit : {A : Type 0} (e : ℕ) → member e [] ≡ true → A
unfolding member
no_commit e h = cc

opened-Safe : Safe 5 [] opened
unfolding begin_record
opened-Safe = record {
  opened = refl;
  done = λ o low high. absurd (omega arith);
  marked = λ o m. cc;
  broker = λ e m o low high. no_commit e m;
}

-- Record 6 ends before record 5, and a commit is not confirmed.
abbrev steps : List Step
steps =
    begins 6
    ∷ begins 7
    ∷ finishes 6 0 true confirmed true
    ∷ finishes 5 0 true unconfirmed true
    ∷ finishes 7 0 false confirmed true
    ∷ assigns false
    ∷ []

run-gap : (run 500 200 (begins 6 ∷ finishes 6 0 true confirmed true ∷ []) opened).commits ≡ []
unfolding run begin_record
run-gap = refl

run-filled : (run 500 200 steps opened).commits ≡ 7 ∷ 7 ∷ []
unfolding run begin_record
run-filled = refl

run-Safe_example : Safe 5 (handled_after steps []) (run 500 200 steps opened)
run-Safe_example = run-Safe 5 500 200 steps [] opened opened-Safe

-- Record 5 was in flight when the partition was taken away; another consumer handled it, and the
-- records from 101 on come back here.
abbrev reassigned : List Step
reassigned =
    assigns false
    ∷ finishes 5 0 true confirmed true
    ∷ assigns true
    ∷ begins 101
    ∷ finishes 101 2 true confirmed true
    ∷ []

reassigned_stalls : (run 500 200 reassigned opened).commits ≡ []
unfolding run begin_record
reassigned_stalls = refl

abbrev later : List Step
later = assigns true ∷ begins 101 ∷ finishes 101 2 true confirmed true ∷ []

abbrev taken_away : Partition
taken_away = run 500 200 (assigns false ∷ finishes 5 0 true confirmed true ∷ []) opened

taken_away-Waits : Waits 5 [] taken_away
unfolding run begin_record
taken_away-Waits = record { opened = refl; at_next = refl; missing = refl; held = refl }

run-Waits_example : Waits 5 [] (run 500 200 later taken_away)
run-Waits_example =
    run-Waits 5 [] 500 200 later taken_away (tt, (tt, ((λ e. absurd (omega (arith, e))), tt)))
      taken_away-Waits

abbrev two_done : Partition
two_done =
    run 500 200 (begins 6 ∷ finishes 6 0 true confirmed true ∷ finishes 5 0 true rejected true ∷ [])
      opened

two_done_connected : two_done.connected ≡ true
unfolding run begin_record
two_done_connected = refl

two_done_assigned : two_done.assigned ≡ true
unfolding run begin_record
two_done_assigned = refl

advance_commit-IsEnd_example :
    IsEnd two_done.tracker.completed two_done.tracker.next_offset
      (advance_commit confirmed two_done).tracker.next_offset
advance_commit-IsEnd_example = advance_commit-IsEnd two_done two_done_connected two_done_assigned

abbrev topics : Settings
topics = record {
  topic_retry_30s = "30s";
  topic_retry_2m = "2m";
  topic_retry_10m = "10m";
  topic_dlq = "dlq";
  max_attempts = 5;
}

abbrev failing : FailingEvent ℕ
failing = record {
  attempt = none;
  retry_after_seconds = none;
  source_topic = some "inbound";
  retry_from_topic = none;
  last_error = none;
  body = 1;
}

journey-topics :
    journey topics (λ n. retryable_type) (λ n. true) (λ n. true) "TimeoutError:" 6 0 failing
    ≡ some ("30s" ∷ "2m" ∷ "10m" ∷ "10m" ∷ "10m" ∷ "dlq" ∷ [], in_dead_letters)
unfolding journey
journey-topics = refl

-- The third sending raises.
journey-kept :
    journey topics (λ n. retryable_type) (λ n. true) (λ n. ltb n 2) "TimeoutError:" 6 0 failing
    ≡ some ("30s" ∷ "2m" ∷ [], kept)
unfolding journey
journey-kept = refl

journey-Journeyed_example :
    Returns
      (Journeyed topics (λ n. retryable_type) (λ n. true) (λ n. ltb n 2) 0 0)
      (journey topics (λ n. retryable_type) (λ n. true) (λ n. ltb n 2) "TimeoutError:" 6 0 failing)
journey-Journeyed_example =
    journey-Journeyed topics (λ n. retryable_type) (λ n. true) (λ n. ltb n 2) "TimeoutError:" 6 0
      failing (omega arith)

-- The handler of record 5 fails and its sending raises; record 6 is handled.
abbrev unsent : Delivery ℕ
unsent = record {
  offset = 5;
  handling = fails true false retryable_type "TimeoutError:" failing;
  answer = confirmed;
}

abbrev handled : Delivery ℕ
handled = record { offset = 6; handling = succeeds; answer = confirmed }

unsent_dropped : is_committed topics unsent.handling ≡ false
unfolding is_committed
unsent_dropped = refl

handle_records-commits : handle_records topics (unsent ∷ handled ∷ []) (5 ∷ []) ≡ 7 ∷ 5 ∷ []
unfolding handle_records
handle_records-commits = refl

handle_records-PassedOver_example :
    PassedOver 5 (handle_records topics (unsent ∷ handled ∷ []) (5 ∷ []))
    ↔ SomeCommitted topics (handled ∷ [])
handle_records-PassedOver_example =
    handle_records-PassedOver topics unsent (handled ∷ []) (5 ∷ []) unsent_dropped
      ((omega arith), tt) (λ h. omega (arith, h))

abbrev hello : PhotonPayload ℕ
hello = record {
  message_id = some (codes " abc");
  from_number = some (codes "+1");
  to_number = none;
  content = some (codes "hello");
  media_url = none;
  chat_guid = none;
  timestamp = none;
  is_location_share = false;
  attempt = none;
  trace_id = none;
  raw_payload = none;
}

hello_key : build_idempotency_key (λ t. t) true hello (codes " abc") ≡ codes "dev_photon_msg:abc"
unfolding build_idempotency_key is_space
hello_key = refl

abc_full : strip (codes " abc") ≢ []
unfolding strip is_space
abc_full = λ e. cc

abc_full' : strip (codes "abc") ≢ []
unfolding strip is_space
abc_full' = λ e. cc

same_key :
    build_idempotency_key (λ t. t) true hello (codes " abc")
    ≡ build_idempotency_key (λ t. t) true hello (codes "abc")
unfolding build_idempotency_key is_space
same_key = refl

build_idempotency_key-inj_example : strip (codes " abc") ≡ strip (codes "abc")
build_idempotency_key-inj_example =
    build_idempotency_key-inj (λ t. t) true hello hello (codes " abc") (codes "abc") abc_full
      abc_full' same_key
