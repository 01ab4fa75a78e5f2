-- ===== src/Coalescer/Carried.antt =====
-- What a step of a conversation does with the messages that the conversation carries.
use mathlib.Core.List.{append-nil, append_assoc}
use franklink.Prelude.{
  ℕ, ◌+◌, ◌-◌, ◌≤◌, min, ◌≡◌, ◌⊎◌, inl, inr, refl, sym, ap, ◌∙◌, Option, none, some, List, [], ◌∷◌,
  ◌++◌, if◌then◌else◌, leb, ◌==◌, Bool-cases, if_both, ◌≢◌, arith,
}
use franklink.Coalescer.{
  Payload, PendingMessage, ConversationState, Outcome, completed, failed, cancelled,
  pending_message, process_now, start_processing, end_processing, cancel_active, is_idle,
  start_debounce_timer, enqueue_message, timer_fires, debounce_wait,
}
use franklink.Coalescer.Conversation.{
  Event, arrives, wakes, returns, raises, step, run, running_ends, batch, handled, new_messages,
}

abbrev pub Shape : Option Payload → List PendingMessage → List PendingMessage → Type 0
Shape none in_flight pending = in_flight ≡ []
Shape (some running) in_flight pending = pending ≡ []

-- Nothing is in flight without a task, nothing waits while a task runs, and a message that waits
-- has a timer that wakes before the window of its batch is over.
pub record Valid (max_window_ms : ℕ) (s : ConversationState) : Type 0 where
  pub shape : Shape s.active_task s.in_flight_messages s.pending_messages
  pub timed :
      (s.pending_messages ≡ [])
      ⊎ ((wake : ℕ) × (s.debounce_task ≡ some wake) × (wake ≤ s.first_message_at + max_window_ms))

abbrev pub carried : ConversationState → List PendingMessage
carried s = s.in_flight_messages ++ s.pending_messages

-- What is known of a state once no task runs.
record Idle (s : ConversationState) : Type 0 where
  no_task : s.active_task ≡ none
  no_flight : s.in_flight_messages ≡ []

-- The state after processing was started, or after the timer was.
pub record Started (max_window_ms : ℕ) (messages : List PendingMessage) (s : ConversationState)
    : Type 0 where
  pub valid : Valid max_window_ms s
  pub all_carried : carried s ≡ messages

start_processing-Started :
    (w now : ℕ) (pending : List PendingMessage) (s : ConversationState)
    → s.pending_messages ≡ pending
    → Idle s
    → Started w pending (start_processing now pending s)
unfolding start_processing
start_processing-Started w now [] s e idle = record {
  valid = record { shape = rw (idle.no_task, idle.no_flight) refl; timed = inl e };
  all_carried = rw (idle.no_flight, e) refl;
}
start_processing-Started w now (m ∷ ms) s e idle = record {
  valid = record { shape = refl; timed = inl refl };
  all_carried = append-nil (m ∷ ms);
}

process_now-Started :
    (w now : ℕ) (s : ConversationState) → Idle s → Started w s.pending_messages (process_now now s)
unfolding process_now
process_now-Started w now s idle = start_processing-Started w now s.pending_messages s refl idle

start_debounce_timer-Started :
    (d w now : ℕ) (s : ConversationState)
    → Idle s
    → Started w s.pending_messages (start_debounce_timer d w now s)
unfolding start_debounce_timer
start_debounce_timer-Started d w now s idle =
    let wait : ℕ = min d ((s.first_message_at + w) - now) in
    elim (Bool-cases (wait == 0)) [
      | inl e ↦ rw e (
          process_now-Started w now (record s { debounce_task = none })
            (record { no_task = idle.no_task; no_flight = idle.no_flight }))
      | inr e ↦ rw e (record {
        valid = record {
          shape = rw (idle.no_task) (idle.no_flight);
          timed = inr (now + wait, refl, ground arith);
        };
        all_carried = rw (idle.no_flight) refl;
      })
    ]

-- The cancellation of the task that runs, if there is one.
cancel_active-Idle :
    (outcome : Outcome) (task : Option Payload) (s : ConversationState)
    → s.active_task ≡ task
    → Shape task s.in_flight_messages s.pending_messages
    → Idle (cancel_active outcome task s)
unfolding cancel_active end_processing
cancel_active-Idle outcome none s e shape = record { no_task = e; no_flight = shape }
cancel_active-Idle completed (some running) s e shape = record { no_task = refl; no_flight = refl }
cancel_active-Idle failed (some running) s e shape = record { no_task = refl; no_flight = refl }
cancel_active-Idle cancelled (some running) s e shape = record { no_task = refl; no_flight = refl }

cancel_active-carried :
    (outcome : Outcome) (task : Option Payload) (s : ConversationState)
    → Shape task s.in_flight_messages s.pending_messages
    → batch outcome task s.in_flight_messages ++ (cancel_active outcome task s).pending_messages
      ≡ carried s
unfolding cancel_active end_processing
cancel_active-carried outcome none s shape = rw shape refl
cancel_active-carried completed (some running) s shape = refl
cancel_active-carried failed (some running) s shape = refl
cancel_active-carried cancelled (some running) s shape = refl

-- One step: what it handles and what it carries on is what was carried and what is new.
pub record Stepped (w : ℕ) (handled carried_on messages : List PendingMessage)
    (s : ConversationState) : Type 0 where
  pub valid : Valid w s
  pub accounted : handled ++ carried s ≡ carried_on ++ messages

enqueue_message-Stepped :
    (d w now later : ℕ) (outcome : Outcome) (payload : Payload) (s : ConversationState)
    → Valid w s
    → Stepped w
        (batch outcome s.active_task s.in_flight_messages)
        (carried s)
        (pending_message now payload ∷ [])
        (enqueue_message d w now later outcome payload s)
unfolding enqueue_message
enqueue_message-Stepped d w now later outcome payload s v =
    let idle = cancel_active outcome s.active_task s in
    let queued : ConversationState = record idle {
      first_message_at =
          if is_idle idle.pending_messages idle.active_task then now else idle.first_message_at;
      pending_messages = idle.pending_messages ++ (pending_message now payload ∷ []);
    } in
    let is : Idle idle = cancel_active-Idle outcome s.active_task s refl v.shape in
    let stays : Idle queued = record { no_task = is.no_task; no_flight = is.no_flight } in
    let total : (t : ConversationState)
        → Started w queued.pending_messages t
        → Stepped w (batch outcome s.active_task s.in_flight_messages) (carried s)
            (pending_message now payload ∷ []) t =
      λ t started. record {
        valid = started.valid;
        accounted =
            ap (λ x. batch outcome s.active_task s.in_flight_messages ++ x) started.all_carried
            ∙ sym (
                append_assoc (batch outcome s.active_task s.in_flight_messages)
                  idle.pending_messages (pending_message now payload ∷ []))
            ∙ ap (λ x. x ++ (pending_message now payload ∷ []))
                (cancel_active-carried outcome s.active_task s v.shape);
      } in
    if_both
      (Stepped w (batch outcome s.active_task s.in_flight_messages) (carried s)
        (pending_message now payload ∷ []))
      payload.is_location_share _ _ (total _ (process_now-Started w later queued stays))
      (total _ (start_debounce_timer-Started d w later queued stays))

-- A wake-up of the timer starts the processing of what waits.
woken-Started :
    (w now : ℕ) (task : Option Payload) (pending : List PendingMessage) (s : ConversationState)
    → s.active_task ≡ task
    → s.pending_messages ≡ pending
    → Shape task s.in_flight_messages s.pending_messages
    → Started w (carried s) (start_processing now pending s)
unfolding start_processing
woken-Started w now task [] s t e shape = record {
  valid = record { shape = rw t shape; timed = inl e };
  all_carried = refl;
}
woken-Started w now none (m ∷ ms) s t e shape =
    rw (shape, e)
      (start_processing-Started w now (m ∷ ms) s e (record { no_task = t; no_flight = shape }))
woken-Started w now (some running) (m ∷ ms) s t e shape = cc

pub timer_fires-Started :
    (w now : ℕ) (timer : Option ℕ) (s : ConversationState)
    → Valid w s
    → Started w (carried s) (timer_fires now timer s)
unfolding timer_fires process_now
timer_fires-Started w now none s v = record { valid = v; all_carried = refl }
timer_fires-Started w now (some wake) s v =
    if_both (Started w (carried s)) (leb wake now) _ _
      (woken-Started w now s.active_task s.pending_messages (record s { debounce_task = none }) refl
        refl v.shape)
      (record { valid = v; all_carried = refl })

running_ends-Stepped :
    (w : ℕ) (outcome : Outcome) (task : Option Payload) (s : ConversationState)
    → outcome ≢ cancelled
    → Valid w s
    → Stepped w
        (batch outcome task s.in_flight_messages)
        (carried s)
        []
        (running_ends outcome task s)
unfolding running_ends end_processing
running_ends-Stepped w outcome none s ended v = record {
  valid = v;
  accounted = sym (append-nil (carried s));
}
running_ends-Stepped w completed (some running) s ended v = record {
  valid = record { shape = refl; timed = v.timed };
  accounted = sym (append-nil (carried s));
}
running_ends-Stepped w failed (some running) s ended v = record {
  valid = record { shape = refl; timed = v.timed };
  accounted = sym (append-nil (carried s));
}
running_ends-Stepped w cancelled (some running) s ended v = elim (ended refl) [ ]

pub step-Stepped :
    (d w : ℕ) (event : Event) (s : ConversationState)
    → Valid w s
    → Stepped w (handled event s) (carried s) (new_messages event) (step d w event s)
unfolding step debounce_wait
step-Stepped d w (arrives now later outcome payload) s v =
    enqueue_message-Stepped d w now later outcome payload s v
step-Stepped d w (wakes now) s v =
    let started = timer_fires-Started w now s.debounce_task s v in
    record { valid = started.valid; accounted = started.all_carried ∙ sym (append-nil (carried s)) }
step-Stepped d w returns s v = running_ends-Stepped w completed s.active_task s (λ e. cc) v
step-Stepped d w raises s v = running_ends-Stepped w failed s.active_task s (λ e. cc) v

pub run-Valid : (d w start : ℕ) (history : List Event) → Valid w (run d w start history)
unfolding run
run-Valid d w start [] = record { shape = refl; timed = inl refl }
run-Valid d w start (event ∷ history) =
    (step-Stepped d w event (run d w start history) (run-Valid d w start history)).valid
