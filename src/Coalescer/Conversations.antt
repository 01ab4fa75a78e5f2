-- ===== src/Coalescer/Conversations.antt =====
-- All conversations of the coalescer, in the dict `_conversations` under their keys. Each has its
-- own lock, so that the steps of different conversations come in any order.
use franklink.Prelude.{
  ℕ, ◌≡◌, refl, sym, ap, ◌∙◌, Bool, false, Option, none, some, List, [], ◌∷◌, arith, if◌then◌else◌,
  Bool-cases, inl, inr,
}
use franklink.Text.{Text}
use franklink.Text.Equal.{text_eq, text_eq_refl, text_eq→≡, text_eq_iff}
use franklink.Coalescer.{
  Payload, ConversationState, Outcome, new_conversation, build_conversation_key, enqueue_message,
  debounce_wait,
}
use franklink.Coalescer.Conversation.{
  Event, arrives, wakes, returns, raises, step, run, running_ends,
}

abbrev pub Conversations : Type 0
Conversations = List (Text × ConversationState)

-- `_conversations.get(key)`
unfoldable pub find : Text → Conversations → Option ConversationState
find key [] = none
find key ((k, s) ∷ c) = if text_eq k key then some s else find key c

-- `_conversations[key] = state`
unfoldable pub put : Text → ConversationState → Conversations → Conversations
put key state [] = (key, state) ∷ []
put key state ((k, s) ∷ c) = if text_eq k key then (key, state) ∷ c else (k, s) ∷ put key state c

find-put :
    (k j : Text) (s : ConversationState) (c : Conversations)
    → find j (put k s c) ≡ (if text_eq k j then some s else find j c)
unfolding find put
find-put k j s [] = refl
find-put k j s ((i, t) ∷ c) =
    ground (arith, text_eq_iff k j, text_eq_iff i k, text_eq_iff i j, find-put k j s c)

-- The conversation, or the one that the first message of the key starts.
abbrev pub or_new : ℕ → Option ConversationState → ConversationState
or_new start none = new_conversation start
or_new start (some s) = s

-- An event of any conversation: a message, whose payload gives the key, or an event of a key.
pub data AnyEvent : Type 0 where
  message : ℕ → ℕ → Outcome → Payload → AnyEvent
  timer : ℕ → Text → AnyEvent
  success failure : Text → AnyEvent

abbrev pub key_of : AnyEvent → Text
key_of (message now later outcome payload) = build_conversation_key payload
key_of (timer now key) = key
key_of (success key) = key
key_of (failure key) = key

abbrev pub event_of : AnyEvent → Event
event_of (message now later outcome payload) = arrives now later outcome payload
event_of (timer now key) = wakes now
event_of (success key) = returns
event_of (failure key) = raises

-- The events of one key.
unfoldable pub own : Text → List AnyEvent → List Event
own key [] = []
own key (event ∷ history) =
    let rest = own key history in if text_eq (key_of event) key then event_of event ∷ rest else rest

module _ (debounce_ms max_window_ms : ℕ) where
  -- An event of a conversation that there is.
  abbrev change : Event → Text → Option ConversationState → Conversations → Conversations
  change event key none c = c
  change event key (some s) c = put key (step debounce_ms max_window_ms event s) c

  unfoldable pub dispatch : AnyEvent → Conversations → Conversations
  unfolding put
  dispatch (message now later outcome payload) c =
      let key = build_conversation_key payload in
      put key
        (enqueue_message debounce_ms max_window_ms now later outcome payload
          (or_new now (find key c)))
        c
  dispatch (timer now key) c = change (wakes now) key (find key c) c
  dispatch (success key) c = change returns key (find key c) c
  dispatch (failure key) c = change raises key (find key c) c

  -- The newest event first.
  unfoldable pub run_all : List AnyEvent → Conversations
  unfolding dispatch
  run_all [] = []
  run_all (event ∷ history) = dispatch event (run_all history)

  find-change :
      (start : ℕ) (event : Event) (key : Text) (o : Option ConversationState) (c : Conversations)
      → find key c ≡ o
      → step debounce_ms max_window_ms event (new_conversation start) ≡ new_conversation start
      → or_new start (find key (change event key o c))
        ≡ step debounce_ms max_window_ms event (or_new start o)
  find-change start event key none c e idle = rw e (sym idle)
  find-change start event key (some s) c e idle = ap (or_new start) (
      find-put key key (step debounce_ms max_window_ms event s) c
      ∙ ap (λ b. if b then some (step debounce_ms max_window_ms event s) else find key c)
          (text_eq_refl key))

  -- The first message of a conversation does not depend on the time at which it was created.
  enqueue-or_new :
      (start now later : ℕ) (outcome : Outcome) (payload : Payload) (o : Option ConversationState)
      → enqueue_message debounce_ms max_window_ms now later outcome payload (or_new now o)
        ≡ enqueue_message debounce_ms max_window_ms now later outcome payload (or_new start o)
  unfolding enqueue_message
  enqueue-or_new start now later outcome payload none = refl
  enqueue-or_new start now later outcome payload (some s) = refl

  find-dispatch :
      (start : ℕ) (event : AnyEvent) (c : Conversations)
      → or_new start (find (key_of event) (dispatch event c))
        ≡ step debounce_ms max_window_ms (event_of event) (or_new start (find (key_of event) c))
  unfolding dispatch step debounce_wait running_ends
  find-dispatch start (message now later outcome payload) c =
      let key = build_conversation_key payload in
      let s =
        enqueue_message debounce_ms max_window_ms now later outcome payload
          (or_new now (find key c)) in
      ap (or_new start)
        (find-put key key s c ∙ ap (λ b. if b then some s else find key c) (text_eq_refl key))
      ∙ enqueue-or_new start now later outcome payload (find key c)
  find-dispatch start (timer now key) c = find-change start (wakes now) key (find key c) c refl refl
  find-dispatch start (success key) c = find-change start returns key (find key c) c refl refl
  find-dispatch start (failure key) c = find-change start raises key (find key c) c refl refl

  change_other :
      (event : Event) (key j : Text) (o : Option ConversationState) (c : Conversations)
      → text_eq key j ≡ false
      → find j (change event key o c) ≡ find j c
  change_other event key j none c e = refl
  change_other event key j (some s) c e =
      find-put key j (step debounce_ms max_window_ms event s) c
      ∙ ap (λ b. if b then some (step debounce_ms max_window_ms event s) else find j c) e

  find-dispatch_other :
      (j : Text) (event : AnyEvent) (c : Conversations)
      → text_eq (key_of event) j ≡ false
      → find j (dispatch event c) ≡ find j c
  unfolding dispatch
  find-dispatch_other j (message now later outcome payload) c e =
      let key = build_conversation_key payload in
      let s =
        enqueue_message debounce_ms max_window_ms now later outcome payload
          (or_new now (find key c)) in
      find-put key j s c ∙ ap (λ b. if b then some s else find j c) e
  find-dispatch_other j (timer now key) c e = change_other (wakes now) key j (find key c) c e
  find-dispatch_other j (success key) c e = change_other returns key j (find key c) c e
  find-dispatch_other j (failure key) c e = change_other raises key j (find key c) c e

  -- The conversations do not mix: after any events of all of them, each is what its own events
  -- alone make of it, and a key without a conversation is as one that has had no message.
  pub find-run_all :
      (start : ℕ) (key : Text) (history : List AnyEvent)
      → or_new start (find key (run_all history))
        ≡ run debounce_ms max_window_ms start (own key history)
  unfolding run_all own run find
  find-run_all start key [] = refl
  find-run_all start key (event ∷ history) =
      let c = run_all history in
      let before = find-run_all start key history in
      let chosen : Bool → ConversationState = λ b.
        run debounce_ms max_window_ms start
          (if b then event_of event ∷ own key history else own key history) in
      elim (Bool-cases (text_eq (key_of event) key)) [
        | inr e ↦ ap (or_new start) (find-dispatch_other key event c e) ∙ before ∙ sym (ap chosen e)
        | inl e ↦
            let same : key_of event ≡ key = text_eq→≡ (key_of event) key e in
            ap (λ k. or_new start (find k (dispatch event c))) (sym same)
            ∙ find-dispatch start event c
            ∙ ap (λ k. step debounce_ms max_window_ms (event_of event) (or_new start (find k c)))
                same
            ∙ ap (step debounce_ms max_window_ms (event_of event)) before
            ∙ sym (ap chosen e)
      ]
