-- ===== src/OperationQueue.antt =====
-- app/agents/queue/async_processor.py: the operations that run in the background. `P` is the type of
-- a payload and `R` of a result. An operation is one object, which the dict `_operations` and the
-- queue share: here it is held where it stands, in the queue, under its handler or among the
-- finished, and `operations` has the keys of the dict. What a handler answers is an argument of the
-- step in which it ends. A time is in seconds.
pub mod Lifecycle
pub mod History
pub mod Select
pub mod Pending
mod Tests
use Prim.Native.String.{String}
use text.Mathlib.Text.{◌==◌ as str_eq}
use Prim.Native.String.{◌++◌ as append_text}
use franklink.Prelude.{
  ℕ, ◌+◌, Bool, true, false, not, ◌&&◌, ◌||◌, Option, none, some, List, [], ◌∷◌, ◌++◌,
  if◌then◌else◌, ltb,
}

pub data OperationStatus : Type 0 where
  pending processing completed failed : OperationStatus

pub record QueuedOperation (P R : Type 0) : Type 0 where
  pub operation_id : String
  pub operation_type : String
  pub user_id : String
  pub payload : P
  pub status : OperationStatus
  pub result : Option R
  pub error : Option String
  pub created_at : ℕ
  pub completed_at : Option ℕ
  pub expires_at : ℕ
  pub on_complete : Bool

-- What a callback is called with.
pub record Completion (P R : Type 0) : Type 0 where
  pub operation : QueuedOperation P R
  pub result : Option R
  pub error : Option String

-- `finished` and `completions` record the ends of operations and the calls of callbacks.
pub record Processor (P R : Type 0) : Type 0 where
  pub handlers : List String
  pub operations : List String
  pub queue : List (QueuedOperation P R)
  pub current : Option (QueuedOperation P R)
  pub finished : List (QueuedOperation P R)
  pub completions : List (Completion P R)

-- `key in dict`
unfoldable pub has_key : String → List String → Bool
has_key key [] = false
has_key key (k ∷ ks) = str_eq k key || has_key key ks

-- A handler returns a result, or raises an exception with a text.
pub data Answer (R : Type 0) : Type 0 where
  returns : R → Answer R
  raises : String → Answer R

-- `queue_operation` returns the identifier, or raises ValueError.
pub data QueueResult : Type 0 where
  queued : String → QueueResult
  value_error : QueueResult

abbrev pub one_hour : ℕ
one_hour = 3600

abbrev pub is_open : OperationStatus → Bool
is_open pending = true
is_open processing = true
is_open _ = false

module _ {P R : Type 0} where
  abbrev pub new_operation : ℕ → String → String → String → P → Bool → QueuedOperation P R
  new_operation now id type user payload callback = record {
    operation_id = id;
    operation_type = type;
    user_id = user;
    payload = payload;
    status = pending;
    result = none;
    error = none;
    created_at = now;
    completed_at = none;
    expires_at = now + one_hour;
    on_complete = callback;
  }

  unfoldable pub register_handler : String → Processor P R → Processor P R
  unfolding has_key
  register_handler type p =
      if has_key type p.handlers then p else record p { handlers = p.handlers ++ type ∷ [] }

  -- `id` is the new `uuid4`.
  unfoldable pub queue_operation :
      ℕ → String → String → String → P → Bool → Processor P R → QueueResult × Processor P R
  unfolding has_key
  queue_operation now id type user payload callback p =
      if not (has_key type p.handlers) then (value_error, p) else (
        queued id,
        record p {
          operations = p.operations ++ id ∷ [];
          queue = p.queue ++ new_operation now id type user payload callback ∷ [];
        },
      )

  -- `_invoke_callback`, after which the operation is finished. An exception of the callback is
  -- only logged.
  unfoldable pub invoke_callback : QueuedOperation P R → Processor P R → Processor P R
  invoke_callback op p =
      let call : Completion P R = record { operation = op; result = op.result; error = op.error } in
      record p {
        current = none;
        finished = p.finished ++ op ∷ [];
        completions = if op.on_complete then p.completions ++ call ∷ [] else p.completions;
      }

  abbrev pub failed_with : ℕ → String → QueuedOperation P R → QueuedOperation P R
  failed_with now error op = record op {
    status = failed;
    error = some error;
    completed_at = some now;
  }

  -- `_process_operation` up to the call of the handler.
  unfoldable pub start_operation : ℕ → QueuedOperation P R → Processor P R → Processor P R
  unfolding has_key invoke_callback
  start_operation now op p =
      if has_key op.operation_type p.handlers
      then record p { current = some (record op { status = processing }) }
      else invoke_callback
          (failed_with now (append_text "Unknown operation type: " op.operation_type) op) p

  -- One turn of the loop: the operation that has waited longest, if no other is being processed.
  unfoldable pub take_next :
      ℕ → Option (QueuedOperation P R) → List (QueuedOperation P R) → Processor P R → Processor P R
  unfolding start_operation
  take_next now none (op ∷ queue) p = start_operation now op (record p { queue = queue })
  take_next now _ _ p = p

  -- `_process_operation` from the end of the handler on.
  unfoldable pub finish_operation :
      ℕ → Answer R → Option (QueuedOperation P R) → Processor P R → Processor P R
  unfolding invoke_callback
  finish_operation now answer none p = p
  finish_operation now (returns result) (some op) p =
      invoke_callback
        (record op { status = completed; result = some result; completed_at = some now }) p
  finish_operation now (raises error) (some op) p = invoke_callback (failed_with now error op) p

  abbrev pub as_list : Option (QueuedOperation P R) → List (QueuedOperation P R)
  as_list none = []
  as_list (some op) = op ∷ []

  -- The operations that the dict can give, by their identifiers.
  abbrev pub all_operations : Processor P R → List (QueuedOperation P R)
  all_operations p = p.finished ++ (as_list p.current ++ p.queue)

  -- Is there an operation of this key whose time is over?
  unfoldable pub is_expired : ℕ → String → List (QueuedOperation P R) → Bool
  is_expired now id [] = false
  is_expired now id (op ∷ ops) =
      (str_eq op.operation_id id && ltb op.expires_at now) || is_expired now id ops

  unfoldable pub kept_ids : ℕ → List (QueuedOperation P R) → List String → List String
  unfolding is_expired
  kept_ids now ops [] = []
  kept_ids now ops (id ∷ ids) =
      let rest = kept_ids now ops ids in if is_expired now id ops then rest else id ∷ rest

  -- One turn of `_cleanup_expired`.
  unfoldable pub cleanup_expired : ℕ → Processor P R → Processor P R
  unfolding kept_ids
  cleanup_expired now p = record p { operations = kept_ids now (all_operations p) p.operations }

  -- `get_operation_status`: none is the answer `not_found`.
  unfoldable pub find_operation : String → List (QueuedOperation P R) → Option (QueuedOperation P R)
  find_operation id [] = none
  find_operation id (op ∷ ops) =
      if str_eq op.operation_id id then some op else find_operation id ops

  unfoldable pub get_operation_status : String → Processor P R → Option (QueuedOperation P R)
  unfolding has_key find_operation
  get_operation_status id p =
      if has_key id p.operations then find_operation id (all_operations p) else none

  -- `operation_type and op.operation_type != operation_type`
  abbrev pub of_type : Option String → QueuedOperation P R → Bool
  of_type none op = true
  of_type (some type) op = str_eq type "" || str_eq op.operation_type type

  abbrev pub matches : String → Option String → QueuedOperation P R → Bool
  matches user type op = str_eq op.user_id user && (is_open op.status && of_type type op)

  -- An operation of the dict goes before those listed after it if it matches.
  abbrev pub list_open :
      String
      → Option String
      → Option (QueuedOperation P R)
      → List (QueuedOperation P R)
      → List (QueuedOperation P R)
  list_open user type none rest = rest
  list_open user type (some op) rest = if matches user type op then op ∷ rest else rest

  -- `for op in self._operations.values()`: the operations of the keys, in the order of the dict.
  unfoldable pub select_open :
      String → Option String → List (QueuedOperation P R) → List String → List (QueuedOperation P R)
  unfolding find_operation
  select_open user type ops [] = []
  select_open user type ops (id ∷ ids) =
      list_open user type (find_operation id ops) (select_open user type ops ids)

  unfoldable pub get_pending_operations_for_user :
      String → Option String → Processor P R → List (QueuedOperation P R)
  unfolding select_open
  get_pending_operations_for_user user type p =
      select_open user type (all_operations p) p.operations
