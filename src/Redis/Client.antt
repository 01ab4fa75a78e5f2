-- ===== src/Redis/Client.antt =====
-- The methods of `RedisClient` and the two decorators. `now` is the time of the call; a method
-- answers beside the store that it leaves. `J` is the type of the values that the caller caches,
-- with `dumps` and `loads` of the module json, which may raise.
use franklink.Prelude.{
  ℕ, Bool, true, false, Option, none, some, [], ◌∷◌, ◌++◌, if◌then◌else◌, leb, ◌==◌,
}
use franklink.Text.{Text, codes}
use franklink.Redis.Server.{Value, text, Server}

pub record Defaults : Type 0 where
  pub redis_idempotency_ttl : ℕ
  pub redis_cache_ttl : ℕ
  pub redis_rate_limit_window : ℕ

-- `ttl or settings.…`
abbrev pub ttl_or : Option ℕ → ℕ → ℕ
ttl_or none default = default
ttl_or (some ttl) default = if ttl == 0 then default else ttl

-- A raise lets the operation go on; the answer of Redis is true where it set the key.
abbrev pub opens_if_failed : Option Bool → Bool
opens_if_failed none = true
opens_if_failed (some is_new) = is_new

abbrev pub processed : Value
processed = text (codes "processed")

-- `bool(deleted)`, and false where the call raised.
abbrev pub deleted_or : Option Bool → Bool
deleted_or none = false
deleted_or (some deleted) = deleted

-- A text that is not empty: `if value`, after a call that may have raised.
abbrev pub hit : Option (Option Text) → Option Text
hit none = none
hit (some none) = none
hit (some (some [])) = none
hit (some (some (c ∷ t))) = some (c ∷ t)

-- `current_count <= max_requests` and the count, or what a failure lets through.
abbrev pub allowance : ℕ → Option ℕ → Bool × ℕ
allowance max_requests none = (true, 0)
allowance max_requests (some current_count) = (leb current_count max_requests, current_count)

abbrev pub subscription_key : Text → Text
subscription_key user_id = codes "subscription:" ++ user_id

abbrev pub chat_guid_key : Text → Text
chat_guid_key phone_number = codes "chat_guid:" ++ phone_number

abbrev pub breaker_key : Text → Text
breaker_key service = codes "circuit_breaker:" ++ service

-- The key of a decorator: `f"{key_prefix}:{event_id}"`.
abbrev pub event_key : Text → Text → Text
event_key key_prefix event_id = key_prefix ++ codes ":" ++ event_id

-- What a decorated call gives: the answer for a duplicate, the result of the function, what the
-- function raised, or the exception of the rate limit.
pub data Response (R : Type 0) : Type 0 where
  duplicate : Response R
  returned : R → Response R
  raised : Response R
  limited : ℕ → Response R

module _ (S : Server) (defaults : Defaults) where
  open S use {Store, set_nx, setex, get, delete, incr_expire}

  unfoldable pub check_idempotency : Text → Option ℕ → ℕ → Store → Bool × Store
  check_idempotency key ttl now st =
      let answer = set_nx key processed (ttl_or ttl (defaults.redis_idempotency_ttl)) now st in
      (opens_if_failed answer.0, answer.1)

  unfoldable pub mark_processed : Text → Option ℕ → ℕ → Store → Bool × Store
  mark_processed key ttl now st =
      setex key (ttl_or ttl (defaults.redis_idempotency_ttl)) processed now st

  unfoldable pub invalidate_cache : Text → ℕ → Store → Bool × Store
  invalidate_cache key now st = let answer = delete key now st in (deleted_or answer.0, answer.1)

  unfoldable pub check_rate_limit : Text → ℕ → Option ℕ → ℕ → Store → (Bool × ℕ) × Store
  check_rate_limit key max_requests window_seconds now st =
      let answer =
        incr_expire key (ttl_or window_seconds (defaults.redis_rate_limit_window)) now st in
      (allowance max_requests answer.0, answer.1)

  unfoldable pub invalidate_subscription_cache : Text → ℕ → Store → Bool × Store
  unfolding invalidate_cache
  invalidate_subscription_cache user_id = invalidate_cache (subscription_key user_id)

  unfoldable pub cache_chat_guid : Text → Text → ℕ → ℕ → Store → Bool × Store
  cache_chat_guid phone_number chat_guid ttl now st =
      setex (chat_guid_key phone_number) ttl (text chat_guid) now st

  unfoldable pub get_cached_chat_guid : Text → ℕ → Store → Option Text
  get_cached_chat_guid phone_number now st = hit (get (chat_guid_key phone_number) now st)

  -- Here a raise is not caught: `none`.
  unfoldable pub get_circuit_breaker_status : Text → ℕ → Store → Option (Option Text)
  get_circuit_breaker_status service now st = get (breaker_key service) now st

  unfoldable pub open_circuit_breaker : Text → ℕ → ℕ → Store → Bool × Store
  open_circuit_breaker service ttl now st =
      setex (breaker_key service) ttl (text (codes "open")) now st

  unfoldable pub close_circuit_breaker : Text → ℕ → Store → Bool × Store
  close_circuit_breaker service now st =
      let answer = delete (breaker_key service) now st in (deleted_or answer.0, answer.1)

  module _ {R : Type 0} where
    -- The function answers `none` where it raises.
    abbrev pub response : Option R × Store → Response R × Store
    response (none, st) = (raised, st)
    response (some r, st) = (returned r, st)

    -- The wrapper of `with_idempotency`.
    unfoldable pub with_idempotency :
        Text → Text → (Store → Option R × Store) → ℕ → Store → Response R × Store
    unfolding check_idempotency
    with_idempotency key_prefix event_id func now st =
        let check = check_idempotency (event_key key_prefix event_id) none now st in
        if check.0 then response (func check.1) else (duplicate, check.1)

    -- The wrapper of `with_rate_limit`.
    unfoldable pub with_rate_limit :
        Text → Text → ℕ → ℕ → (Store → Option R × Store) → ℕ → Store → Response R × Store
    unfolding check_rate_limit
    with_rate_limit key_prefix name max_requests window_seconds func now st =
        let check =
          check_rate_limit (event_key key_prefix name) max_requests (some window_seconds) now st in
        if check.0.0 then response (func check.1) else (limited check.0.1, check.1)

  module _ {J : Type 0} (dumps : J → Option Text) where
    abbrev pub set_serialized : Text → Option Text → ℕ → ℕ → Store → Bool × Store
    set_serialized key none ttl now st = (false, st)
    set_serialized key (some serialized) ttl now st = setex key ttl (text serialized) now st

    unfoldable pub set_cached : Text → J → Option ℕ → ℕ → Store → Bool × Store
    set_cached key value ttl =
        set_serialized key (dumps value) (ttl_or ttl (defaults.redis_cache_ttl))

    unfoldable pub cache_subscription_status : Text → J → Option ℕ → ℕ → Store → Bool × Store
    unfolding set_cached
    cache_subscription_status user_id subscription_data =
        set_cached (subscription_key user_id) subscription_data

  module _ {J : Type 0} (loads : Text → Option J) where
    abbrev pub load_hit : Option Text → Option J
    load_hit none = none
    load_hit (some value) = loads value

    unfoldable pub get_cached : Text → ℕ → Store → Option J
    get_cached key now st = load_hit (hit (get key now st))

    unfoldable pub get_subscription_status : Text → ℕ → Store → Option J
    unfolding get_cached
    get_subscription_status user_id = get_cached (subscription_key user_id)
