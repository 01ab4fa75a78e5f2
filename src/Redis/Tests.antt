-- ===== src/Redis/Tests.antt =====
-- A webhook event, a steady caller and a cached chat, on the server in memory.
use franklink.Prelude.{ℕ, ◌≡◌, refl, true, false, Option, none, some, List, [], ◌∷◌, arith}
use franklink.Text.{Text, codes}
use franklink.Text.Equal.{text_eq}
use franklink.Redis.Memory.{memory, no_entries}
use franklink.Redis.Client.{
  Defaults, check_idempotency, check_rate_limit, duplicate, raised, with_idempotency,
  cache_chat_guid, get_cached_chat_guid,
}
use franklink.Redis.Run.{Call, checks, marks, limits, closes, run_calls}
use franklink.Redis.Once.{with_idempotency-once}
use franklink.Redis.Rate.{answers, counted, NeverFails, check_rate_limit-Steady}
use franklink.Redis.Cache.{get_cached_chat_guid-cache_chat_guid}

abbrev config : Defaults
config = record {
  redis_idempotency_ttl = 86400;
  redis_cache_ttl = 300;
  redis_rate_limit_window = 60;
}

-- Cached values are texts here, written between quotation marks.
abbrev quoted : Text → Option Text
quoted t = some (34 ∷ t)

abbrev calls_between : List (ℕ × Call Text)
calls_between =
    (105, checks (codes "evt") (some 5))
    ∷ (110, marks (codes "other") none)
    ∷ (120, limits (codes "api") 3 none)
    ∷ (130, closes (codes "stripe"))
    ∷ []

-- A function that raises.
abbrev failing : memory.Store → Option ℕ × memory.Store
failing st = (none, st)

abbrev succeeding : memory.Store → Option ℕ × memory.Store
succeeding st = (some 1, st)

with_idempotency-once_example :
    ((with_idempotency memory config (codes "hook") (codes "e") failing 100 no_entries).0 ≡ raised)
    × ((with_idempotency memory config (codes "hook") (codes "e") succeeding 4000 (
          run_calls memory config quoted calls_between
            (with_idempotency memory config (codes "hook") (codes "e") failing 100 no_entries).1)).0
        ≡ duplicate)
unfolding text_eq memory no_entries run_calls check_idempotency with_idempotency
with_idempotency-once_example =
    with_idempotency-once memory config quoted (codes "hook") (codes "e") failing succeeding 100
      4000 calls_between no_entries refl (λ s. refl)
      ((omega arith, tt), ((omega arith, refl), ((omega arith, refl), ((omega arith, refl), tt))))
      (omega arith) tt

-- Three requests are allowed; the fourth comes 177 seconds after the first.
check_rate_limit-Steady_example :
    answers memory config (codes "api") 3 none (0 ∷ 59 ∷ 118 ∷ 177 ∷ []) no_entries
    ≡ (true, 1) ∷ (true, 2) ∷ (true, 3) ∷ (false, 4) ∷ []
unfolding text_eq memory no_entries check_rate_limit answers counted NeverFails
check_rate_limit-Steady_example =
    check_rate_limit-Steady memory config (codes "api") 3 none 0 (59 ∷ 118 ∷ 177 ∷ []) no_entries
      refl (omega arith, (omega arith, (omega arith, tt))) (tt, (tt, (tt, (tt, tt))))

get_cached_chat_guid-cache_chat_guid_example :
    get_cached_chat_guid memory config (codes "+1555") 4000 (
      run_calls memory config quoted calls_between
        (cache_chat_guid memory config (codes "+1555") (codes "SMS;-;1") 86400 100 no_entries).1)
    ≡ some (codes "SMS;-;1")
unfolding text_eq memory no_entries run_calls cache_chat_guid get_cached_chat_guid
get_cached_chat_guid-cache_chat_guid_example =
    get_cached_chat_guid-cache_chat_guid memory config quoted (codes "+1555") (codes "SMS;-;1")
      86400 100 4000 calls_between no_entries refl (λ h. cc)
      ((omega arith, tt), ((omega arith, refl), ((omega arith, refl), ((omega arith, refl), tt))))
      (omega arith) tt
