-- ===== src/Retry/Tests.antt =====
-- A call that fails twice and then returns, and one that is not found.
use franklink.Prelude.{ℕ, zero, suc, ◌≡◌, refl, [], ◌∷◌}
use franklink.Text.{codes}
use franklink.Text.Find.{starts_with}
use franklink.Retry.{CallResult, returned, retryable, sync_indicators, async_indicators, with_retry}
use franklink.Retry.Tried.{TriedFrom, with_retry-TriedFrom}

abbrev flaky : ℕ → CallResult ℕ
flaky zero = retryable (codes "502 Bad Gateway")
flaky (suc zero) = retryable (codes "Connection reset")
flaky (suc (suc n)) = returned 7

flaky_result :
    with_retry sync_indicators 1000 1500 flaky 3
    ≡ record { answer = returned 7; delays = 1000 ∷ 1500 ∷ [] }
unfolding with_retry starts_with
flaky_result = refl

flaky_exhausted :
    (with_retry sync_indicators 1000 1500 flaky 1).answer ≡ retryable (codes "Connection reset")
unfolding with_retry starts_with
flaky_exhausted = refl

-- Only the asynchronous wrapper tries again after this error.
abbrev timed_out : ℕ → CallResult ℕ
timed_out n = retryable (codes "ETIMEDOUT")

sync_timed_out : (with_retry sync_indicators 1000 10000 timed_out 2).delays ≡ []
unfolding with_retry starts_with
sync_timed_out = refl

async_timed_out : (with_retry async_indicators 1000 10000 timed_out 2).delays ≡ 1000 ∷ 2000 ∷ []
unfolding with_retry starts_with
async_timed_out = refl

with_retry-TriedFrom_example :
    TriedFrom sync_indicators 1000 10000 flaky 0 3 (with_retry sync_indicators 1000 10000 flaky 3)
with_retry-TriedFrom_example = with_retry-TriedFrom sync_indicators 1000 10000 flaky 3
