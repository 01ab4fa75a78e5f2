-- ===== src/Retry.antt =====
-- `with_retry` of app/database/client/retry.py. The n-th call of the function answers `call n`. A
-- delay is in milliseconds; of the asynchronous wrapper it is the delay before its jitter, which
-- multiplies it by a factor from 0.5 to 1.
pub mod Tried
mod Tests
use franklink.Prelude.{
  ℕ, zero, suc, ◌+◌, ◌*◌, ◌^◌, min, Bool, true, false, ◌||◌, List, [], ◌∷◌, if◌then◌else◌,
}
use franklink.Text.{Text, codes}
use franklink.Text.Equal.{contains}

-- The function returns, or raises one of the retryable errors with its text, or another exception.
pub data CallResult {ℓ} (A : Type ℓ) : Type ℓ where
  returned : A → CallResult A
  retryable : Text → CallResult A
  other_error : Text → CallResult A

abbrev pub sync_indicators : List Text
sync_indicators =
    codes "Worker threw exception"
    ∷ codes "502"
    ∷ codes "503"
    ∷ codes "504"
    ∷ codes "timeout"
    ∷ codes "Timeout"
    ∷ codes "connection"
    ∷ codes "Connection"
    ∷ codes "JSON could not be generated"
    ∷ []

abbrev pub async_indicators : List Text
async_indicators =
    codes "Worker threw exception"
    ∷ codes "502"
    ∷ codes "503"
    ∷ codes "504"
    ∷ codes "timeout"
    ∷ codes "Timeout"
    ∷ codes "connection"
    ∷ codes "Connection"
    ∷ codes "ECONNRESET"
    ∷ codes "ETIMEDOUT"
    ∷ codes "JSON could not be generated"
    ∷ []

unfoldable pub is_transient : List Text → Text → Bool
unfolding contains
is_transient [] error = false
is_transient (indicator ∷ indicators) error =
    contains indicator error || is_transient indicators error

unfoldable pub delay_of : ℕ → ℕ → ℕ → ℕ
delay_of base_delay max_delay attempt = min (base_delay * 2 ^ attempt) max_delay

-- What is raised or returned, and the delays that were waited.
pub record Attempts {ℓ} (A : Type ℓ) : Type ℓ where
  pub answer : CallResult A
  pub delays : List ℕ

module _ {ℓ} {A : Type ℓ} (indicators : List Text) (base_delay max_delay : ℕ) where
  -- One turn of the loop, of which `later` are the turns after it.
  unfoldable pub next_attempt : ℕ → CallResult A → Attempts A → Attempts A
  unfolding is_transient delay_of
  next_attempt attempt (returned a) later = record { answer = returned a; delays = [] }
  next_attempt attempt (other_error e) later = record { answer = other_error e; delays = [] }
  next_attempt attempt (retryable e) later =
      if is_transient indicators e
      then record {
        answer = later.answer;
        delays = delay_of base_delay max_delay attempt ∷ later.delays;
      }
      else record { answer = retryable e; delays = [] }

module _ {ℓ} {A : Type ℓ} (indicators : List Text) (base_delay max_delay : ℕ)
    (call : ℕ → CallResult A) where
  -- The loop from `attempt` on, with `left` attempts after it.
  unfoldable pub attempt_from : ℕ → ℕ → Attempts A
  unfolding next_attempt
  attempt_from zero attempt = record { answer = call attempt; delays = [] }
  attempt_from (suc left) attempt =
      next_attempt indicators base_delay max_delay attempt (call attempt)
        (attempt_from left (suc attempt))

  unfoldable pub with_retry : ℕ → Attempts A
  unfolding attempt_from
  with_retry max_retries = attempt_from max_retries 0
