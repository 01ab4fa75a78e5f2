-- ===== src/Redis/Rate.antt =====
-- What `check_rate_limit` answers to traffic that does not pause for a window.
use franklink.Prelude.{
  ℕ, suc, ◌+◌, ◌<◌, ◌≡◌, refl, ap, ◌∙◌, Bool, Option, none, some, List, [], ◌∷◌, leb, IsPresent,
  IsPresent-some,
}
use franklink.Text.{Text}
use franklink.Redis.Server.{number, value_at, count_of, value_before, Server}
use franklink.Redis.Client.{Defaults, ttl_or, allowance, check_rate_limit}

cons_eq {ℓ} : {A : Type ℓ} {x y : A} {xs ys : List A} → x ≡ y → xs ≡ ys → x ∷ xs ≡ y ∷ ys
cons_eq h hs = rw (h, hs)

module _ (S : Server) (defaults : Defaults) (key : Text) (max_requests : ℕ)
    (window_seconds : Option ℕ) where
  open S use {Store, entry, incr_expire, incr_count}

  abbrev window : ℕ
  window = ttl_or window_seconds (defaults.redis_rate_limit_window)

  -- The answers to requests at the given times.
  unfoldable pub answers : List ℕ → Store → List (Bool × ℕ)
  answers [] st = []
  answers (now ∷ times) st =
      let answer = check_rate_limit S defaults key max_requests window_seconds now st in
      answer.0 ∷ answers times answer.1

  -- No request makes Redis fail.
  unfoldable pub NeverFails : List ℕ → Store → Type 0
  NeverFails [] st = Unit
  NeverFails (now ∷ times) st =
      IsPresent (incr_expire key window now st).0
      × NeverFails times (check_rate_limit S defaults key max_requests window_seconds now st).1

  -- Each request comes before the window of the one before it ends, the first before `expires`.
  abbrev pub Steady : ℕ → List ℕ → Type 0
  Steady expires [] = Unit
  Steady expires (now ∷ times) = (now < expires) × Steady (now + window) times

  -- The answers when the requests are counted from `n` on.
  unfoldable pub counted : ℕ → List ℕ → List (Bool × ℕ)
  counted n [] = []
  counted n (now ∷ times) = (leb (suc n) max_requests, suc n) ∷ counted (suc n) times

  check-counts :
      (n now : ℕ) (st : Store)
      → count_of (value_at now (entry key st)) ≡ some n
      → IsPresent (incr_expire key window now st).0
      → ((check_rate_limit S defaults key max_requests window_seconds now st).0
          ≡ (leb (suc n) max_requests, suc n))
        × (entry key (check_rate_limit S defaults key max_requests window_seconds now st).1
            ≡ some (record { value = number (suc n); expires = now + window }))
  unfolding check_rate_limit
  check-counts n now st held answered =
      let (c, answer) = IsPresent-some (incr_expire key window now st).0 answered in
      let count = incr_count key window now st n c held answer in
      (
        ap (allowance max_requests) answer ∙ ap (λ i. (leb i max_requests, i)) count.0,
        count.1 ∙ ap (λ i. some (record { value = number i; expires = now + window })) count.0,
      )

  Steady-counted :
      (times : List ℕ) (n expires : ℕ) (st : Store)
      → entry key st ≡ some (record { value = number n; expires = expires })
      → Steady expires times
      → NeverFails times st
      → answers times st ≡ counted n times
  unfolding answers NeverFails counted
  Steady-counted [] n expires st held steady never = refl
  Steady-counted (now ∷ times) n expires st held steady never =
      let one = check-counts n now st (ap count_of (value_before _ _ now held steady.0)) never.0 in
      cons_eq one.0 (Steady-counted times (suc n) (now + window) _ one.1 steady.1 never.1)

  -- Requests for a key without a value, each before the window of the one before it ends: Redis
  -- not failing, all of them are counted from the first on, and the n-th is allowed exactly when
  -- n is at most `max_requests`, however much time has passed since the first.
  pub check_rate_limit-Steady :
      (first : ℕ) (times : List ℕ) (st : Store)
      → value_at first (entry key st) ≡ none
      → Steady (first + window) times
      → NeverFails (first ∷ times) st
      → answers (first ∷ times) st ≡ counted 0 (first ∷ times)
  unfolding answers NeverFails counted
  check_rate_limit-Steady first times st free steady never =
      let one = check-counts 0 first st (ap count_of free) never.0 in
      cons_eq one.0 (Steady-counted times 1 (first + window) _ one.1 steady never.1)
