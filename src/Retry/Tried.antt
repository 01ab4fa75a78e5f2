-- ===== src/Retry/Tried.antt =====
-- Which calls `with_retry` makes.
use mathlib.Core.Path.{subst}
use franklink.Prelude.{
  ℕ, zero, suc, ◌+◌, ◌≤◌, ◌<◌, ◌≡◌, ◌⊎◌, inl, inr, refl, sym, ap, ◌∙◌, true, false, List, [], ◌∷◌,
  arith, All, length, Bool-cases,
}
use franklink.Text.{Text}
use franklink.Retry.{
  CallResult, returned, retryable, other_error, is_transient, delay_of, Attempts, next_attempt,
  attempt_from, with_retry,
}

absurd_between : (n m : ℕ) → m ≤ n → n < m → ⊥
absurd_between n m low high = omega arith

here_or_later : (n m : ℕ) → m ≤ n → (n ≡ m) ⊎ (suc m ≤ n)
here_or_later n m h = ground arith

module _ {A : Type 0} (indicators : List Text) (base_delay max_delay : ℕ)
    (call : ℕ → CallResult A) where
  -- An answer for which the call is made again.
  abbrev pub IsTransient : CallResult A → Type 0
  IsTransient (retryable e) = is_transient indicators e ≡ true
  IsTransient _ = ⊥

  -- The answer is that of call `last`; every earlier call failed for a time only, and so did this
  -- one at most if no attempt was left. There is one delay before each call but the first.
  pub record TriedFrom (attempt left : ℕ) (r : Attempts A) : Type 0 where
    pub last : ℕ
    pub from_attempt : attempt ≤ last
    pub in_bound : last ≤ attempt + left
    pub answered : r.answer ≡ call last
    pub earlier : (n : ℕ) → attempt ≤ n → n < last → IsTransient (call n)
    pub exhausted : IsTransient (call last) → last ≡ attempt + left
    pub waited : attempt + length r.delays ≡ last
    pub short : All (λ d. d ≤ max_delay) r.delays

  stop :
      (attempt left : ℕ) (o : CallResult A)
      → call attempt ≡ o
      → (IsTransient o → ⊥)
      → TriedFrom attempt left (record { answer = o; delays = [] })
  stop attempt left o e final = record {
    last = attempt;
    from_attempt = omega arith;
    in_bound = omega arith;
    answered = sym e;
    earlier = λ n low high. elim (absurd_between n attempt low high) [ ];
    exhausted = λ t. elim (final (subst IsTransient e t)) [ ];
    waited = omega arith;
    short = tt;
  }

  again :
      (attempt left : ℕ) (o : CallResult A) (later : Attempts A)
      → call attempt ≡ o
      → IsTransient o
      → TriedFrom (suc attempt) left later
      → TriedFrom attempt (suc left) (record {
        answer = later.answer;
        delays = delay_of base_delay max_delay attempt ∷ later.delays;
      })
  unfolding delay_of
  again attempt left o later e transient t =
      let start = t.from_attempt in
      let bound = t.in_bound in
      let wait = t.waited in
      record {
        last = t.last;
        from_attempt = omega arith;
        in_bound = omega arith;
        answered = t.answered;
        earlier = λ n low high. elim (here_or_later n attempt low) [
          | inl same ↦ subst IsTransient (sym e ∙ ap call (sym same)) transient
          | inr later_call ↦ t.earlier n later_call high
        ];
        exhausted = λ h. let end : t.last ≡ suc attempt + left = t.exhausted h in omega arith;
        waited = omega arith;
        short = (omega arith, t.short);
      }

  next_attempt-TriedFrom :
      (attempt left : ℕ) (o : CallResult A) (later : Attempts A)
      → call attempt ≡ o
      → TriedFrom (suc attempt) left later
      → TriedFrom attempt (suc left) (next_attempt indicators base_delay max_delay attempt o later)
  unfolding next_attempt
  next_attempt-TriedFrom attempt left (returned a) later e t =
      stop attempt (suc left) (returned a) e (λ h. h)
  next_attempt-TriedFrom attempt left (other_error x) later e t =
      stop attempt (suc left) (other_error x) e (λ h. h)
  next_attempt-TriedFrom attempt left (retryable x) later e t =
      elim (Bool-cases (is_transient indicators x)) [
        | inl h ↦ rw h (again attempt left (retryable x) later e h t)
        | inr h ↦ rw h (
            stop attempt (suc left) (retryable x) e
              (λ h'. let apart : true ≡ false = sym h' ∙ h in cc))
      ]

  attempt_from-TriedFrom :
      (left attempt : ℕ)
      → TriedFrom attempt left (attempt_from indicators base_delay max_delay call left attempt)
  unfolding attempt_from
  attempt_from-TriedFrom zero attempt = record {
    last = attempt;
    from_attempt = omega arith;
    in_bound = omega arith;
    answered = refl;
    earlier = λ n low high. elim (absurd_between n attempt low high) [ ];
    exhausted = λ t. omega arith;
    waited = omega arith;
    short = tt;
  }
  attempt_from-TriedFrom (suc left) attempt =
      next_attempt-TriedFrom attempt left (call attempt)
        (attempt_from indicators base_delay max_delay call left (suc attempt)) refl
        (attempt_from-TriedFrom left (suc attempt))

  -- With at most max_retries retries, the answer is that of the last call that was made, with one
  -- delay of at most max_delay between two calls; every earlier call failed with a transient error,
  -- and so did the last one only if all retries were used.
  pub with_retry-TriedFrom :
      (max_retries : ℕ)
      → TriedFrom 0 max_retries (with_retry indicators base_delay max_delay call max_retries)
  unfolding with_retry
  with_retry-TriedFrom max_retries = attempt_from-TriedFrom max_retries 0
