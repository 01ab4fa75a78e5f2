-- ===== src/Kafka/Journey.antt =====
-- An event whose handler always fails, whether or not it can be sent on each time.
use Prim.Native.String.{String}
use franklink.Prelude.{
  ℕ, zero, suc, ◌+◌, ◌-◌, ◌≤◌, ◌<◌, ◌≡◌, ◌⊎◌, inl, inr, refl, sym, Bool, true, false, not, ◌&&◌,
  Option, none, some, List, [], ◌∷◌, arith, if_split, ltb, Returns, Returns-map, ap,
}
use mathlib.Core.Option
use mathlib.Core.Path.{subst}
use franklink.Kafka.Failure.{
  Settings, FailingEvent, ErrorKind, Failure, retried, dead_lettered, no_producer, not_sent,
  attempt_of, is_retryable_error, handle_failure, retry_topic,
}

-- The event is in the dead letters, or it was kept: there was no producer for it or the sending
-- raised, so that `_handle_failure` sent it nowhere and its offset is not committed.
pub data Ending : Type 0 where
  in_dead_letters kept : Ending

module _ (s : Settings) where
  abbrev last_topic : Ending → List String
  last_topic in_dead_letters = s.topic_dlq ∷ []
  last_topic kept = []

  -- The topics of `k` retries from attempt `a` on, and then the dead letters if the event got there.
  abbrev pub topics_from : ℕ → ℕ → Ending → List String
  topics_from zero a ending = last_topic ending
  topics_from (suc k) a ending = retry_topic s a ∷ topics_from k (suc a) ending

-- At the handling of number `n` the exception is of `kinds n`, there is a producer if `producers n`
-- and the sending does not raise if `sends n`.
module _ (s : Settings) (kinds : ℕ → ErrorKind) (producers sends : ℕ → Bool) where
  abbrev available : ℕ → Bool
  available n = producers n && sends n

  first : (m n : ℕ) → n ≤ m → (m ≡ n) ⊎ (suc n ≤ m)
  first m n le = ground arith

  pub record Journeyed (attempt n : ℕ) (journey : List String × Ending) : Type 0 where
    pub retries : ℕ
    pub bounded : retries ≤ s.max_attempts - attempt
    pub in_turn : journey.0 ≡ topics_from s retries (suc attempt) journey.1
    pub sent_on : (m : ℕ) → n ≤ m → m < n + retries → available m ≡ true
    pub kept_last : journey.1 ≡ kept → available (n + retries) ≡ false
    pub dead_last : journey.1 ≡ in_dead_letters → available (n + retries) ≡ true
    pub persistent :
        journey.1 ≡ in_dead_letters
        → ((m : ℕ) → n ≤ m → is_retryable_error (kinds m) ≡ true)
        → retries ≡ s.max_attempts - attempt

  retried_once :
      (attempt n : ℕ) (journey : List String × Ending)
      → attempt < s.max_attempts
      → available n ≡ true
      → Journeyed (suc attempt) (suc n) journey
      → Journeyed attempt n (retry_topic s (suc attempt) ∷ journey.0, journey.1)
  retried_once attempt n journey lt now j =
      let shift : suc n + j.retries ≡ n + suc j.retries = omega arith in
      record {
        retries = suc j.retries;
        bounded = omega (arith, j.bounded);
        in_turn = ap (◌∷◌ (retry_topic s (suc attempt))) j.in_turn;
        sent_on = λ m low high. elim (first m n low) [
          | inl same ↦ rw same now
          | inr later ↦ j.sent_on m later (omega arith)
        ];
        kept_last = λ e. subst (λ m. available m ≡ false) shift (j.kept_last e);
        dead_last = λ e. subst (λ m. available m ≡ true) shift (j.dead_last e);
        persistent = λ e all.
            let rest : j.retries ≡ s.max_attempts - suc attempt =
              j.persistent e (λ m le. all m (omega arith)) in
            omega arith;
      }

  not_sent_on : (attempt n : ℕ) → available n ≡ false → Journeyed attempt n ([], kept)
  not_sent_on attempt n lost =
      let here : n + 0 ≡ n = omega arith in
      record {
        retries = 0;
        bounded = omega arith;
        in_turn = refl;
        sent_on = λ m low high. absurd (omega arith);
        kept_last = λ e. subst (λ m. available m ≡ false) (sym here) lost;
        dead_last = λ e. cc;
        persistent = λ e all. cc;
      }

  dead_at_once :
      (attempt n : ℕ)
      → available n ≡ true
      → (is_retryable_error (kinds n) && ltb attempt s.max_attempts) ≡ false
      → Journeyed attempt n (s.topic_dlq ∷ [], in_dead_letters)
  dead_at_once attempt n now over =
      let here : n + 0 ≡ n = omega arith in
      record {
        retries = 0;
        bounded = omega arith;
        in_turn = refl;
        sent_on = λ m low high. absurd (omega arith);
        kept_last = λ e. cc;
        dead_last = λ e. subst (λ m. available m ≡ true) (sym here) now;
        persistent = λ e all. let kind = all n (omega arith) in ground arith;
      }

module _ {B : Type 0} (s : Settings) (kinds : ℕ → ErrorKind) (producers sends : ℕ → Bool)
    (error : String) where
  -- The topics that an event is sent to, where `again` goes on with an event that is retried.
  unfoldable pub after_failure :
      (FailingEvent B → Option (List String × Ending)) → Failure B → Option (List String × Ending)
  after_failure again (retried topic event) =
      Option.map (λ (j : List String × Ending). (topic ∷ j.0, j.1)) (again event)
  after_failure again (dead_lettered event) = some (s.topic_dlq ∷ [], in_dead_letters)
  after_failure again no_producer = some ([], kept)
  after_failure again not_sent = some ([], kept)

  -- The handlings from number `n` on, all of which fail; on fuel, one unit for each handling.
  unfoldable pub journey : ℕ → ℕ → FailingEvent B → Option (List String × Ending)
  unfolding handle_failure after_failure
  journey zero n event = none
  journey (suc fuel) n event =
      after_failure (journey fuel (suc n))
        (handle_failure s (producers n) (sends n) (kinds n) error event)

  -- An event whose handler always fails is not retried for ever. With fuel for the attempts that are
  -- left its journey ends: it is sent to the retry topics of its attempts in turn, at most
  -- max_attempts of them counted from its attempt, each at a handling at which there is a producer
  -- and the sending succeeds. At the next handling it gets to the dead letters if this is so again,
  -- and otherwise it is kept: that handling sends it nowhere. If it gets to the dead letters and
  -- every failure is of a kind that is retried, then the retries are exactly so many.
  pub journey-Journeyed :
      (fuel n : ℕ) (event : FailingEvent B)
      → s.max_attempts - attempt_of event.attempt < fuel
      → Returns
          (Journeyed s kinds producers sends (attempt_of event.attempt) n)
          (journey fuel n event)
  unfolding journey handle_failure after_failure
  journey-Journeyed zero n event lt = absurd (omega arith)
  journey-Journeyed (suc fuel) n event lt =
      let attempt : ℕ = attempt_of event.attempt in
      let J = Journeyed s kinds producers sends attempt n in
      let P = λ (f : Failure B). Returns J (after_failure (journey fuel (suc n)) f) in
      if_split P (not (producers n)) _ _
        (λ no. not_sent_on s kinds producers sends attempt n (ground arith))
        λ yes.
          if_split P (is_retryable_error (kinds n) && ltb attempt s.max_attempts) _ _
            (λ again.
              if_split P (sends n) _ _
                (λ sent.
                  Returns-map (Journeyed s kinds producers sends (suc attempt) (suc n)) J
                    (λ (j : List String × Ending). (retry_topic s (suc attempt) ∷ j.0, j.1)) _
                    (λ j h.
                      retried_once s kinds producers sends attempt n j (ground arith) (ground arith)
                        h)
                    (journey-Journeyed fuel (suc n) _ (ground arith)))
                (λ fails. not_sent_on s kinds producers sends attempt n (ground arith)))
            (λ over.
              if_split P (sends n) _ _
                (λ sent. dead_at_once s kinds producers sends attempt n (ground arith) over)
                (λ fails. not_sent_on s kinds producers sends attempt n (ground arith)))
