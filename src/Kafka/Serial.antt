-- ===== src/Kafka/Serial.antt =====
-- `_handle_record` without keyed concurrency, which is the default: the records of a partition are
-- handled one after the other, and each that is handled is committed by its own offset.
use Prim.Native.String.{String}
use franklink.Prelude.{
  ℕ, suc, ◌<◌, ◌≡◌, ◌≢◌, ◌↔◌, ◌⊎◌, inl, inr, refl, Bool, true, false, List, [], ◌∷◌, arith, All,
  if◌then◌else◌, Bool-cases,
}
use franklink.Kafka.Tracker.{CommitAnswer, confirmed, unconfirmed, rejected}
use franklink.Kafka.Failure.{Settings, FailingEvent, ErrorKind, handle_failure, is_handled}

-- What becomes of the value of a record: it is no event, the delay of the event is no number, the
-- handler returns, or it raises. Of a handler that raises: is there a producer, does the sending to
-- a retry topic or to the dead letters succeed, and what did it raise at which event?
pub data Handling (B : Type 0) : Type 0 where
  undecodable bad_delay succeeds : Handling B
  fails : Bool → Bool → ErrorKind → String → FailingEvent B → Handling B

-- `answer` is the answer of the commit, if the record is committed.
pub record Delivery (B : Type 0) : Type 0 where
  pub offset : ℕ
  pub handling : Handling B
  pub answer : CommitAnswer

-- `_commit`: the offset after that of the record. `commits` has the commits that the broker has
-- carried out, the newest first; an exception of the commit ends the task.
unfoldable pub commit : ℕ → CommitAnswer → List ℕ → List ℕ
commit offset rejected commits = commits
commit offset _ commits = suc offset ∷ commits

module _ {B : Type 0} (s : Settings) where
  -- Does `_handle_record` go on to the commit?
  unfoldable pub is_committed : Handling B → Bool
  unfolding handle_failure
  is_committed undecodable = true
  is_committed bad_delay = false
  is_committed succeeds = true
  is_committed (fails has_producer sends kind error event) =
      is_handled (handle_failure s has_producer sends kind error event)

  unfoldable pub handle_record : Delivery B → List ℕ → List ℕ
  unfolding is_committed commit
  handle_record delivery commits =
      if is_committed delivery.handling
      then commit delivery.offset delivery.answer commits
      else commits

  -- The lock of the partition is taken in the order in which the records came.
  unfoldable pub handle_records : List (Delivery B) → List ℕ → List ℕ
  unfolding handle_record
  handle_records [] commits = commits
  handle_records (delivery ∷ records) commits =
      handle_records records (handle_record delivery commits)

-- The broker goes on behind offset `o`: its last commit, the first of the list, is beyond it.
abbrev pub PassedOver : ℕ → List ℕ → Type 0
PassedOver o [] = ⊥
PassedOver o (end ∷ commits) = o < end

passed :
    (o offset : ℕ) (answer : CommitAnswer) (commits : List ℕ)
    → o < offset
    → PassedOver o (commit offset answer commits) ↔ (PassedOver o commits ⊎ (answer ≢ rejected))
unfolding commit
passed o offset rejected commits lt =
    (λ p. inl p, λ p. elim p [ inl q ↦ q | inr h ↦ absurd (h refl) ])
passed o offset confirmed commits lt = (λ p. inr (λ e. cc), λ p. omega arith)
passed o offset unconfirmed commits lt = (λ p. inr (λ e. cc), λ p. omega arith)

module _ {B : Type 0} (s : Settings) where
  -- The broker carries a commit of the record out.
  abbrev pub IsCommitted : Delivery B → Type 0
  IsCommitted delivery = (is_committed s delivery.handling ≡ true) × (delivery.answer ≢ rejected)

  abbrev pub SomeCommitted : List (Delivery B) → Type 0
  SomeCommitted [] = ⊥
  SomeCommitted (delivery ∷ later) = IsCommitted delivery ⊎ SomeCommitted later

  passed_one :
      (o : ℕ) (delivery : Delivery B) (commits : List ℕ)
      → o < delivery.offset
      → PassedOver o (handle_record s delivery commits)
        ↔ (PassedOver o commits ⊎ IsCommitted delivery)
  unfolding handle_record
  passed_one o delivery commits lt = elim (Bool-cases (is_committed s delivery.handling)) [
    | inl e ↦
        let step = passed o delivery.offset delivery.answer commits lt in
        rw e (
          λ p. elim (step.0 p) [ inl q ↦ inl q | inr a ↦ inr (refl, a) ],
          λ p. step.1 (elim p [ inl q ↦ inl q | inr c ↦ inr c.1 ]),
        )
    | inr e ↦ rw e (λ p. inl p, λ p. elim p [ inl q ↦ q | inr c ↦ cc ])
  ]

  passed_later :
      (o : ℕ) (later : List (Delivery B)) (commits : List ℕ)
      → All (λ (d : Delivery B). o < d.offset) later
      → PassedOver o (handle_records s later commits) ↔ (PassedOver o commits ⊎ SomeCommitted later)
  unfolding handle_records
  passed_later o [] commits h = (λ p. inl p, λ p. elim p [ inl q ↦ q | inr h ↦ absurd h ])
  passed_later o (delivery ∷ later) commits h =
      let one = passed_one o delivery commits h.0 in
      let rest = passed_later o later (handle_record s delivery commits) h.1 in
      (
        λ p. elim (rest.0 p) [
          | inl q ↦ elim (one.0 q) [ inl before ↦ inl before | inr now ↦ inr (inl now) ]
          | inr after ↦ inr (inr after)
        ],
        λ p. elim p [
          | inl before ↦ rest.1 (inl (one.1 (inl before)))
          | inr (inl now) ↦ rest.1 (inl (one.1 (inr now)))
          | inr (inr after) ↦ rest.1 (inr after)
        ],
      )

  -- A record that is not committed, because its handler failed and it could be sent nowhere or
  -- because its delay is no number, is passed over exactly if a commit of a later record, with a
  -- greater offset, is carried out, provided that the last commit before did not cover it.
  pub handle_records-PassedOver :
      (lost : Delivery B) (later : List (Delivery B)) (commits : List ℕ)
      → is_committed s lost.handling ≡ false
      → All (λ (d : Delivery B). lost.offset < d.offset) later
      → ¬ PassedOver lost.offset commits
      → PassedOver lost.offset (handle_records s (lost ∷ later) commits) ↔ SomeCommitted later
  unfolding handle_records handle_record
  handle_records-PassedOver lost later commits dropped above fresh =
      let rest = passed_later lost.offset later commits above in
      rw dropped (
        λ p. elim (rest.0 p) [ inl before ↦ absurd (fresh before) | inr after ↦ after ],
        λ after. rest.1 (inr after),
      )
