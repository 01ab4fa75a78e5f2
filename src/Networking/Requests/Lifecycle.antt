-- ===== src/Networking/Requests/Lifecycle.antt =====
-- What an update under an expected status does to the requests: only valid transitions, and only from
-- the expected status.
use Prim.Native.String.{String}
use text.Mathlib.TextEquality.{eq_iff}
use franklink.Prelude.{
  ℕ, ◌≡◌, refl, ◌⊎◌, inl, inr, Bool, true, false, List, [], ◌∷◌, some, arith, Bool-cases,
}
use franklink.Networking.Status.{
  Status, pending_initiator_approval, pending_target_approval, target_declined, target_accepted,
  group_created, cancelled, expired, status_eq, status_in, valid_status_transitions,
}
use franklink.Networking.Fault.{
  Result, raised, invalid_request_id, invalid_status_transition, changed_concurrently,
}
use franklink.Networking.Table.{Table, where_rows, update_where}
use franklink.Networking.Requests.{
  RequestRow, expects, allowed, set_status, row_or, update_connection_request_status,
}

status_eq→≡ : (a b : Status) → status_eq a b ≡ true → a ≡ b
status_eq→≡ pending_initiator_approval pending_initiator_approval h = refl
status_eq→≡ pending_target_approval pending_target_approval h = refl
status_eq→≡ target_declined target_declined h = refl
status_eq→≡ target_accepted target_accepted h = refl
status_eq→≡ group_created group_created h = refl
status_eq→≡ cancelled cancelled h = refl
status_eq→≡ expired expired h = refl
status_eq→≡ _ _ h = cc

-- No status is followed by itself.
no_loop : (s e : Status) → status_in s (valid_status_transitions e) ≡ true → status_eq s e ≡ false
unfolding status_in valid_status_transitions
no_loop pending_initiator_approval pending_initiator_approval h = cc
no_loop pending_target_approval pending_target_approval h = cc
no_loop target_declined target_declined h = cc
no_loop target_accepted target_accepted h = cc
no_loop group_created group_created h = cc
no_loop cancelled cancelled h = cc
no_loop expired expired h = cc
no_loop _ _ h = refl

module _ {S : Type 0} where
  -- What an update may do to a row: nothing, or a valid transition of the request `id` from the
  -- status `expected` to `status`.
  abbrev pub MovedBy : String → Status → Status → RequestRow S → RequestRow S → Type 0
  MovedBy id expected status before after =
      (after ≡ before)
      ⊎ ((before.id ≡ id)
          × (before.status ≡ expected)
          × (after.status ≡ status)
          × (status_in status (valid_status_transitions expected) ≡ true))

  -- Row by row.
  abbrev pub Pointwise :
      (RequestRow S → RequestRow S → Type 0) → List (RequestRow S) → List (RequestRow S) → Type 0
  Pointwise R [] [] = Unit
  Pointwise R (a ∷ as') (b ∷ bs) = R a b × Pointwise R as' bs
  Pointwise R _ _ = ⊥

  Pointwise-refl :
      (R : RequestRow S → RequestRow S → Type 0)
      → ((a : RequestRow S) → R a a)
      → (rows : List (RequestRow S)) → Pointwise R rows rows
  Pointwise-refl R r [] = tt
  Pointwise-refl R r (a ∷ rows) = (r a, Pointwise-refl R r rows)

  -- What the expected status selects.
  pub expects-parts :
      (id : String) (expected : Status) (row : RequestRow S)
      → expects id (some expected) row ≡ true
      → (row.id ≡ id) × (row.status ≡ expected)
  unfolding expects
  expects-parts id expected row h =
      (ground (arith, eq_iff row.id id), status_eq→≡ row.status expected (ground arith))

  module _ (now : ℕ) (id : String) (expected status : Status)
      (additional : RequestRow S → RequestRow S)
      (keeps : (row : RequestRow S) → (additional row).status ≡ row.status)
      (valid : status_in status (valid_status_transitions expected) ≡ true) where
    update_where-MovedBy :
        (rows : List (RequestRow S))
        → Pointwise
            (MovedBy id expected status)
            rows
            (update_where (expects id (some expected)) (set_status now status additional) rows)
    unfolding update_where
    update_where-MovedBy [] = tt
    update_where-MovedBy (row ∷ rows) = elim (Bool-cases (expects id (some expected) row)) [
      | inl e ↦
          let (same, at) = expects-parts id expected row e in
          rw e (inr (same, at, keeps _, valid), update_where-MovedBy rows)
      | inr e ↦ rw e (inl refl, update_where-MovedBy rows)
    ]

    unexpected :
        (row : RequestRow S)
        → expects id (some expected) (set_status now status additional row) ≡ false
    unfolding expects
    unexpected row =
        let other : status_eq (set_status now status additional row).status expected ≡ false =
          rw (keeps (record row { status = status; updated_at = now }))
            (no_loop status expected valid) in
        ground (arith, other)

    pub where_rows-update_where :
        (rows : List (RequestRow S))
        → where_rows
            (expects id (some expected))
            (update_where (expects id (some expected)) (set_status now status additional) rows)
          ≡ []
    unfolding update_where where_rows
    where_rows-update_where [] = refl
    where_rows-update_where (row ∷ rows) = elim (Bool-cases (expects id (some expected) row)) [
      | inl e ↦ rw e (rw (unexpected row) (where_rows-update_where rows))
      | inr e ↦ rw e (rw e (where_rows-update_where rows))
    ]

module _ {S : Type 0} (T : Table (RequestRow S)) (valid_uuid : String → Bool) where
  -- The branches of an update under an expected status.
  pub update_cases :
      (P : Result (RequestRow S) × T.Store → Type 0) (now : ℕ) (id : String) (status : Status)
      (additional : RequestRow S → RequestRow S) (expected : Status) (st : T.Store)
      → P (raised invalid_request_id, st)
      → P (raised (invalid_status_transition expected status), st)
      → (status_in status (valid_status_transitions expected) ≡ true
          → valid_uuid id ≡ true
          → P (
            row_or
                (raised changed_concurrently)
                (T.update (expects id (some expected)) (set_status now status additional) st).0,
            (T.update (expects id (some expected)) (set_status now status additional) st).1,
          ))
      → P (
          update_connection_request_status T valid_uuid now id status additional (some expected) st)
  unfolding update_connection_request_status allowed
  update_cases P now id status additional expected st bad_id bad_step requested =
      elim (Bool-cases (valid_uuid id)) [
        | inr e ↦ rw e bad_id
        | inl e ↦ elim (Bool-cases (status_in status (valid_status_transitions expected))) [
          | inr f ↦ rw (e, f) bad_step
          | inl f ↦ rw (e, f) (requested f e)
        ]
      ]

  -- An update under an expected status, whether it succeeds or raises, changes only rows of that
  -- request that have the expected status, and gives them the new status, to which there is a valid
  -- transition; all other rows stay as they are. (The additional updates write no status.)
  pub update_connection_request_status-MovedBy :
      (now : ℕ) (id : String) (status : Status) (additional : RequestRow S → RequestRow S)
      (expected : Status) (st : T.Store)
      → ((row : RequestRow S) → (additional row).status ≡ row.status)
      → Pointwise (MovedBy id expected status) (T.rows st) (
          T.rows
            (update_connection_request_status T valid_uuid now id status additional
              (some expected)
              st).1)
  update_connection_request_status-MovedBy now id status additional expected st keeps =
      update_cases (λ r. Pointwise (MovedBy id expected status) (T.rows st) (T.rows r.1)) now id
        status additional expected st same same
        (λ valid ok_id.
          elim (T.update_atomic (expects id (some expected)) (set_status now status additional)
            st) [
              | inl e ↦ rw e same
              | inr e ↦
                  rw e
                    (update_where-MovedBy now id expected status additional keeps valid (T.rows st))
            ])
    where
      same : Pointwise (MovedBy id expected status) (T.rows st) (T.rows st)
      same = Pointwise-refl (MovedBy id expected status) (λ a. inl refl) (T.rows st)
