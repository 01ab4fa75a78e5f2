-- ===== src/Networking/Flows.antt =====
-- `get_networking_state` and `upsert_networking_state` of
-- app/database/client/connection_requests.py, over the table `user_networking_states`.
use Prim.Native.String.{String}
use text.Mathlib.Text.{◌==◌ as str_eq}
use text.Mathlib.TextPositions.{eq_refl}
use franklink.Prelude.{
  ◌<◌, refl, sym, inl, inr, ◌∙◌, ap, Bool-cases, Option-cases, ℕ, ◌≡◌, Bool, true, false, ◌&&◌,
  List, [], ◌∷◌, Option, none, some, arith, if◌then◌else◌, ltb, ◌==◌,
}
use franklink.Networking.Fault.{Result, ok, raised, request_failed}
use franklink.Networking.Stored.{StateData}
use franklink.Networking.Table.{Table, where_rows, put_row, update_where}

pub record FlowRow (D : Type 0) : Type 0 where
  pub user_id : String
  pub state_data : StateData D
  pub created_at : ℕ
  pub updated_at : ℕ

module _ {D : Type 0} where
  -- `.eq("user_id", user_id)`
  unfoldable pub of_user : String → FlowRow D → Bool
  of_user user row = str_eq row.user_id user

  -- `.eq("state_data->>version", str(version))`
  abbrev pub has_version : ℕ → FlowRow D → Bool
  has_version version row = elim row.state_data.version [ none ↦ false | some v ↦ v == version ]

  unfoldable pub of_user_version : String → ℕ → FlowRow D → Bool
  unfolding of_user
  of_user_version user version row = of_user user row && has_version version row

  abbrev first_state : Option (List (FlowRow D)) → Option (StateData D)
  first_state none = none
  first_state (some []) = none
  first_state (some (row ∷ rows)) = some row.state_data

  -- Of the answer to an update: were there rows?
  abbrev any_row : Option (List (FlowRow D)) → Result Bool
  any_row none = raised request_failed
  any_row (some []) = ok false
  any_row (some (row ∷ rows)) = ok true

  abbrev answered : Option (List (FlowRow D)) → Result Bool
  answered none = raised request_failed
  answered (some rows) = ok true

  abbrev pub set_state : StateData D → ℕ → FlowRow D → FlowRow D
  set_state state now row = record row { state_data = state; updated_at = now }

  abbrev pub new_row : String → StateData D → ℕ → FlowRow D
  new_row user state now = record {
    user_id = user;
    state_data = state;
    created_at = now;
    updated_at = now;
  }

  -- What the rows hold for a user.
  unfoldable pub stored_state : String → List (FlowRow D) → Option (StateData D)
  stored_state user [] = none
  stored_state user (row ∷ rows) =
      if of_user user row then some row.state_data else stored_state user rows

  first_state-where_rows :
      (user : String) (rows : List (FlowRow D))
      → first_state (some (where_rows (of_user user) rows)) ≡ stored_state user rows
  unfolding stored_state where_rows
  first_state-where_rows user [] = refl
  first_state-where_rows user (row ∷ rows) = elim (Bool-cases (of_user user row)) [
    | inl e ↦ rw e
    | inr e ↦ rw e (first_state-where_rows user rows)
  ]

  stored_state-put_row :
      (user : String) (state : StateData D) (now : ℕ) (rows : List (FlowRow D))
      → stored_state user (put_row (of_user user) (new_row user state now) rows) ≡ some state
  unfolding stored_state put_row
  stored_state-put_row user state now [] =
      let same : of_user user (new_row user state now) ≡ true = unfold of_user in eq_refl user in
      rw same
  stored_state-put_row user state now (row ∷ rows) = elim (Bool-cases (of_user user row)) [
    | inl e ↦
        let same : of_user user (new_row user state now) ≡ true = unfold of_user in eq_refl user in
        rw e (rw same)
    | inr e ↦ rw e (rw e (stored_state-put_row user state now rows))
  ]

  -- An update at the version that the user's row has replaces the state.
  stored_state-update :
      (user : String) (version : ℕ) (state old : StateData D) (now : ℕ) (rows : List (FlowRow D))
      → stored_state user rows ≡ some old
      → old.version ≡ some version
      → stored_state user (update_where (of_user_version user version) (set_state state now) rows)
        ≡ some state
  unfolding stored_state update_where of_user_version
  stored_state-update user version state old now [] h v = cc
  stored_state-update user version state old now (row ∷ rows) h v =
      ground (arith, stored_state-update user version state old now rows)

  any_row-ok :
      (answer : Option (List (FlowRow D))) (b : Bool)
      → any_row answer ≡ ok b
      → (rs : List (FlowRow D)) × (answer ≡ some rs)
  any_row-ok none b h = cc
  any_row-ok (some rs) b h = (rs, refl)

  answered-ok :
      (answer : Option (List (FlowRow D))) (b : Bool)
      → answered answer ≡ ok b
      → (rs : List (FlowRow D)) × (answer ≡ some rs)
  answered-ok none b h = cc
  answered-ok (some rs) b h = (rs, refl)

module _ {D : Type 0} (T : Table (FlowRow D)) where
  -- A request that raises is logged, and reads as no state.
  unfoldable pub get_networking_state : String → T.Store → Option (StateData D)
  get_networking_state user st = first_state (T.select (of_user user) st)

  unfoldable pub upsert_networking_state :
      ℕ → String → StateData D → ℕ → T.Store → Result Bool × T.Store
  upsert_networking_state now user state expected_version st =
      if ltb 0 expected_version
      then (let (answer, st') =
            T.update (of_user_version user expected_version) (set_state state now) st in
          (any_row answer, st'))
      else (let (answer, st') = T.upsert (of_user user) (new_row user state now) st in
          (answered answer, st'))

  -- What is read is what the table holds, if the request succeeds.
  pub get_networking_state-select :
      (user : String) (st : T.Store) (rs : List (FlowRow D))
      → T.select (of_user user) st ≡ some rs
      → get_networking_state user st ≡ stored_state user (T.rows st)
  unfolding get_networking_state
  get_networking_state-select user st rs e =
      ap first_state e
      ∙ ap (λ (x : List (FlowRow D)). first_state (some x)) (T.select_rows (of_user user) st rs e)
      ∙ first_state-where_rows user (T.rows st)

  pub get_networking_state-some :
      (user : String) (st : T.Store) (state : StateData D)
      → get_networking_state user st ≡ some state
      → stored_state user (T.rows st) ≡ some state
  unfolding get_networking_state
  get_networking_state-some user st state h = elim (Option-cases (T.select (of_user user) st)) [
    | inl e ↦ cc (h, ap first_state e)
    | inr (rs, e) ↦ sym (get_networking_state-select user st rs e) ∙ h
  ]

  -- A successful write at the version that the user's row has, or at version 0, is in the table.
  pub upsert_networking_state-stored :
      (now : ℕ) (user : String) (state : StateData D) (expected : ℕ) (st : T.Store) (b : Bool)
      → (upsert_networking_state now user state expected st).0 ≡ ok b
      → (0 < expected
          → (old : StateData D) × (stored_state user (T.rows st) ≡ some old)
            × (old.version ≡ some expected))
      → stored_state user (T.rows (upsert_networking_state now user state expected st).1)
        ≡ some state
  unfolding upsert_networking_state
  upsert_networking_state-stored now user state expected st b h match =
      elim (Bool-cases (ltb 0 expected)) [
        | inl e ↦
            let (old, held, at) = match (ground arith) in
            let (rs, done) = any_row-ok _ b (rw e at h) in
            rw (e, T.update_rows _ (set_state state now) st rs done)
              (stored_state-update user expected state old now (T.rows st) held at)
        | inr e ↦
            let (rs, done) = answered-ok _ b (rw e at h) in
            rw (e, T.upsert_rows _ (new_row user state now) st rs done)
              (stored_state-put_row user state now (T.rows st))
      ]
