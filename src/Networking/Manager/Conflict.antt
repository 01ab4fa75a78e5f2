-- ===== src/Networking/Manager/Conflict.antt =====
-- Updates at a stale version, and writes of other workers between the read and the write.
use Prim.Native.String.{String}
use text.Mathlib.TextPositions.{eq_refl}
use franklink.Prelude.{
  ℕ, ◌+◌, ◌<◌, ◌≡◌, ◌≢◌, refl, ap, ◌∙◌, map, Bool, true, false, List, [], none, some, if◌then◌else◌,
  ◌==◌, not, ltb, arith,
}
use franklink.Dict.{lookup, insert, remove, lookup-insert}
use franklink.Networking.Fault.{Result, ok, raised}
use franklink.Networking.Flow.{NetworkingState}
use franklink.Networking.Stored.{StateData, to_dict}
use franklink.Networking.Table.{Table, where_rows, update_where-none}
use franklink.Networking.Flows.{
  FlowRow, of_user_version, set_state, get_networking_state, upsert_networking_state,
}
use franklink.Networking.Manager.{
  Manager, invalidate_cache, loaded, cached, get_state, saved, checked, update_state,
}
use franklink.Networking.Manager.Durable.{get_state-invalidate_cache}

module _ {D : Type 0} (T : Table (FlowRow D)) where
  -- The state that the table gives for the user.
  abbrev pub current_state : ℕ → String → Manager T → Result (NetworkingState D)
  current_state now user m = loaded T now user (get_networking_state T user m.store)

  -- A user who is not in the cache is read from the table.
  pub get_state_uncached :
      (now : ℕ) (user : String) (m : Manager T) (s : NetworkingState D)
      → lookup user m.cache ≡ none
      → current_state now user m ≡ ok s
      → get_state T now user m ≡ (ok s, record m { cache = insert user s m.cache })
  unfolding get_state
  get_state_uncached now user m s empty h = rw (empty, get_state) (rw h)

  -- `update_state` once the state is read: the cache holds it, and then come the test and the write.
  abbrev reloaded : String → NetworkingState D → Manager T → Manager T
  reloaded user s m = record m { cache = insert user s (remove user m.cache) }

  update_state-current_state :
      (now : ℕ) (user : String) (new_state s : NetworkingState D) (meanwhile : T.Store → T.Store)
      (m : Manager T)
      → current_state now user m ≡ ok s
      → update_state T now user new_state meanwhile m ≡ (
          if not (new_state.version == s.version + 1)
          then (ok false, reloaded user s m)
          else saved T user new_state (reloaded user s m) (
              upsert_networking_state T now user (to_dict new_state) s.version (meanwhile m.store)))
  unfolding update_state
  update_state-current_state now user new_state s meanwhile m h =
      ap (checked T now user new_state meanwhile) (get_state-invalidate_cache T now user m)
      ∙ ap
          (λ (r : Result (NetworkingState D)).
            checked T now user new_state meanwhile (cached T user (invalidate_cache T user m) r))
          h
      ∙ unfold invalidate_cache in refl

  -- An update is refused, and nothing is written, unless the new state has the version after the
  -- one that is read from the table, whatever the cache holds.
  pub update_state_stale :
      (now : ℕ) (user : String) (new_state s : NetworkingState D) (meanwhile : T.Store → T.Store)
      (m : Manager T)
      → current_state now user m ≡ ok s
      → new_state.version ≢ s.version + 1
      → ((update_state T now user new_state meanwhile m).0 ≡ ok false)
        × ((update_state T now user new_state meanwhile m).1.store ≡ m.store)
  update_state_stale now user new_state s meanwhile m h stale =
      let refused : (new_state.version == s.version + 1) ≡ false = ground arith in
      rw (update_state-current_state now user new_state s meanwhile m h, refused) (refl, refl)

  -- A write at a version that no row of the user has: no row changes, and nothing is raised.
  upsert_lost :
      (now : ℕ) (user : String) (state : StateData D) (version : ℕ) (st : T.Store)
      (rs : List (FlowRow D))
      → 0 < version
      → where_rows (of_user_version user version) (T.rows st) ≡ []
      → (T.update (of_user_version user version) (set_state state now) st).0 ≡ some rs
      → (T.rows (upsert_networking_state T now user state version st).1 ≡ T.rows st)
        × ((upsert_networking_state T now user state version st).0 ≡ ok false)
  unfolding upsert_networking_state
  upsert_lost now user state version st rs pos nobody answer =
      let first : ltb 0 version ≡ true = ground arith in
      let none_hit : rs ≡ [] =
        T.update_answer _ (set_state state now) st rs answer
        ∙ ap (map (set_state state now)) nobody in
      rw first (
        T.update_rows _ (set_state state now) st rs answer ∙ update_where-none _ _ _ nobody,
        rw (answer, none_hit),
      )

  -- The lost update. If the row has got another version since it was read, the write changes no
  -- row; `update_state` returns true all the same, and caches a state that the table does not hold.
  pub update_state_lost :
      (now : ℕ) (user : String) (new_state s : NetworkingState D) (meanwhile : T.Store → T.Store)
      (m : Manager T) (rs : List (FlowRow D))
      → current_state now user m ≡ ok s
      → 0 < s.version
      → new_state.version ≡ s.version + 1
      → where_rows (of_user_version user s.version) (T.rows (meanwhile m.store)) ≡ []
      → (T.update
          (of_user_version user s.version)
          (set_state (to_dict new_state) now)
          (meanwhile m.store)).0
        ≡ some rs
      → ((update_state T now user new_state meanwhile m).0 ≡ ok true)
        × (T.rows (update_state T now user new_state meanwhile m).1.store
            ≡ T.rows (meanwhile m.store))
        × (lookup user (update_state T now user new_state meanwhile m).1.cache ≡ some new_state)
  update_state_lost now user new_state s meanwhile m rs h pos next nobody answer =
      let same : (new_state.version == s.version + 1) ≡ true = ground arith in
      let lost =
        upsert_lost now user (to_dict new_state) s.version (meanwhile m.store) rs pos nobody
          answer in
      rw (update_state-current_state now user new_state s meanwhile m h, same)
        (saved-ok user new_state (reloaded user s m) _ lost.1 lost.0)
    where
      saved-ok :
          (user' : String) (new : NetworkingState D) (m2 : Manager T)
          (written : Result Bool × T.Store)
          → written.0 ≡ ok false
          → T.rows written.1 ≡ T.rows (meanwhile m.store)
          → ((saved T user' new m2 written).0 ≡ ok true)
            × (T.rows (saved T user' new m2 written).1.store ≡ T.rows (meanwhile m.store))
            × (lookup user' (saved T user' new m2 written).1.cache ≡ some new)
      saved-ok user' new m2 (ok b, st) e rows =
          (refl, rows, lookup-insert user' user' new m2.cache ∙ rw (eq_refl user'))
      saved-ok user' new m2 (raised f, st) e rows = cc
