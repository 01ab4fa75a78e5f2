-- ===== src/Networking/Manager/Durable.antt =====
-- A successful update is in the table and in the cache, as long as no other worker writes between
-- the read and the write.
use Prim.Native.String.{String}
use text.Mathlib.TextPositions.{eq_refl}
use franklink.Prelude.{
  ℕ, ◌+◌, ◌<◌, ◌≡◌, refl, sym, ap, ◌∙◌, inl, inr, Bool, true, false, List, none, some,
  if◌then◌else◌, ◌==◌, not, arith, Option-cases,
}
use franklink.Dict.{lookup, insert, remove, lookup-insert, lookup-remove}
use franklink.Networking.Fault.{Result, ok, raised}
use franklink.Networking.Flow.{NetworkingState, fresh}
use franklink.Networking.Stored.{StateData, to_dict, from_dict, IsFull, from_dict-to_dict}
use franklink.Networking.Table.{Table}
use franklink.Networking.Flows.{
  FlowRow, of_user, stored_state, get_networking_state-some, get_networking_state-select,
  upsert_networking_state-stored, get_networking_state, upsert_networking_state,
}
use franklink.Networking.Manager.{
  Manager, invalidate_cache, clear_cache, loaded, cached, get_state, saved, checked, update_state,
}

from_dict-version :
    {D : Type 0} (now : ℕ) (stored : StateData D) (s : NetworkingState D)
    → from_dict now stored ≡ ok s
    → 0 < s.version
    → stored.version ≡ some s.version
unfolding from_dict
from_dict-version now stored s h pos = ground arith

module _ {D : Type 0} (T : Table (FlowRow D)) where
  -- After an invalidation the state comes from the table.
  pub get_state-invalidate_cache :
      (now : ℕ) (user : String) (m : Manager T)
      → get_state T now user (invalidate_cache T user m)
        ≡ cached T user
            (invalidate_cache T user m)
            (loaded T now user (get_networking_state T user m.store))
  unfolding get_state invalidate_cache
  get_state-invalidate_cache now user m =
      let gone : lookup user (remove user m.cache) ≡ none =
        lookup-remove user user m.cache ∙ rw (eq_refl user) in
      rw (gone, get_state)

  -- The version of what was loaded is the version in the table, unless it is 0.
  loaded-version :
      (now : ℕ) (user : String) (st : T.Store) (s : NetworkingState D)
      → loaded T now user (get_networking_state T user st) ≡ ok s
      → 0 < s.version
      → (old : StateData D) × (stored_state user (T.rows st) ≡ some old)
        × (old.version ≡ some s.version)
  unfolding fresh
  loaded-version now user st s h pos = elim (Option-cases (get_networking_state T user st)) [
    | inl e ↦ absurd (ground (arith, e))
    | inr (stored, e) ↦ (
      stored,
      get_networking_state-some T user st stored e,
      from_dict-version now stored s (rw e at h) pos,
    )
  ]

  saved-true :
      (user : String) (new_state : NetworkingState D) (m m' : Manager T)
      (written : Result Bool × T.Store)
      → saved T user new_state m written ≡ (ok true, m')
      → (b : Bool) × (written.0 ≡ ok b)
        × (m' ≡ record { cache = insert user new_state m.cache; store = written.1 })
  saved-true user new_state m m' (ok b, st) h =
      (b, refl, sym (ap (λ (x : Result Bool × Manager T). x.1) h))
  saved-true user new_state m m' (raised e, st) h = cc (ap (λ (x : Result Bool × Manager T). x.0) h)

  guard-true :
      (b : Bool) (m m' : Manager T) (x : Result Bool × Manager T)
      → (if b then (ok false, m) else x) ≡ (ok true, m')
      → x ≡ (ok true, m')
  guard-true true m m' x h = cc (ap (λ (x : Result Bool × Manager T). x.0) h)
  guard-true false m m' x h = h

  update_state-loaded :
      (now : ℕ) (user : String) (new_state : NetworkingState D) (meanwhile : T.Store → T.Store)
      (m m' : Manager T) (r : Result (NetworkingState D))
      → checked T now user new_state meanwhile (cached T user (invalidate_cache T user m) r)
        ≡ (ok true, m')
      → (s : NetworkingState D) × (b : Bool) × (r ≡ ok s)
        × ((upsert_networking_state T now user (to_dict new_state) s.version (meanwhile m.store)).0
            ≡ ok b)
        × (lookup user m'.cache ≡ some new_state)
        × (m'.store
            ≡ (upsert_networking_state T now user
                (to_dict new_state)
                s.version
                (meanwhile m.store)).1)
  unfolding invalidate_cache
  update_state-loaded now user new_state meanwhile m m' (raised e) h =
      cc (ap (λ (x : Result Bool × Manager T). x.0) h)
  update_state-loaded now user new_state meanwhile m m' (ok s) h =
      let m2 : Manager T = record m { cache = insert user s (remove user m.cache) } in
      let (b, done, same) =
        saved-true user new_state m2 m' _
          (guard-true (not (new_state.version == s.version + 1)) m2 m' _ h) in
      (
        s,
        b,
        refl,
        done,
        rw same (lookup-insert user user new_state m2.cache ∙ rw (eq_refl user)),
        rw same,
      )

  -- If no other worker writes in between, an update that returns true has stored the new state:
  -- the table holds it for the user, and so does the cache.
  pub update_state-stored :
      (now : ℕ) (user : String) (new_state : NetworkingState D) (m m' : Manager T)
      → update_state T now user new_state (λ st. st) m ≡ (ok true, m')
      → (stored_state user (T.rows m'.store) ≡ some (to_dict new_state))
        × (lookup user m'.cache ≡ some new_state)
  unfolding update_state
  update_state-stored now user new_state m m' h =
      let (s, b, current, done, in_cache, same) =
        update_state-loaded now user new_state (λ st. st) m m' _
          (rw (get_state-invalidate_cache now user m) at h) in
      (
        rw same (
            upsert_networking_state-stored T now user (to_dict new_state) s.version m.store b done
              (loaded-version now user m.store s current)),
        in_cache,
      )

  -- A worker that starts with an empty cache reads the state that was stored, if its request
  -- succeeds.
  pub get_state-update_state :
      (now later : ℕ) (user : String) (new_state : NetworkingState D) (m m' : Manager T)
      (rs : List (FlowRow D))
      → IsFull new_state
      → update_state T now user new_state (λ st. st) m ≡ (ok true, m')
      → T.select (of_user user) m'.store ≡ some rs
      → (get_state T later user (clear_cache T m')).0 ≡ ok new_state
  unfolding get_state clear_cache lookup
  get_state-update_state now later user new_state m m' rs full h e =
      let held = (update_state-stored now user new_state m m' h).0 in
      rw (
        get_networking_state-select T user m'.store rs e,
        held,
        from_dict-to_dict later new_state full,
      )
