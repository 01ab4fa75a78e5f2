-- ===== src/Networking/Manager.antt =====
-- `AtomicStateManager` of app/agents/state/atomic_state.py: a cache in front of the table.
-- A method of the manager returns the manager beside its result.
pub mod Durable
pub mod Conflict
use Prim.Native.String.{String}
use franklink.Prelude.{ℕ, ◌+◌, Bool, true, false, Option, none, some, [], if◌then◌else◌, ◌==◌, not}
use franklink.Dict.{Dict, lookup, insert, remove}
use franklink.Networking.Fault.{Result, ok, raised}
use franklink.Networking.Flow.{NetworkingState, fresh}
use franklink.Networking.Stored.{StateData, to_dict, from_dict}
use franklink.Networking.Table.{Table}
use franklink.Networking.Flows.{FlowRow, get_networking_state, upsert_networking_state, of_user}

pub record Manager {D : Type 0} (T : Table (FlowRow D)) : Type 0 where
  pub cache : Dict (NetworkingState D)
  pub store : T.Store

module _ {D : Type 0} (T : Table (FlowRow D)) where
  unfoldable pub invalidate_cache : String → Manager T → Manager T
  invalidate_cache user m = record m { cache = remove user m.cache }

  unfoldable pub clear_cache : Manager T → Manager T
  clear_cache m = record m { cache = [] }

  -- The state of what the table holds for the user.
  abbrev loaded : ℕ → String → Option (StateData D) → Result (NetworkingState D)
  loaded now user none = ok (fresh now (some user))
  loaded now user (some stored) = from_dict now stored

  abbrev cached :
      String → Manager T → Result (NetworkingState D) → Result (NetworkingState D) × Manager T
  cached user m (ok s) = (ok s, record m { cache = insert user s m.cache })
  cached user m (raised e) = (raised e, m)

  unfoldable pub get_state : ℕ → String → Manager T → Result (NetworkingState D) × Manager T
  get_state now user m = elim (lookup user m.cache) [
    | some s ↦ (ok s, m)
    | none ↦ cached user m (loaded now user (get_networking_state T user m.store))
  ]

  -- The end of `update_state`: the answer of the table counts only if it is an exception.
  abbrev saved :
      String → NetworkingState D → Manager T → Result Bool × T.Store → Result Bool × Manager T
  saved user new_state m (ok _, st) =
      (ok true, record { cache = insert user new_state m.cache; store = st })
  saved user new_state m (raised _, st) =
      (ok false, record { cache = remove user m.cache; store = st })

  -- `meanwhile` is what other workers do to the table between the read and the write.
  abbrev checked :
      ℕ
      → String
      → NetworkingState D
      → (T.Store → T.Store)
      → Result (NetworkingState D) × Manager T
      → Result Bool × Manager T
  checked now user new_state meanwhile (raised e, m) = (raised e, m)
  checked now user new_state meanwhile (ok current, m) =
      if not (new_state.version == current.version + 1)
      then (ok false, m)
      else saved user new_state m (
          upsert_networking_state T now user (to_dict new_state) current.version
            (meanwhile m.store))

  unfoldable pub update_state :
      ℕ → String → NetworkingState D → (T.Store → T.Store) → Manager T → Result Bool × Manager T
  unfolding invalidate_cache
  update_state now user new_state meanwhile m =
      checked now user new_state meanwhile (get_state now user (invalidate_cache user m))

  -- An exception of the delete is logged, and leaves the cache without the user.
  unfoldable pub force_reset_state : ℕ → String → Manager T → NetworkingState D × Manager T
  unfolding invalidate_cache
  force_reset_state now user m =
      let state = fresh now (some user) in
      let m' = invalidate_cache user m in
      let (answer, st) = T.delete (of_user user) m'.store in
      elim answer [
        | none ↦ (state, record m' { store = st })
        | some rows ↦ (state, record { cache = insert user state m'.cache; store = st })
      ]
