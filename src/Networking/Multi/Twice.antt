-- ===== src/Networking/Multi/Twice.antt =====
-- A group that is created twice.
use Prim.Native.String.{String}
use mathlib.Core.Path.{subst}
use franklink.Prelude.{ℕ, ◌≡◌, refl, sym, ap, ◌∙◌, Bool, true, List, [], ◌∷◌, Option, some}
use franklink.Networking.Status.{
  target_accepted, group_created, status_in, valid_status_transitions,
}
use franklink.Networking.Fault.{Fault, Result, ok, raised, changed_concurrently}
use franklink.Networking.Table.{Table, where_rows}
use franklink.Networking.Requests.{RequestRow}
use franklink.Networking.Requests.Lifecycle.{where_rows-update_where}
use franklink.Networking.Requests.Once.{update_ok, update_nobody}
use franklink.Networking.Multi.{User, Gathered, GroupService}
use franklink.Networking.Multi.Create.{
  CreatedGroup, chat_updates, after_update, mark_request, mark_all, gather_group, marked,
  group_placed, group_request, create_multi_person_group,
}
use franklink.Networking.Multi.Cases.{mark_all_keeps, after_update-ok}
use franklink.Networking.Multi.Marked.{accepted_row, mark_row, mark_request-nobody}
use franklink.Networking.Multi.Group.{create-Placed}

module _ {S : Type 0} (R : Table (RequestRow S)) (valid_uuid : String → Bool) where
  -- A request that the loop has marked is not accepted any more.
  Left : String → R.Store → Type 0
  Left id st = (valid_uuid id ≡ true) × (where_rows (accepted_row id) (R.rows st) ≡ [])

  mark_all-Left :
      (now : ℕ) (id : String) (ids : List String) (st : R.Store) (guid : Option String) (b : Bool)
      → (mark_all R valid_uuid now guid (id ∷ ids) st).0 ≡ ok b
      → Left id (mark_all R valid_uuid now guid (id ∷ ids) st).1
  unfolding mark_all mark_request Left
  mark_all-Left now id ids st guid b h =
      let (row, (first, rest, same)) =
        after_update-ok R valid_uuid (mark_request R valid_uuid now guid id st)
          (mark_all R valid_uuid now guid ids) b h in
      let (ok_id, valid, rows) =
        update_ok R valid_uuid now id group_created (chat_updates now guid) target_accepted st row
          first in
      subst (λ r. Left id r.1) (sym same)
        (
          ok_id,
          mark_all_keeps R valid_uuid (λ s. where_rows (accepted_row id) (R.rows s) ≡ []) now guid
              (λ id' s. mark_request-nobody R valid_uuid now guid id' id s) ids _
              (ap (where_rows (accepted_row id)) rows
                ∙ where_rows-update_where now id target_accepted group_created
                    (chat_updates now guid) (λ r. refl) valid (R.rows st)),
        )

  after_update_raised :
      (r : Result (RequestRow S) × R.Store) (next : R.Store → Result Bool × R.Store) (e : Fault)
      → r.0 ≡ raised e
      → after_update R r next ≡ (raised e, r.1)
  after_update_raised (raised e', st) next e h =
      let same : e' ≡ e = cc in ap (λ x. (raised x, st)) same
  after_update_raised (ok row, st) next e h = cc

  -- A loop that begins with such a request raises, and writes nothing.
  mark_all_again :
      (later : ℕ) (guid : Option String) (id : String) (ids : List String) (st : R.Store)
      (rs : List (RequestRow S))
      → Left id st
      → (R.update (accepted_row id) (mark_row later guid) st).0 ≡ some rs
      → ((mark_all R valid_uuid later guid (id ∷ ids) st).0 ≡ raised changed_concurrently)
        × (R.rows (mark_all R valid_uuid later guid (id ∷ ids) st).1 ≡ R.rows st)
  unfolding mark_all mark_request Left status_in valid_status_transitions
  mark_all_again later guid id ids st rs left answer =
      let (refused, same) =
        update_nobody R valid_uuid later id group_created (chat_updates later guid) target_accepted
          st rs left.1 answer left.0 refl in
      let ends =
        after_update_raised (mark_request R valid_uuid later guid id st)
          (mark_all R valid_uuid later guid ids) changed_concurrently refused in
      (ap (λ r. r.0) ends, ap (λ r. R.rows r.1) ends ∙ same)

module _ {S W : Type 0} (R : Table (RequestRow S)) (valid_uuid : String → Bool)
    (service : GroupService W) (users : String → Result (Option User)) where
  marked_raised :
      (guid : Option String) (group : String) (g : Gathered) (w : W) (e : Fault)
      (r : Result Bool × R.Store)
      → r.0 ≡ raised e
      → marked R valid_uuid service users guid group g w r ≡ (raised e, (r.1, w))
  marked_raised guid group g w e (raised e', st) h =
      let same : e' ≡ e = cc in ap (λ x. (raised x, (st, w))) same
  marked_raised guid group g w e (ok b, st) h = cc

  created_by :
      (now : ℕ) (group : String) (ids : List String) (st : R.Store) (w w' : W) (g : Gathered)
      (guid : Option String)
      → gather_group R users ids st ≡ ok g
      → service.create_group (group_request R valid_uuid service users group g) w ≡ (some guid, w')
      → create_multi_person_group R valid_uuid service users now group ids (st, w)
        ≡ marked R valid_uuid service users guid group g w' (mark_all R valid_uuid now guid ids st)
  unfolding create_multi_person_group
  created_by now group ids st w w' g guid found made =
      rw (found, create_multi_person_group)
        (ap (group_placed R valid_uuid service users now group ids g st) made)

  -- A group is created twice: once a creation has returned, a second one whose list begins with
  -- the same request has the service create another chat, and then raises that the request has
  -- changed; it writes nothing to the requests, and the other chat stays. (The second creation
  -- finds its participants, and the service and the table answer it.)
  pub create_multi_person_group_twice :
      (now later : ℕ) (group : String) (id : String) (ids ids' : List String) (st : R.Store)
      (w w' w'' : W) (created : CreatedGroup) (g : Gathered) (guid : Option String)
      (rs : List (RequestRow S))
      → (create_multi_person_group R valid_uuid service users now group (id ∷ ids) (st, w)).0
        ≡ ok created
      → gather_group R users
          (id ∷ ids')
          (create_multi_person_group R valid_uuid service users now group (id ∷ ids) (st, w)).1.0
        ≡ ok g
      → service.create_group (group_request R valid_uuid service users group g) w'
        ≡ (some guid, w'')
      → (R.update
          (accepted_row id)
          (mark_row later guid)
          (create_multi_person_group R valid_uuid service users now group (id ∷ ids) (st, w)).1.0).0
        ≡ some rs
      → ((create_multi_person_group R valid_uuid service users later group (id ∷ ids') (
        (create_multi_person_group R valid_uuid service users now group (id ∷ ids) (st, w)).1.0,
        w',
      )).0
          ≡ raised changed_concurrently)
        × (R.rows
              (create_multi_person_group R valid_uuid service users later group (id ∷ ids') (
                (create_multi_person_group R valid_uuid service users now group
                    (id ∷ ids)
                    (st, w)).1.0,
                w',
              )).1.0
            ≡ R.rows
                (create_multi_person_group R valid_uuid service users now group
                  (id ∷ ids)
                  (st, w)).1.0)
        × ((create_multi_person_group R valid_uuid service users later group (id ∷ ids') (
          (create_multi_person_group R valid_uuid service users now group (id ∷ ids) (st, w)).1.0,
          w',
        )).1.1
            ≡ w'')
  create_multi_person_group_twice now later group id ids ids' st w w' w'' created g guid rs first
        found made answer =
      let left =
        (create-Placed R valid_uuid service users (λ guid s. Left R valid_uuid id s) now group
          (id ∷ ids) st w created (mark_all-Left R valid_uuid now id ids st) first).1 in
      let (refused, same) = mark_all_again R valid_uuid later guid id ids' _ rs left answer in
      let second =
        created_by later group (id ∷ ids') _ w' w'' g guid found made
        ∙ marked_raised guid group g w'' changed_concurrently _ refused in
      (ap (λ r. r.0) second, ap (λ r. R.rows r.1.0) second ∙ same, ap (λ r. r.1.1) second)
