-- ===== src/Networking/Multi/Group.antt =====
-- What a created group leaves behind, and what happens when it is created twice.
use Prim.Native.String.{String}
use mathlib.Core.Path.{subst}
use franklink.Prelude.{
  ℕ, ◌≤◌, ◌≡◌, refl, sym, Bool, List, [], ◌∷◌, Option, none, some, All, length, ltb, if-cases, inl,
  inr, arith,
}
use franklink.Networking.Fault.{Result, ok, raised, ◌>>=◌, not_enough_participants}
use franklink.Networking.Table.{Table}
use franklink.Networking.Requests.{RequestRow}
use franklink.Networking.Multi.{User, Gathered, GroupService, nothing_gathered}
use franklink.Networking.Multi.Create.{
  CreatedGroup, mark_request, mark_all, gather, with_initiator, enough, gather_group, marked,
  group_placed, create_multi_person_group,
}
use franklink.Networking.Multi.Cases.{mark_all_keeps, after_update-ok, create_cases}
use franklink.Networking.Multi.Marked.{Exists, HasChat, mark_request-HasChat, mark_request-Exists}

module _ {S : Type 0} (R : Table (RequestRow S)) (valid_uuid : String → Bool) where
  -- After a loop that ends well, every request has the chat.
  mark_all-HasChat :
      (now : ℕ) (guid : Option String) (ids : List String) (st : R.Store) (b : Bool)
      → (mark_all R valid_uuid now guid ids st).0 ≡ ok b
      → All (λ id. Exists (HasChat guid id) (R.rows (mark_all R valid_uuid now guid ids st).1)) ids
  unfolding mark_all
  mark_all-HasChat now guid [] st b h = tt
  mark_all-HasChat now guid (id ∷ ids) st b h =
      let (row, (first, rest, same)) =
        after_update-ok R valid_uuid (mark_request R valid_uuid now guid id st)
          (mark_all R valid_uuid now guid ids) b h in
      subst (λ r. All (λ i. Exists (HasChat guid i) (R.rows r.1)) (id ∷ ids)) (sym same)
        (
          mark_all_keeps R valid_uuid (λ s. Exists (HasChat guid id) (R.rows s)) now guid
              (λ id' s. mark_request-Exists R valid_uuid now guid guid id' id s) ids _
              (mark_request-HasChat R valid_uuid now guid id st row first),
          mark_all-HasChat now guid ids _ b rest,
        )

module _ {S W : Type 0} (R : Table (RequestRow S)) (valid_uuid : String → Bool)
    (service : GroupService W) (users : String → Result (Option User)) where
  enough-length : (g g' : Gathered) → enough R users g ≡ ok g' → 2 ≤ length g'.participants
  enough-length g g' h =
      elim (if-cases (ltb (length g.participants) 2) (raised not_enough_participants) (ok g) (ok g')
        h) [
          | inl (few, r) ↦ cc
          | inr (many, same) ↦
              let two : 2 ≤ length g.participants = ground arith in
              let e : g ≡ g' = cc in subst (λ (x : Gathered). 2 ≤ length x.participants) e two
        ]

  then_enough :
      (r : Result Gathered) (g : Gathered)
      → (r >>= enough R users) ≡ ok g
      → 2 ≤ length g.participants
  then_enough (raised e) g h = cc
  then_enough (ok g') g h = enough-length g' g h

  -- What the creation answers if the loop ends well.
  created_group : Option String → String → Gathered → CreatedGroup
  created_group guid group g = record {
    chat_guid = guid;
    participants = g.participants;
    signal_group_id = group;
  }

  marked-ok :
      (guid : Option String) (group : String) (g : Gathered) (w : W) (r : Result Bool × R.Store)
      (created : CreatedGroup)
      → (marked R valid_uuid service users guid group g w r).0 ≡ ok created
      → (b : Bool) × ((r.0 ≡ ok b)
          × ((marked R valid_uuid service users guid group g w r).1.0 ≡ r.1)
          × (created_group guid group g ≡ created))
  unfolding created_group
  marked-ok guid group g w (raised e, st) created h = cc
  marked-ok guid group g w (ok b, st) created h = (b, (refl, refl, cc))

  -- What holds of an answer with its chat, and of the table.
  abbrev Placed : (Option String → R.Store → Type 0) → Result CreatedGroup × (R.Store × W) → Type 0
  Placed P r =
      (created : CreatedGroup)
      → r.0 ≡ ok created
      → (2 ≤ length created.participants) × P created.chat_guid r.1.0

  group_placed-Placed :
      (P : Option String → R.Store → Type 0) (now : ℕ) (group : String) (ids : List String)
      (g : Gathered) (st : R.Store) (r : Option (Option String) × W)
      → 2 ≤ length g.participants
      → ((guid : Option String) (b : Bool)
          → (mark_all R valid_uuid now guid ids st).0 ≡ ok b
          → P guid (mark_all R valid_uuid now guid ids st).1)
      → Placed P (group_placed R valid_uuid service users now group ids g st r)
  unfolding created_group
  group_placed-Placed P now group ids g st (none, w) two loop created h = cc
  group_placed-Placed P now group ids g st (some guid, w) two loop created h =
      let (b, (ended, left, answer)) =
        marked-ok guid group g w (mark_all R valid_uuid now guid ids st) created h in
      (
        subst (λ (c : CreatedGroup). 2 ≤ length c.participants) answer two,
        subst
            (λ (c : CreatedGroup).
              P c.chat_guid
                (marked R valid_uuid service users guid group g w
                  (mark_all R valid_uuid now guid ids st)).1.0)
            answer (subst (P guid) (sym left) (loop guid b ended)),
      )

  -- What the loop leaves when it ends well, the creation leaves when it returns.
  pub create-Placed :
      (P : Option String → R.Store → Type 0) (now : ℕ) (group : String) (ids : List String)
      (st : R.Store) (w : W) (created : CreatedGroup)
      → ((guid : Option String) (b : Bool)
          → (mark_all R valid_uuid now guid ids st).0 ≡ ok b
          → P guid (mark_all R valid_uuid now guid ids st).1)
      → (create_multi_person_group R valid_uuid service users now group ids (st, w)).0 ≡ ok created
      → (2 ≤ length created.participants)
        × P created.chat_guid
            (create_multi_person_group R valid_uuid service users now group ids (st, w)).1.0
  unfolding gather_group
  create-Placed P now group ids st w created loop h =
      create_cases R valid_uuid service users (Placed P) now group ids st w (λ e created h. cc)
        (λ g found.
          group_placed-Placed P now group ids g st _
            (then_enough (gather R users ids st nothing_gathered >>= with_initiator R users) g
              found)
            loop)
        created h

  -- When the creation of a group returns, the group has at least two participants, and for every
  -- listed request there is a row with its id, the status of a created group and the group's chat.
  pub create_multi_person_group-HasChat :
      (now : ℕ) (group : String) (ids : List String) (st : R.Store) (w : W) (created : CreatedGroup)
      → (create_multi_person_group R valid_uuid service users now group ids (st, w)).0 ≡ ok created
      → (2 ≤ length created.participants)
        × All
            (λ id. Exists (HasChat created.chat_guid id) (
              R.rows
                (create_multi_person_group R valid_uuid service users now group ids (st, w)).1.0))
            ids
  create_multi_person_group-HasChat now group ids st w created h =
      create-Placed (λ guid s. All (λ id. Exists (HasChat guid id) (R.rows s)) ids) now group ids st
        w created (λ guid b. mark_all-HasChat R valid_uuid now guid ids st b) h
