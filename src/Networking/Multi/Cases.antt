-- ===== src/Networking/Multi/Cases.antt =====
-- The branches of the creation of a group, of the marking of a request, and of a late joining.
use Prim.Native.String.{String}
use franklink.Prelude.{ℕ, ◌≡◌, refl, inl, inr, Bool, List, [], ◌∷◌, Option}
use franklink.Networking.Fault.{Fault, Result, ok, raised, Result-cases}
use franklink.Networking.Table.{Table}
use franklink.Networking.Requests.{RequestRow}
use franklink.Networking.Multi.{User, Gathered, Joiner, GroupService}
use franklink.Networking.Multi.Create.{
  CreatedGroup, after_update, mark_request, mark_all, gather_group, group_placed, group_request,
  create_multi_person_group,
}
use franklink.Networking.Multi.Join.{AddedJoiner, joiner, joined, add_late_joiner_to_group}

module _ {S : Type 0} (R : Table (RequestRow S)) (valid_uuid : String → Bool) where
  after_update_keeps :
      (P : R.Store → Type 0) (r : Result (RequestRow S) × R.Store)
      (next : R.Store → Result Bool × R.Store)
      → ((st : R.Store) → P st → P (next st).1)
      → P r.1
      → P (after_update R r next).1
  after_update_keeps P (raised e, st) next keep h = h
  after_update_keeps P (ok row, st) next keep h = keep st h

  -- What each marking keeps, the loop keeps.
  pub mark_all_keeps :
      (P : R.Store → Type 0) (now : ℕ) (guid : Option String)
      → ((id : String) (st : R.Store) → P st → P (mark_request R valid_uuid now guid id st).1)
      → (ids : List String) (st : R.Store) → P st
      → P (mark_all R valid_uuid now guid ids st).1
  unfolding mark_all
  mark_all_keeps P now guid keep [] st h = h
  mark_all_keeps P now guid keep (id ∷ ids) st h =
      after_update_keeps P (mark_request R valid_uuid now guid id st)
        (mark_all R valid_uuid now guid ids) (mark_all_keeps P now guid keep ids) (keep id st h)

  -- The loop ends well only if the update did, and what came after it.
  pub after_update-ok :
      (r : Result (RequestRow S) × R.Store) (next : R.Store → Result Bool × R.Store) (b : Bool)
      → (after_update R r next).0 ≡ ok b
      → (row : RequestRow S) × ((r.0 ≡ ok row)
          × ((next r.1).0 ≡ ok b)
          × (after_update R r next ≡ next r.1))
  after_update-ok (raised e, st) next b h = cc
  after_update-ok (ok row, st) next b h = (row, (refl, h, refl))

module _ {S W : Type 0} (R : Table (RequestRow S)) (valid_uuid : String → Bool)
    (service : GroupService W) (users : String → Result (Option User)) where
  -- Nothing is done where the gathering raises.
  pub create_cases :
      (P : Result CreatedGroup × (R.Store × W) → Type 0) (now : ℕ) (group : String)
      (ids : List String) (st : R.Store) (w : W)
      → ((e : Fault) → P (raised e, (st, w)))
      → ((g : Gathered)
          → gather_group R users ids st ≡ ok g
          → P (
              group_placed R valid_uuid service users now group ids g st
                (service.create_group (group_request R valid_uuid service users group g) w)))
      → P (create_multi_person_group R valid_uuid service users now group ids (st, w))
  unfolding create_multi_person_group
  create_cases P now group ids st w failed gathered =
      elim (Result-cases (gather_group R users ids st)) [
        | inl (g, e) ↦ rw (e, create_multi_person_group) (gathered g e)
        | inr (fault, e) ↦ rw (e, create_multi_person_group) (failed fault)
      ]

  pub join_cases :
      (P : Result AddedJoiner × (R.Store × W) → Type 0) (now : ℕ) (id chat : String) (st : R.Store)
      (w : W)
      → ((e : Fault) → P (raised e, (st, w)))
      → ((j : Joiner)
          → joiner R users id chat st ≡ ok j
          → P (joined R users service valid_uuid now j st (service.add_participant j w)))
      → P (add_late_joiner_to_group R users service valid_uuid now id chat (st, w))
  unfolding add_late_joiner_to_group
  join_cases P now id chat st w failed found = elim (Result-cases (joiner R users id chat st)) [
    | inl (j, e) ↦ rw (e, add_late_joiner_to_group) (found j e)
    | inr (fault, e) ↦ rw (e, add_late_joiner_to_group) (failed fault)
  ]
