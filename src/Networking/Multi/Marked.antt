-- ===== src/Networking/Multi/Marked.antt =====
-- What the marking of one request leaves in the table of requests.
use Prim.Native.String.{String}
use mathlib.Core.List.{nil≢cons}
use franklink.Prelude.{
  ℕ, ◌≡◌, refl, sym, ◌⊎◌, inl, inr, Bool, true, false, ◌&&◌, List, [], ◌∷◌, map, Option, none, some,
  Bool-cases,
}
use franklink.Networking.Status.{target_accepted, group_created}
use franklink.Networking.Fault.{Fault, ok, raised, changed_concurrently}
use franklink.Networking.Table.{Table, where_rows, update_where}
use franklink.Networking.Requests.{RequestRow, expects, of_id, set_status, row_or}
use franklink.Networking.Requests.Lifecycle.{update_cases, expects-parts}
use franklink.Networking.Multi.Create.{chat_updates, mark_request}

and_false : (b : Bool) → (b && false) ≡ false
and_false true = refl
and_false false = refl

module _ {S : Type 0} where
  -- An answer with a row.
  row_or-cons :
      (missing : Fault) (answer : Option (List (RequestRow S))) (row : RequestRow S)
      → row_or (raised missing) answer ≡ ok row
      → (rs : List (RequestRow S)) × (answer ≡ some (row ∷ rs))
  row_or-cons missing none row h = cc
  row_or-cons missing (some []) row h = cc
  row_or-cons missing (some (r ∷ rs)) row h = (rs, cc)

  map-cons :
      (f : RequestRow S → RequestRow S) (rows : List (RequestRow S)) (row : RequestRow S)
      (more : List (RequestRow S))
      → row ∷ more ≡ map f rows
      → (r : RequestRow S) × ((rs : List (RequestRow S)) × (rows ≡ r ∷ rs))
  map-cons f [] row more h = cc
  map-cons f (r ∷ rs) row more h = (r, (rs, refl))

  -- Some row has the property.
  abbrev pub Exists : (RequestRow S → Type 0) → List (RequestRow S) → Type 0
  Exists Q [] = ⊥
  Exists Q (row ∷ rows) = Q row ⊎ Exists Q rows

  -- The request has the group's chat.
  abbrev pub HasChat : Option String → String → RequestRow S → Type 0
  HasChat guid id row = (row.id ≡ id) × (row.status ≡ group_created) × (row.group_chat_guid ≡ guid)

  -- The update that marks a request.
  abbrev pub accepted_row : String → RequestRow S → Bool
  accepted_row id = expects id (some target_accepted)

  abbrev pub mark_row : ℕ → Option String → RequestRow S → RequestRow S
  mark_row now guid = set_status now group_created (chat_updates now guid)

  -- A marked request is not accepted any more.
  pub not_accepted :
      (id : String) (row : RequestRow S) → row.status ≡ group_created → accepted_row id row ≡ false
  unfolding expects
  not_accepted id row h = rw h (and_false (of_id id row))

  update_where-hit :
      (p : RequestRow S → Bool) (f : RequestRow S → RequestRow S) (Q : RequestRow S → Type 0)
      (rows : List (RequestRow S)) (row : RequestRow S) (more : List (RequestRow S))
      → ((r : RequestRow S) → p r ≡ true → Q (f r))
      → where_rows p rows ≡ row ∷ more
      → Exists Q (update_where p f rows)
  unfolding update_where where_rows
  update_where-hit p f Q [] row more hit h = cc
  update_where-hit p f Q (r ∷ rows) row more hit h = elim (Bool-cases (p r)) [
    | inl e ↦ rw e (inl (hit r e))
    | inr e ↦ inr (update_where-hit p f Q rows row more hit (rw e at h))
  ]

  update_where-Exists :
      (p : RequestRow S → Bool) (f : RequestRow S → RequestRow S) (Q : RequestRow S → Type 0)
      (rows : List (RequestRow S))
      → ((r : RequestRow S) → Q r → p r ≡ false)
      → Exists Q rows
      → Exists Q (update_where p f rows)
  unfolding update_where
  update_where-Exists p f Q [] miss h = h
  update_where-Exists p f Q (r ∷ rows) miss (inl q) = rw (miss r q) (inl q)
  update_where-Exists p f Q (r ∷ rows) miss (inr h) = inr (update_where-Exists p f Q rows miss h)

  pub where_rows-update_where_none :
      (p q : RequestRow S → Bool) (f : RequestRow S → RequestRow S) (rows : List (RequestRow S))
      → ((r : RequestRow S) → p (f r) ≡ false)
      → where_rows p rows ≡ []
      → where_rows p (update_where q f rows) ≡ []
  unfolding update_where where_rows
  where_rows-update_where_none p q f [] out h = refl
  where_rows-update_where_none p q f (r ∷ rows) out h = elim (Bool-cases (p r)) [
    | inl e ↦ absurd (nil≢cons (sym (rw e at h)))
    | inr e ↦ elim (Bool-cases (q r)) [
      | inl hit ↦ rw (hit, out r) (where_rows-update_where_none p q f rows out (rw e at h))
      | inr miss ↦ rw (miss, e) (where_rows-update_where_none p q f rows out (rw e at h))
    ]
  ]

module _ {S : Type 0} (R : Table (RequestRow S)) (valid_uuid : String → Bool) where
  -- A successful marking leaves the request with the chat.
  pub mark_request-HasChat :
      (now : ℕ) (guid : Option String) (id : String) (st : R.Store) (row : RequestRow S)
      → (mark_request R valid_uuid now guid id st).0 ≡ ok row
      → Exists (HasChat guid id) (R.rows (mark_request R valid_uuid now guid id st).1)
  unfolding mark_request
  mark_request-HasChat now guid id st row =
      update_cases R valid_uuid (λ r. r.0 ≡ ok row → Exists (HasChat guid id) (R.rows r.1)) now id
        group_created (chat_updates now guid) target_accepted st (λ h. cc) (λ h. cc)
        (λ valid ok_id h.
          let (rs, answer) = row_or-cons changed_concurrently _ row h in
          let (r, more) =
            map-cons (mark_row now guid) _ row rs
              (R.update_answer (accepted_row id) (mark_row now guid) st _ answer) in
          rw (R.update_rows (accepted_row id) (mark_row now guid) st _ answer) (
            update_where-hit (accepted_row id) (mark_row now guid) (HasChat guid id) (R.rows st) r
              more.0 (λ r' e. ((expects-parts id target_accepted r' e).0, refl, refl)) more.1))

  -- No marking takes the chat of another request away.
  pub mark_request-Exists :
      (now : ℕ) (guid guid' : Option String) (id id' : String) (st : R.Store)
      → Exists (HasChat guid' id') (R.rows st)
      → Exists (HasChat guid' id') (R.rows (mark_request R valid_uuid now guid id st).1)
  unfolding mark_request
  mark_request-Exists now guid guid' id id' st h =
      update_cases R valid_uuid (λ r. Exists (HasChat guid' id') (R.rows r.1)) now id group_created
        (chat_updates now guid) target_accepted st h h
        (λ valid ok_id. elim (R.update_atomic (accepted_row id) (mark_row now guid) st) [
          | inl e ↦ rw e h
          | inr e ↦ rw e (
              update_where-Exists (accepted_row id) (mark_row now guid) (HasChat guid' id')
                (R.rows st) (λ r q. not_accepted id r q.1) h)
        ])

  -- A marked request is not accepted after the marking of another either.
  pub mark_request-nobody :
      (now : ℕ) (guid : Option String) (id id' : String) (st : R.Store)
      → where_rows (accepted_row id') (R.rows st) ≡ []
      → where_rows (accepted_row id') (R.rows (mark_request R valid_uuid now guid id st).1) ≡ []
  unfolding mark_request
  mark_request-nobody now guid id id' st h =
      update_cases R valid_uuid (λ r. where_rows (accepted_row id') (R.rows r.1) ≡ []) now id
        group_created (chat_updates now guid) target_accepted st h h
        (λ valid ok_id. elim (R.update_atomic (accepted_row id) (mark_row now guid) st) [
          | inl e ↦ rw e h
          | inr e ↦ rw e (
              where_rows-update_where_none (accepted_row id') (accepted_row id) (mark_row now guid)
                (R.rows st) (λ r. not_accepted id' (mark_row now guid r) refl) h)
        ])
