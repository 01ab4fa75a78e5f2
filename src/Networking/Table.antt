-- ===== src/Networking/Table.antt =====
-- A table of the database, as the PostgREST client offers it: an interface with the documented
-- behaviour of the requests that succeed. A filter is a test on rows. A request that raises answers
-- `none`, and nothing is said of the table after it.
use Prim.Native.String.{String}
use mathlib.Core.List.{nil≢cons}
use franklink.Prelude.{
  ◌≡◌, ◌++◌, ◌⊎◌, refl, sym, ap, inl, inr, Bool-cases, Bool, List, [], ◌∷◌, map, Option, some,
  if◌then◌else◌,
}

module _ {ℓ} {Row : Type ℓ} where
  -- The rows that pass a filter.
  unfoldable pub where_rows : (Row → Bool) → List Row → List Row
  where_rows p [] = []
  where_rows p (r ∷ rs) = let rest = where_rows p rs in if p r then r ∷ rest else rest

  -- The rows that pass are replaced.
  unfoldable pub update_where : (Row → Bool) → (Row → Row) → List Row → List Row
  update_where p f [] = []
  update_where p f (r ∷ rs) = (if p r then f r else r) ∷ update_where p f rs

  -- The row that conflicts is replaced, or the row is added.
  unfoldable pub put_row : (Row → Bool) → Row → List Row → List Row
  put_row p row [] = row ∷ []
  put_row p row (r ∷ rs) = if p r then row ∷ rs else r ∷ put_row p row rs

  -- The rows that pass are deleted.
  unfoldable pub delete_where : (Row → Bool) → List Row → List Row
  delete_where p [] = []
  delete_where p (r ∷ rs) = let rest = delete_where p rs in if p r then rest else r ∷ rest

  pub answered : (xs ys : List Row) → some xs ≡ some ys → ys ≡ xs
  answered xs ys h = cc

  -- An update whose filter no row passes changes nothing.
  pub update_where-none :
      (p : Row → Bool) (f : Row → Row) (rs : List Row)
      → where_rows p rs ≡ []
      → update_where p f rs ≡ rs
  unfolding where_rows update_where
  update_where-none p f [] h = refl
  update_where-none p f (r ∷ rs) h = elim (Bool-cases (p r)) [
    | inl e ↦ absurd (nil≢cons (sym (rw e at h)))
    | inr e ↦ rw e (ap (◌∷◌ r) (update_where-none p f rs (rw e at h)))
  ]

pub record Table (Row : Type 0) : Type 1 where
  pub Store : Type 0
  pub rows : Store → List Row
  pub select : (Row → Bool) → Store → Option (List Row)
  pub update : (Row → Bool) → (Row → Row) → Store → Option (List Row) × Store
  pub upsert : (Row → Bool) → Row → Store → Option (List Row) × Store
  -- The table chooses the key of a new row.
  pub insert : (String → Row) → Store → Option (List Row) × Store
  pub delete : (Row → Bool) → Store → Option (List Row) × Store
  pub select_rows :
      (p : Row → Bool) (st : Store) (rs : List Row)
      → select p st ≡ some rs
      → rs ≡ where_rows p (rows st)
  pub update_answer :
      (p : Row → Bool) (f : Row → Row) (st : Store) (rs : List Row)
      → (update p f st).0 ≡ some rs
      → rs ≡ map f (where_rows p (rows st))
  pub update_rows :
      (p : Row → Bool) (f : Row → Row) (st : Store) (rs : List Row)
      → (update p f st).0 ≡ some rs
      → rows (update p f st).1 ≡ update_where p f (rows st)
  -- One request is one transaction: also where no answer comes, it was carried out or it was not.
  pub update_atomic :
      (p : Row → Bool) (f : Row → Row) (st : Store)
      → (rows (update p f st).1 ≡ rows st) ⊎ (rows (update p f st).1 ≡ update_where p f (rows st))
  pub upsert_rows :
      (p : Row → Bool) (row : Row) (st : Store) (rs : List Row)
      → (upsert p row st).0 ≡ some rs
      → rows (upsert p row st).1 ≡ put_row p row (rows st)
  pub insert_rows :
      (make : String → Row) (st : Store) (rs : List Row)
      → (insert make st).0 ≡ some rs
      → (key : String) × (rs ≡ make key ∷ []) × (rows (insert make st).1 ≡ rows st ++ make key ∷ [])
  pub insert_atomic :
      (make : String → Row) (st : Store)
      → (rows (insert make st).1 ≡ rows st)
        ⊎ ((key : String) × (rows (insert make st).1 ≡ rows st ++ make key ∷ []))
  pub delete_rows :
      (p : Row → Bool) (st : Store) (rs : List Row)
      → (delete p st).0 ≡ some rs
      → rows (delete p st).1 ≡ delete_where p (rows st)

-- A table that never fails: the rows themselves. Every new row gets the key `key`.
abbrev pub list_table : (Row : Type 0) → String → Table Row
list_table Row key = record {
  Store = List Row;
  rows = λ st. st;
  select = λ p st. some (where_rows p st);
  update = λ p f st. (some (map f (where_rows p st)), update_where p f st);
  upsert = λ p row st. (some (row ∷ []), put_row p row st);
  insert = λ make st. (some (make key ∷ []), st ++ make key ∷ []);
  delete = λ p st. (some (where_rows p st), delete_where p st);
  select_rows = λ p st rs h. answered _ _ h;
  update_answer = λ p f st rs h. answered _ _ h;
  update_rows = λ p f st rs h. refl;
  update_atomic = λ p f st. inr refl;
  upsert_rows = λ p row st rs h. refl;
  insert_rows = λ make st rs h. (key, answered _ _ h, refl);
  insert_atomic = λ make st. inr (key, refl);
  delete_rows = λ p st rs h. refl;
}
