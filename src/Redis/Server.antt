-- ===== src/Redis/Server.antt =====
-- The Redis server, as the client calls it: an interface with the documented behaviour of the
-- commands. Every key that the program writes has a time to live, in seconds. A command that
-- raises answers `none`.
use franklink.Prelude.{
  ℕ, suc, ◌+◌, ◌<◌, ◌≡◌, Bool, true, false, not, Option, none, some, if◌then◌else◌, ltb, arith,
}
use franklink.Text.{Text}
use franklink.Text.Equal.{text_eq}

-- A stored text, or the number that `INCR` counts.
pub data Value : Type 0 where
  text : Text → Value
  number : ℕ → Value

pub record Entry : Type 0 where
  pub value : Value
  pub expires : ℕ

abbrev pub value_at : ℕ → Option Entry → Option Value
value_at now none = none
value_at now (some e) = if ltb now e.expires then some e.value else none

abbrev pub is_held : Option Value → Bool
is_held none = false
is_held (some v) = true

-- The number that `INCR` adds one to: 0 where there is no value, and none for a text.
abbrev pub count_of : Option Value → Option ℕ
count_of none = some 0
count_of (some (number n)) = some n
count_of (some (text t)) = none

-- What `GET` answers for a text and for no value.
abbrev pub Reads : Option Value → Option Text → Type 0
Reads none o = o ≡ none
Reads (some (text t)) o = o ≡ some t
Reads (some (number n)) o = Unit

-- Before it expires, an entry has its value.
pub value_before :
    (e : Entry) (o : Option Entry) (now : ℕ)
    → o ≡ some e
    → now < e.expires
    → value_at now o ≡ some e.value
value_before e o now h before = rw h (ground arith)

pub record Server : Type 1 where
  pub Store : Type 0
  pub entry : Text → Store → Option Entry
  -- `SET key value NX EX ttl`, which answers whether the key was set
  pub set_nx : Text → Value → ℕ → ℕ → Store → Option Bool × Store
  -- `SETEX key ttl value`; the answer is false where it raised
  pub setex : Text → ℕ → Value → ℕ → Store → Bool × Store
  pub get : Text → ℕ → Store → Option (Option Text)
  -- `DEL key`, which answers whether there was a value
  pub delete : Text → ℕ → Store → Option Bool × Store
  -- the transaction of `INCR key` and `EXPIRE key window`
  pub incr_expire : Text → ℕ → ℕ → Store → Option ℕ × Store
  pub set_nx_answer :
      (k : Text) (v : Value) (ttl now : ℕ) (st : Store) (b : Bool)
      → (set_nx k v ttl now st).0 ≡ some b
      → b ≡ not (is_held (value_at now (entry k st)))
  pub set_nx_kept :
      (k : Text) (v : Value) (ttl now : ℕ) (st : Store)
      → is_held (value_at now (entry k st)) ≡ true
      → entry k (set_nx k v ttl now st).1 ≡ entry k st
  pub set_nx_set :
      (k : Text) (v : Value) (ttl now : ℕ) (st : Store)
      → (set_nx k v ttl now st).0 ≡ some true
      → entry k (set_nx k v ttl now st).1 ≡ some (record { value = v; expires = now + ttl })
  pub set_nx_frame :
      (k j : Text) (v : Value) (ttl now : ℕ) (st : Store)
      → text_eq k j ≡ false
      → entry j (set_nx k v ttl now st).1 ≡ entry j st
  pub setex_set :
      (k : Text) (ttl : ℕ) (v : Value) (now : ℕ) (st : Store)
      → (setex k ttl v now st).0 ≡ true
      → entry k (setex k ttl v now st).1 ≡ some (record { value = v; expires = now + ttl })
  pub setex_frame :
      (k j : Text) (ttl : ℕ) (v : Value) (now : ℕ) (st : Store)
      → text_eq k j ≡ false
      → entry j (setex k ttl v now st).1 ≡ entry j st
  pub get_answer :
      (k : Text) (now : ℕ) (st : Store) (o : Option Text)
      → get k now st ≡ some o
      → Reads (value_at now (entry k st)) o
  pub delete_frame :
      (k j : Text) (now : ℕ) (st : Store)
      → text_eq k j ≡ false
      → entry j (delete k now st).1 ≡ entry j st
  pub delete_gone :
      (k : Text) (now : ℕ) (st : Store) (b : Bool)
      → (delete k now st).0 ≡ some b
      → entry k (delete k now st).1 ≡ none
  pub incr_count :
      (k : Text) (window now : ℕ) (st : Store) (m n : ℕ)
      → count_of (value_at now (entry k st)) ≡ some m
      → (incr_expire k window now st).0 ≡ some n
      → (n ≡ suc m)
        × (entry k (incr_expire k window now st).1
            ≡ some (record { value = number n; expires = now + window }))
  pub incr_frame :
      (k j : Text) (window now : ℕ) (st : Store)
      → text_eq k j ≡ false
      → entry j (incr_expire k window now st).1 ≡ entry j st
