-- ===== src/Redis/Memory.antt =====
-- A server that holds its entries as a function of the key, and raises only where `INCR` finds a
-- text.
use franklink.Prelude.{
  ℕ, suc, ◌+◌, ◌≡◌, refl, sym, ap, ◌∙◌, Bool, true, false, not, Option, none, some, if◌then◌else◌,
}
use franklink.Text.{Text}
use franklink.Text.Equal.{text_eq, text_eq_refl}
use franklink.Redis.Server.{Value, text, number, Entry, value_at, is_held, count_of, Reads, Server}

abbrev Entries : Type 0
Entries = Text → Option Entry

abbrev store_at : Text → Option Entry → Entries → Entries
store_at k e st j = if text_eq k j then e else st j

abbrev store_at_self : (k : Text) (e : Option Entry) (st : Entries) → store_at k e st k ≡ e
store_at_self k e st = rw (text_eq_refl k) refl

abbrev store_at_other :
    (k j : Text) (e : Option Entry) (st : Entries) → text_eq k j ≡ false → store_at k e st j ≡ st j
store_at_other k j e st h = rw h refl

abbrev entry_of : Value → ℕ → Option Entry
entry_of v expires = some (record { value = v; expires = expires })

abbrev read : Option Value → Option Text
read none = none
read (some (text t)) = some t
read (some (number n)) = none

abbrev read-Reads : (v : Option Value) (o : Option Text) → read v ≡ o → Reads v o
read-Reads none o h = sym h
read-Reads (some (text t)) o h = sym h
read-Reads (some (number n)) o h = tt

-- `SET NX` after the test for a value.
abbrev set_if : Bool → Text → Option Entry → Entries → Option Bool × Entries
set_if true k e st = (some false, st)
set_if false k e st = (some true, store_at k e st)

abbrev set_if_answer :
    (b c : Bool) (k : Text) (e : Option Entry) (st : Entries)
    → (set_if b k e st).0 ≡ some c
    → c ≡ not b
set_if_answer true c k e st h = cc
set_if_answer false c k e st h = cc

abbrev set_if_kept :
    (b : Bool) (k : Text) (e : Option Entry) (st : Entries)
    → b ≡ true
    → (set_if b k e st).1 k ≡ st k
set_if_kept true k e st h = refl
set_if_kept false k e st h = cc

abbrev set_if_set :
    (b : Bool) (k : Text) (e : Option Entry) (st : Entries)
    → (set_if b k e st).0 ≡ some true
    → (set_if b k e st).1 k ≡ e
set_if_set true k e st h = cc
set_if_set false k e st h = store_at_self k e st

abbrev set_if_frame :
    (b : Bool) (k j : Text) (e : Option Entry) (st : Entries)
    → text_eq k j ≡ false
    → (set_if b k e st).1 j ≡ st j
set_if_frame true k j e st h = refl
set_if_frame false k j e st h = store_at_other k j e st h

-- `INCR` and `EXPIRE` after the reading of the number.
abbrev add_one : Option ℕ → Text → ℕ → Entries → Option ℕ × Entries
add_one none k expires st = (none, st)
add_one (some m) k expires st = (some (suc m), store_at k (entry_of (number (suc m)) expires) st)

abbrev add_one_count :
    (o : Option ℕ) (k : Text) (expires : ℕ) (st : Entries) (m n : ℕ)
    → o ≡ some m
    → (add_one o k expires st).0 ≡ some n
    → (n ≡ suc m) × ((add_one o k expires st).1 k ≡ entry_of (number n) expires)
add_one_count none k expires st m n o h = cc
add_one_count (some l) k expires st m n o h = (
  cc,
  store_at_self k (entry_of (number (suc l)) expires) st ∙ ap (λ i. entry_of (number i) expires) cc,
)

abbrev add_one_frame :
    (o : Option ℕ) (k j : Text) (expires : ℕ) (st : Entries)
    → text_eq k j ≡ false
    → (add_one o k expires st).1 j ≡ st j
add_one_frame none k j expires st h = refl
add_one_frame (some l) k j expires st h =
    store_at_other k j (entry_of (number (suc l)) expires) st h

unfoldable pub memory : Server
memory = record {
  Store = Entries;
  entry = λ k st. st k;
  set_nx = λ k v ttl now st. set_if (is_held (value_at now (st k))) k (entry_of v (now + ttl)) st;
  setex = λ k ttl v now st. (true, store_at k (entry_of v (now + ttl)) st);
  get = λ k now st. some (read (value_at now (st k)));
  delete = λ k now st. (some (is_held (value_at now (st k))), store_at k none st);
  incr_expire = λ k window now st. add_one (count_of (value_at now (st k))) k (now + window) st;
  set_nx_answer = λ k v ttl now st b h. set_if_answer _ b k (entry_of v (now + ttl)) st h;
  set_nx_kept = λ k v ttl now st h. set_if_kept _ k (entry_of v (now + ttl)) st h;
  set_nx_set = λ k v ttl now st h. set_if_set _ k (entry_of v (now + ttl)) st h;
  set_nx_frame = λ k j v ttl now st h. set_if_frame _ k j (entry_of v (now + ttl)) st h;
  setex_set = λ k ttl v now st h. store_at_self k (entry_of v (now + ttl)) st;
  setex_frame = λ k j ttl v now st h. store_at_other k j (entry_of v (now + ttl)) st h;
  get_answer = λ k now st o h. read-Reads _ o cc;
  delete_frame = λ k j now st h. store_at_other k j none st h;
  delete_gone = λ k now st b h. store_at_self k none st;
  incr_count = λ k window now st m n o h. add_one_count _ k (now + window) st m n o h;
  incr_frame = λ k j window now st h. add_one_frame _ k j (now + window) st h;
}

unfoldable pub no_entries : memory.Store
unfolding memory
no_entries k = none
