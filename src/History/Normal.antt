-- ===== src/History/Normal.antt =====
-- Histories whose entries are read back as they are.
use mathlib.Core.List.{nil≢cons}
use franklink.Prelude.{
  ℕ, ◌≡◌, ◌≢◌, refl, sym, ap, ◌∙◌, Option, none, some, List, [], ◌∷◌, map, All, All-append,
}
use franklink.Text.{Text}
use franklink.Text.Strip.{lstrip, rstrip, strip, strip-strip}
use franklink.History.{
  Value, text, nothing, Item, entry, string, neither, HistoryEntry, timed, keep_full,
  normalize_item, normalize_items, normalize_history, stamped, new_entry,
}

-- A text that is not empty and has no white space at its ends.
abbrev pub IsTrimmed : Text → Type 0
IsTrimmed [] = ⊥
IsTrimmed (c ∷ t) = strip (c ∷ t) ≡ c ∷ t

abbrev pub IsTrimmedOrNone : Option Text → Type 0
IsTrimmedOrNone none = Unit
IsTrimmedOrNone (some t) = IsTrimmed t

abbrev pub IsNormal : HistoryEntry → Type 0
IsNormal e = IsTrimmed e.text × IsTrimmedOrNone e.created_at

-- A time that is not blank, if there is one that is not empty.
abbrev pub NotBlank : Option Text → Type 0
NotBlank none = Unit
NotBlank (some []) = Unit
NotBlank (some (c ∷ t)) = strip (c ∷ t) ≢ []

-- The entry, as it is stored.
abbrev pub stored_value : Option Text → Value
stored_value none = nothing
stored_value (some t) = text t

abbrev pub stored_item : HistoryEntry → Item
stored_item e = entry (text e.text) (stored_value e.created_at)

trimmed : (t u : Text) → t ≡ u → strip u ≡ u → u ≢ [] → IsTrimmed t
trimmed t [] h same full = absurd (full refl)
trimmed [] (c ∷ u) h same full = absurd (nil≢cons h)
trimmed (d ∷ t) (c ∷ u) h same full = ap strip h ∙ same ∙ sym h

pub strip-IsTrimmed : (t : Text) → strip t ≢ [] → IsTrimmed (strip t)
strip-IsTrimmed t full = trimmed (strip t) (strip t) refl (strip-strip t) full

pub timed-IsNormal :
    (t created : Text)
    → IsTrimmed t
    → (created ≢ [] → IsTrimmed created)
    → IsNormal (timed t created)
timed-IsNormal t [] h hc = (h, tt)
timed-IsNormal t (c ∷ created) h hc = (h, hc (λ e. nil≢cons (sym e)))

keep_full-IsNormal :
    (shown : ℕ → Text) (t created : Text)
    → (t ≢ [] → IsTrimmed t)
    → (created ≢ [] → IsTrimmed created)
    → All IsNormal (keep_full shown t created)
keep_full-IsNormal shown [] created h hc = tt
keep_full-IsNormal shown (c ∷ t) created h hc =
    (timed-IsNormal (c ∷ t) created (h (λ e. nil≢cons (sym e))) hc, tt)

stamped-IsNormal :
    (created_at : Option Text) (t : Text)
    → NotBlank created_at
    → IsTrimmed t
    → IsNormal (stamped created_at t)
stamped-IsNormal none t ok h = (h, tt)
stamped-IsNormal (some []) t ok h = (h, tt)
stamped-IsNormal (some (c ∷ created)) t ok h = (h, strip-IsTrimmed (c ∷ created) ok)

pub new_entry-IsNormal :
    (created_at : Option Text) (t : Text)
    → NotBlank created_at
    → (t ≢ [] → IsTrimmed t)
    → All IsNormal (new_entry created_at t)
new_entry-IsNormal created_at [] ok h = tt
new_entry-IsNormal created_at (c ∷ t) ok h =
    (stamped-IsNormal created_at (c ∷ t) ok (h (λ e. nil≢cons (sym e))), tt)

module _ (shown : ℕ → Text) where
  normalize_items-IsNormal : (items : List Item) → All IsNormal (normalize_items shown items)
  unfolding normalize_items
  normalize_items-IsNormal [] = tt
  normalize_items-IsNormal (item ∷ items) =
      All-append IsNormal (normalize_item shown item) (normalize_items shown items) (one item)
        (normalize_items-IsNormal items)
    where
      one : (i : Item) → All IsNormal (normalize_item shown i)
      one (entry t created) = keep_full-IsNormal shown _ _ (strip-IsTrimmed _) (strip-IsTrimmed _)
      one (string t) = keep_full-IsNormal shown _ [] (strip-IsTrimmed t) (λ h. absurd (h refl))
      one neither = tt

  pub normalize-IsNormal :
      (history : Option (List Item)) → All IsNormal (normalize_history shown history)
  unfolding normalize_history
  normalize-IsNormal none = tt
  normalize-IsNormal (some items) = normalize_items-IsNormal items

  read_parts :
      (t : Text) (created : Option Text)
      → IsTrimmed t
      → IsTrimmedOrNone created
      → normalize_item shown (entry (text t) (stored_value created))
        ≡ record { text = t; created_at = created } ∷ []
  unfolding strip lstrip rstrip
  read_parts [] created h hc = absurd h
  read_parts (c ∷ t) none h hc = rw h refl
  read_parts (c ∷ t) (some []) h hc = absurd hc
  read_parts (c ∷ t) (some (d ∷ created)) h hc = rw (h, hc) refl

  -- A normal entry is read back as it was stored.
  read_back : (e : HistoryEntry) → IsNormal e → normalize_item shown (stored_item e) ≡ e ∷ []
  read_back e h = read_parts e.text e.created_at h.0 h.1

  pub normalize-stored :
      (es : List HistoryEntry)
      → All IsNormal es
      → normalize_history shown (some (map stored_item es)) ≡ es
  unfolding normalize_history normalize_items
  normalize-stored [] h = refl
  normalize-stored (e ∷ es) h = rw (read_back e h.0) (ap (◌∷◌ e) (normalize-stored es h.1))
