-- ===== src/Chunker/Break.antt =====
-- Where a text is broken, and how long a truncated text is.
use franklink.Prelude.{
  ℕ, ◌+◌, ◌≤◌, ◌<◌, ◌≡◌, ◌⊎◌, refl, ap, inl, inr, List, [], ◌∷◌, Option, none, some, arith,
  get_elem?, get_elem?-drop, get_elem?-some_lt, sym, ◌∙◌, length, drop, Option-cases, All,
}
use franklink.Text.{Text}
use franklink.Text.Find.{
  rfind, Occurs, rfind-Occurs, rfind-none, Occurs-char, starts_with-get_elem?,
}
use franklink.Chunker.{
  newline_seps, sentence_seps, clause_seps, space, or_else, first_sep, search_window, min_index,
  find_break_index,
}

-- The character after the first `offset` of a separator is a blank or a newline.
abbrev pub IsBlank : ℕ → Type 0
IsBlank c = (c ≡ 32) ⊎ (c ≡ 10)

abbrev BreaksAt : ℕ → Text → Type 0
BreaksAt offset sep = (c : ℕ) × (get_elem? sep offset ≡ some c) × IsBlank c

-- `text` has a blank or a newline at index `i`.
abbrev pub BlankAt : Text → ℕ → Type 0
BlankAt text i = (c : ℕ) × (get_elem? text i ≡ some c) × IsBlank c

BlankAt-Occurs :
    (offset : ℕ) (sep text : Text) (start stop j : ℕ)
    → BreaksAt offset sep
    → Occurs sep text start stop j
    → BlankAt text (j + offset)
BlankAt-Occurs offset sep text start stop j (c, at, blank) o = (
  c,
  sym (get_elem?-drop j offset text) ∙ starts_with-get_elem? sep (drop j text) offset c o.fits at,
  blank,
)

-- What a separator search returns is a blank or a newline before `stop`.
abbrev Break : Text → ℕ → ℕ → Type 0
Break text stop i = (i < stop) × BlankAt text i

first_sep-Break :
    (offset : ℕ) (seps : List Text) (text : Text) (start stop i : ℕ)
    → All (BreaksAt offset) seps
    → first_sep offset seps text start stop ≡ some i
    → Break text stop i
unfolding first_sep
first_sep-Break offset [] text start stop i l h = cc
first_sep-Break offset (sep ∷ seps) text start stop i l h =
    elim (Option-cases (rfind sep text start stop)) [
      | inl e ↦ first_sep-Break offset seps text start stop i l.1 (ground arith)
      | inr (j, e) ↦ found j (rfind-Occurs sep text start stop j e) (ground arith)
    ]
  where
    found : (j : ℕ) → Occurs sep text start stop j → i ≡ j + offset → Break text stop i
    found j o same =
        let short = get_elem?-some_lt sep offset l.0.1 in
        (omega (arith, o.to_stop), rw same (BlankAt-Occurs offset sep text start stop j l.0 o))

first_sep-none :
    (offset : ℕ) (seps : List Text) (text : Text) (start stop i : ℕ)
    → first_sep offset seps text start stop ≡ none
    → All (λ sep. ¬ Occurs sep text start stop i) seps
unfolding first_sep
first_sep-none offset [] text start stop i h = tt
first_sep-none offset (sep ∷ seps) text start stop i h =
    elim (Option-cases (rfind sep text start stop)) [
      | inl e ↦ (
        rfind-none sep text start stop i e,
        first_sep-none offset seps text start stop i (ground arith),
      )
      | inr (j, e) ↦ absurd (ground arith)
    ]

or_else-some {ℓ} :
    {A : Type ℓ} (x y : Option A) {a : A} → or_else x y ≡ some a → (x ≡ some a) ⊎ (y ≡ some a)
or_else-some none y h = inr h
or_else-some (some b) y h = inl h

or_else-none {ℓ} : {A : Type ℓ} (x y : Option A) → or_else x y ≡ none → (x ≡ none) × (y ≡ none)
or_else-none none y h = (refl, h)
or_else-none (some b) y h = cc

newline_breaks : All (BreaksAt 0) newline_seps
newline_breaks = ((10, refl, inr refl), ((10, refl, inr refl), tt))

-- The separators of sentences and of clauses: three before a newline, and three before a blank.
pairs_break :
    (a b c d e f : ℕ)
    → All (BreaksAt 1) (
        (a ∷ 10 ∷ [])
        ∷ (b ∷ 10 ∷ [])
        ∷ (c ∷ 10 ∷ [])
        ∷ (d ∷ 32 ∷ [])
        ∷ (e ∷ 32 ∷ [])
        ∷ (f ∷ 32 ∷ [])
        ∷ [])
pairs_break a b c d e f = (
  (10, refl, inr refl),
  (
    (10, refl, inr refl),
    (
      (10, refl, inr refl),
      ((32, refl, inl refl), ((32, refl, inl refl), ((32, refl, inl refl), tt))),
    ),
  ),
)

module _ (text : Text) (start stop : ℕ) where
  search_window-Break : (i : ℕ) → search_window text start stop ≡ some i → Break text stop i
  unfolding search_window
  search_window-Break i h = elim (or_else-some (first_sep 0 newline_seps text start stop) _ h) [
    | inl e ↦ first_sep-Break 0 newline_seps text start stop i newline_breaks e
    | inr r ↦ elim (or_else-some (first_sep 1 sentence_seps text start stop) _ r) [
      | inl e ↦
          first_sep-Break 1 sentence_seps text start stop i (pairs_break 46 33 8230 46 33 8230) e
      | inr r' ↦ elim (or_else-some (first_sep 1 clause_seps text start stop) _ r') [
        | inl e ↦ first_sep-Break 1 clause_seps text start stop i (pairs_break 59 58 44 59 58 44) e
        | inr e ↦ first_sep-Break 0 (space ∷ []) text start stop i ((32, refl, inl refl), tt) e
      ]
    ]
  ]

  -- A search that finds nothing has no blank and no newline in its window.
  search_window-none :
      (i : ℕ) → search_window text start stop ≡ none → start ≤ i → i < stop → ¬ BlankAt text i
  unfolding search_window
  search_window-none i h lo hi (c, at, inl blank) =
      let r = or_else-none (first_sep 0 newline_seps text start stop) _ h in
      let r' = or_else-none (first_sep 1 sentence_seps text start stop) _ r.1 in
      let r'' = or_else-none (first_sep 1 clause_seps text start stop) _ r'.1 in
      (first_sep-none 0 (space ∷ []) text start stop i r''.1).0
        (Occurs-char text start stop i 32 (at ∙ ap some blank) lo hi)
  search_window-none i h lo hi (c, at, inr newline) =
      let r = or_else-none (first_sep 0 newline_seps text start stop) _ h in
      (first_sep-none 0 newline_seps text start stop i r.0).1.0
        (Occurs-char text start stop i 10 (at ∙ ap some newline) lo hi)

abbrev searched : Text → ℕ → Option ℕ
searched text n = or_else (search_window text (min_index n) (n + 1)) (search_window text 0 (n + 1))

searched-Break : (text : Text) (n i : ℕ) → searched text n ≡ some i → Break text (n + 1) i
searched-Break text n i h = elim (or_else-some (search_window text (min_index n) (n + 1)) _ h) [
  | inl e ↦ search_window-Break text (min_index n) (n + 1) i e
  | inr e ↦ search_window-Break text 0 (n + 1) i e
]

-- The break index is at most `max_length`.
pub find_break_index-le : (text : Text) (n : ℕ) → find_break_index text n ≤ n
unfolding find_break_index
find_break_index-le text n = elim (Option-cases (searched text n)) [
  | inl e ↦ rw (e) (ground arith)
  | inr (i, e) ↦ let b = (searched-Break text n i e).0 in rw e (ground arith)
]

-- If some index up to `max_length` holds a blank or a newline, then the break index of a text that
-- is longer than `max_length` holds one: no word is cut where a break is at hand.
pub find_break_index-BlankAt :
    (text : Text) (n i : ℕ)
    → 0 < n
    → n < length text
    → i ≤ n
    → BlankAt text i
    → BlankAt text (find_break_index text n)
unfolding find_break_index
find_break_index-BlankAt text n i pos long le blank = elim (Option-cases (searched text n)) [
  | inl e ↦ absurd (
      search_window-none text 0 (n + 1) i
        (or_else-none (search_window text (min_index n) (n + 1)) _ e).1 (omega arith) (omega arith)
        blank)
  | inr (j, e) ↦
      let same : find_break_index text n ≡ j = ground (arith, e) in
      rw same (searched-Break text n j e).1
]
