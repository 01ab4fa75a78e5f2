-- ===== src/Text/Find.antt =====
-- `str.startswith` and `str.rfind` with a start and an end.
use franklink.Prelude.{
  ℕ, zero, suc, ◌≤◌, ◌<◌, ◌+◌, ◌≡◌, ◌⊎◌, Bool, true, false, ◌&&◌, inl, inr, List, [], ◌∷◌, arith,
  leb, ◌==◌, if◌then◌else◌, length, drop, Option, none, some, Bool-cases, get_elem?,
  get_elem?-some_lt,
}

unfoldable pub starts_with : List ℕ → List ℕ → Bool
starts_with [] s = true
starts_with (p ∷ ps) [] = false
starts_with (p ∷ ps) (c ∷ s) = p == c && starts_with ps s

-- Does `sep` stand at index `i` and end at `stop` or before? `s` is the text from `i` on.
abbrev found_at : List ℕ → List ℕ → ℕ → ℕ → ℕ → Bool
found_at sep s i start stop = leb start i && (leb (i + length sep) stop && starts_with sep s)

-- The last place from `i` on, and `last` if there is none. The separators are not empty.
unfoldable pub rfind_from : List ℕ → List ℕ → ℕ → ℕ → ℕ → Option ℕ → Option ℕ
unfolding starts_with
rfind_from sep [] i start stop last = last
rfind_from sep (c ∷ s) i start stop last =
    rfind_from sep s (suc i) start stop (if found_at sep (c ∷ s) i start stop then some i else last)

-- `text.rfind(sep, start, stop)`, with `none` for -1.
unfoldable pub rfind : List ℕ → List ℕ → ℕ → ℕ → Option ℕ
unfolding rfind_from
rfind sep text start stop = rfind_from sep text 0 start stop none

-- `sep` stands in `text` at index `i`, between `start` and `stop`.
pub record Occurs (sep text : List ℕ) (start stop i : ℕ) : Type 0 where
  pub from_start : start ≤ i
  pub to_stop : i + length sep ≤ stop
  pub inside : i < length text
  pub fits : starts_with sep (drop i text) ≡ true

-- The same of a text that stands at index `i` of another.
record OccursFrom (i : ℕ) (sep s : List ℕ) (start stop k : ℕ) : Type 0 where
  offset : ℕ
  at_offset : k ≡ i + offset
  from_start : start ≤ k
  to_stop : k + length sep ≤ stop
  inside : offset < length s
  fits : starts_with sep (drop offset s) ≡ true

OccursFrom-cons :
    (i c : ℕ) (sep s : List ℕ) (start stop k : ℕ)
    → OccursFrom (suc i) sep s start stop k
    → OccursFrom i sep (c ∷ s) start stop k
OccursFrom-cons i c sep s start stop k o = record {
  offset = suc o.offset;
  at_offset = omega (arith, o.at_offset);
  from_start = o.from_start;
  to_stop = o.to_stop;
  inside = omega (arith, o.inside);
  fits = o.fits;
}

OccursFrom-here :
    (i c : ℕ) (sep s : List ℕ) (start stop k : ℕ) (last : Option ℕ)
    → (if found_at sep (c ∷ s) i start stop then some i else last) ≡ some k
    → (last ≡ some k) ⊎ OccursFrom i sep (c ∷ s) start stop k
OccursFrom-here i c sep s start stop k last h =
    elim (Bool-cases (found_at sep (c ∷ s) i start stop)) [
      | inr e ↦ inl (rw e at h)
      | inl e ↦ inr (record {
        offset = 0;
        at_offset = ground arith;
        from_start = ground arith;
        to_stop = ground arith;
        inside = omega arith;
        fits = ground arith;
      })
    ]

rfind_from-some :
    (sep s : List ℕ) (i start stop k : ℕ) (last : Option ℕ)
    → rfind_from sep s i start stop last ≡ some k
    → (last ≡ some k) ⊎ OccursFrom i sep s start stop k
unfolding rfind_from
rfind_from-some sep [] i start stop k last h = inl h
rfind_from-some sep (c ∷ s) i start stop k last h =
    elim (rfind_from-some sep s (suc i) start stop k _ h) [
      | inl e ↦ OccursFrom-here i c sep s start stop k last e
      | inr o ↦ inr (OccursFrom-cons i c sep s start stop k o)
    ]

-- What `rfind` returns is an occurrence in the range.
pub rfind-Occurs :
    (sep text : List ℕ) (start stop i : ℕ)
    → rfind sep text start stop ≡ some i
    → Occurs sep text start stop i
unfolding rfind
rfind-Occurs sep text start stop i h = elim (rfind_from-some sep text 0 start stop i none h) [
  | inl e ↦ cc
  | inr o ↦
      let same : i ≡ o.offset = omega (arith, o.at_offset) in
      record {
        from_start = o.from_start;
        to_stop = o.to_stop;
        inside = omega (arith, o.inside);
        fits = rw same o.fits;
      }
]

-- No occurrence at index `i` or after, in a text that stands at index `i` of another.
abbrev NoneFrom : ℕ → List ℕ → List ℕ → ℕ → ℕ → Type 0
NoneFrom i sep s start stop =
    (k : ℕ) → k < length s → found_at sep (drop k s) (i + k) start stop ≡ false

NoneFrom-cons :
    (i c : ℕ) (sep s : List ℕ) (start stop : ℕ)
    → found_at sep (c ∷ s) i start stop ≡ false
    → NoneFrom (suc i) sep s start stop
    → NoneFrom i sep (c ∷ s) start stop
NoneFrom-cons i c sep s start stop here later zero lt = let e : i + 0 ≡ i = omega arith in rw e here
NoneFrom-cons i c sep s start stop here later (suc k) lt =
    let e : i + suc k ≡ suc i + k = omega arith in rw e (later k (omega arith))

none_here :
    (b : Bool) (i : ℕ) (last : Option ℕ)
    → (if b then some i else last) ≡ none
    → (last ≡ none) × (b ≡ false)
none_here b i last h = ground arith

rfind_from-none :
    (sep s : List ℕ) (i start stop : ℕ) (last : Option ℕ)
    → rfind_from sep s i start stop last ≡ none
    → (last ≡ none) × NoneFrom i sep s start stop
unfolding rfind_from
rfind_from-none sep [] i start stop last h = (h, λ k lt. elim lt [ ])
rfind_from-none sep (c ∷ s) i start stop last h =
    let later = rfind_from-none sep s (suc i) start stop _ h in
    let here = none_here (found_at sep (c ∷ s) i start stop) i last later.0 in
    (here.0, NoneFrom-cons i c sep s start stop here.1 later.1)

-- If `rfind` returns -1, the separator does not occur in the range.
pub rfind-none :
    (sep text : List ℕ) (start stop i : ℕ)
    → rfind sep text start stop ≡ none
    → ¬ Occurs sep text start stop i
unfolding rfind
rfind-none sep text start stop i h o =
    let missing = (rfind_from-none sep text 0 start stop none h).1 i o.inside in ground arith

-- A text that starts with `sep` has the characters of `sep`.
pub starts_with-get_elem? :
    (sep s : List ℕ) (i c : ℕ)
    → starts_with sep s ≡ true
    → get_elem? sep i ≡ some c
    → get_elem? s i ≡ some c
unfolding starts_with
starts_with-get_elem? [] s i c h e = cc
starts_with-get_elem? (p ∷ ps) [] i c h e = cc
starts_with-get_elem? (p ∷ ps) (d ∷ s) zero c h e = ground arith
starts_with-get_elem? (p ∷ ps) (d ∷ s) (suc i) c h e =
    starts_with-get_elem? ps s i c (ground arith) e

starts_with-drop :
    (s : List ℕ) (k c : ℕ) → get_elem? s k ≡ some c → starts_with (c ∷ []) (drop k s) ≡ true
unfolding starts_with
starts_with-drop [] k c e = cc
starts_with-drop (x ∷ s) zero c e = ground arith
starts_with-drop (x ∷ s) (suc k) c e = starts_with-drop s k c e

-- A character of the range is an occurrence of the separator that it makes.
pub Occurs-char :
    (text : List ℕ) (start stop i c : ℕ)
    → get_elem? text i ≡ some c
    → start ≤ i
    → i < stop
    → Occurs (c ∷ []) text start stop i
Occurs-char text start stop i c h lo hi = record {
  from_start = lo;
  to_stop = omega arith;
  inside = get_elem?-some_lt text i h;
  fits = starts_with-drop text i c h;
}
