-- ===== src/Chunker/Loop.antt =====
-- One cut and the loop of cuts: lengths, progress, and a rule for invariants of the loop.
use franklink.Prelude.{
  ℕ, zero, suc, ◌+◌, ◌-◌, ◌≤◌, ◌<◌, ◌≡◌, refl, ap, sym, ◌∙◌, inl, inr, List, [], ◌∷◌, ◌++◌, Option,
  true, false, arith, length, take, drop, length-take, length-drop, length-append, take-append-drop,
  Bool-cases, leb, leb→le, Returns,
}
use franklink.Text.{Text}
use franklink.Text.Strip.{
  strip, rstrip, visible, strip-length-le, rstrip-length-le, visible-append, visible-strip,
}
use franklink.Chunker.{
  find_break_index, suffix, truncate_cut, truncate, recut, cut_piece, clip_last, at_limit,
  chunk_loop,
}
use franklink.Chunker.Break.{find_break_index-le}

-- A text cut by `text[:i].strip()` and `text[i:].strip()`.
module _ (text : Text) (i : ℕ) where
  pub strip-take-length-le : length (strip (take i text)) ≤ i
  strip-take-length-le = omega (arith, strip-length-le (take i text), length-take i text)

  pub strip-drop-length-le : length (strip (drop i text)) ≤ length text - i
  strip-drop-length-le = omega (arith, strip-length-le (drop i text), length-drop i text)

  pub visible-strip-take-drop :
      visible (strip (take i text)) ++ visible (strip (drop i text)) ≡ visible text
  visible-strip-take-drop =
      rw (visible-strip (take i text), visible-strip (drop i text))
        (sym (visible-append (take i text) (drop i text)) ∙ ap visible (take-append-drop i text))

truncate_cut-le : (s : Text) (n : ℕ) → truncate_cut s n ≤ n
unfolding truncate_cut
truncate_cut-le s n = ground (arith, find_break_index-le s n)

truncated-length-le : (s : Text) (i : ℕ) → length (strip (rstrip (take i s) ++ suffix)) ≤ i + 1
truncated-length-le s i = omega (
  arith,
  strip-length-le (rstrip (take i s) ++ suffix),
  length-append (rstrip (take i s)) suffix,
  rstrip-length-le (take i s),
  length-take i s,
)

-- A truncated text fits.
pub truncate-length-le : (text : Text) (n : ℕ) → length (truncate text n) ≤ n
unfolding truncate
truncate-length-le text n = ground (
  arith,
  length-take n suffix,
  truncate_cut-le (strip text) (n - 1),
  truncated-length-le (strip text) (truncate_cut (strip text) (n - 1)),
)

recut-length-le : (piece rest : Text) (n : ℕ) → length piece ≤ n → length (recut piece rest n).0 ≤ n
recut-length-le [] rest n h = strip-take-length-le rest n
recut-length-le (c ∷ s) rest n h = h

recut-visible :
    (piece rest : Text) (n : ℕ)
    → visible (recut piece rest n).0 ++ visible (recut piece rest n).1
      ≡ visible piece ++ visible rest
unfolding visible
recut-visible [] rest n = visible-strip-take-drop rest n
recut-visible (c ∷ s) rest n = refl

-- What remains is shorter if the piece is not empty or what remained already was.
recut-shrinks :
    (piece rest : Text) (n : ℕ) {bound : ℕ}
    → 0 < n
    → length piece + length rest ≤ bound
    → 0 < bound
    → length (recut piece rest n).1 < bound
recut-shrinks [] rest n pos le lt = omega (arith, strip-drop-length-le rest n)
recut-shrinks (c ∷ s) rest n pos le lt = omega arith

module _ (text : Text) (n : ℕ) where
  pub cut_piece-length-le : length (cut_piece text n).0 ≤ n
  unfolding cut_piece
  cut_piece-length-le =
      let i = find_break_index text n in
      recut-length-le (strip (take i text)) (strip (drop i text)) n
        (omega (arith, strip-take-length-le text i, find_break_index-le text n))

  pub cut_piece-visible :
      visible (cut_piece text n).0 ++ visible (cut_piece text n).1 ≡ visible text
  unfolding cut_piece
  cut_piece-visible =
      let i = find_break_index text n in
      recut-visible (strip (take i text)) (strip (drop i text)) n ∙ visible-strip-take-drop text i

  pub cut_piece-shrinks : 0 < n → 0 < length text → length (cut_piece text n).1 < length text
  unfolding cut_piece
  cut_piece-shrinks pos some_text =
      let i = find_break_index text n in
      recut-shrinks (strip (take i text)) (strip (drop i text)) n pos
        (omega (
          arith,
          strip-length-le (take i text),
          strip-length-le (drop i text),
          length-take i text,
          length-drop i text,
        ))
        some_text

pub clip_last-length-le :
    (piece rest : Text) (n : ℕ) → length piece ≤ n → length (clip_last piece rest n) ≤ n
unfolding clip_last
clip_last-length-le piece [] n h = h
clip_last-length-le piece (c ∷ s) n h = truncate-length-le (piece ++ 32 ∷ c ∷ s) n

-- With fuel for every character the loop returns; `P` is its invariant and `Q` its result.
module _ (n : ℕ) (limit : Option ℕ) (pos : 0 < n) (P : List Text → Text → Type 0)
    (Q : List Text → Type 0) (done : (chunks : List Text) → P chunks [] → Q chunks)
    (fits : (chunks : List Text) (rest : Text)
      → length rest ≤ n
      → P chunks rest
      → Q (chunks ++ rest ∷ []))
    (next : (chunks : List Text) (rest : Text)
      → at_limit (length (chunks ++ (cut_piece rest n).0 ∷ [])) limit ≡ false
      → P chunks rest
      → P (chunks ++ (cut_piece rest n).0 ∷ []) (cut_piece rest n).1)
    (stop : (chunks : List Text) (rest : Text)
      → at_limit (length (chunks ++ (cut_piece rest n).0 ∷ [])) limit ≡ true
      → P chunks rest
      → Q (chunks ++ clip_last (cut_piece rest n).0 (cut_piece rest n).1 n ∷ [])) where
  pub chunk_loop_inv :
      (fuel : ℕ) (rest : Text) (chunks : List Text)
      → length rest < fuel
      → P chunks rest
      → Returns Q (chunk_loop fuel rest n limit chunks)
  unfolding chunk_loop
  chunk_loop_inv zero rest chunks lt h = elim lt [ ]
  chunk_loop_inv (suc fuel) [] chunks lt h = done chunks h
  chunk_loop_inv (suc fuel) (c ∷ s) chunks lt h =
      let whole = c ∷ s in
      let piece = (cut_piece (c ∷ s) n).0 in
      elim (Bool-cases (leb (length whole) n)) [
        | inl e ↦ rw e (fits chunks whole (leb→le _ _ e) h)
        | inr e ↦ elim (Bool-cases (at_limit (length (chunks ++ piece ∷ [])) limit)) [
          | inl full ↦ rw (e, full) (stop chunks whole full h)
          | inr open_ ↦
              rw (e, open_)
                (chunk_loop_inv fuel (cut_piece whole n).1 (chunks ++ piece ∷ [])
                  (omega (arith, cut_piece-shrinks whole n pos (omega arith)))
                  (next chunks whole open_ h))
        ]
      ]
