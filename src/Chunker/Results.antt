-- ===== src/Chunker/Results.antt =====
-- What `chunk_message` promises of its list of chunks.
use mathlib.Core.List.{append_assoc, append-nil}
use mathlib.Core.Option
use franklink.Prelude.{
  ℕ, suc, ◌≤◌, ◌<◌, ◌≡◌, refl, ap, sym, ◌∙◌, inl, inr, List, [], ◌∷◌, ◌++◌, Option, none, some,
  arith, length, take, drop, length-append, Bool-cases, leb, leb→le, Returns, Returns-map, All,
  All-append, ◌==◌, max,
}
use franklink.Text.{Text}
use franklink.Text.Strip.{strip, visible, visible-strip}
use franklink.Chunker.{
  find_break_index, recut_two, finish_two, two_chunks, cut_piece, clip_last, at_limit, chunk_loop,
  non_empty, split_long, split_text, chunk_message,
}
use franklink.Chunker.Break.{find_break_index-le}
use franklink.Chunker.Loop.{
  strip-take-length-le, truncate-length-le, cut_piece-length-le, cut_piece-visible,
  clip_last-length-le, chunk_loop_inv,
}

abbrev pub Fits : ℕ → Text → Type 0
Fits n chunk = length chunk ≤ n

non_empty-All : (P : Text → Type 0) (chunks : List Text) → All P chunks → All P (non_empty chunks)
unfolding non_empty
non_empty-All P [] h = tt
non_empty-All P ([] ∷ chunks) h = non_empty-All P chunks h.1
non_empty-All P ((c ∷ s) ∷ chunks) h = (h.0, non_empty-All P chunks h.1)

-- What the chunks show, one after the other.
abbrev pub visible_all : List Text → List ℕ
visible_all [] = []
visible_all (t ∷ ts) = visible t ++ visible_all ts

visible_all-non_empty : (chunks : List Text) → visible_all (non_empty chunks) ≡ visible_all chunks
unfolding non_empty visible
visible_all-non_empty [] = refl
visible_all-non_empty ([] ∷ chunks) = visible_all-non_empty chunks
visible_all-non_empty ((c ∷ s) ∷ chunks) =
    ap (◌++◌ (visible (c ∷ s))) (visible_all-non_empty chunks)

visible_all-snoc :
    (chunks : List Text) (t : Text)
    → visible_all (chunks ++ t ∷ []) ≡ visible_all chunks ++ visible t
visible_all-snoc [] t = append-nil (visible t)
visible_all-snoc (s ∷ chunks) t =
    ap (◌++◌ (visible s)) (visible_all-snoc chunks t)
    ∙ sym (append_assoc (visible s) (visible_all chunks) (visible t))

non_empty-length-le : (chunks : List Text) → length (non_empty chunks) ≤ length chunks
unfolding non_empty
non_empty-length-le [] = omega arith
non_empty-length-le ([] ∷ chunks) = omega (arith, non_empty-length-le chunks)
non_empty-length-le ((c ∷ s) ∷ chunks) = omega (arith, non_empty-length-le chunks)

module _ (n : ℕ) (pos : 0 < n) where
  loop-Fits :
      (text : Text) (limit : Option ℕ)
      → Returns (All (Fits n)) (chunk_loop (suc (length text)) text n limit [])
  loop-Fits text limit =
      chunk_loop_inv n limit pos (λ chunks rest. All (Fits n) chunks) (All (Fits n)) (λ chunks h. h)
        (λ chunks rest le h. All-append (Fits n) chunks (rest ∷ []) h (le, tt))
        (λ chunks rest more h. All-append (Fits n) chunks _ h (cut_piece-length-le rest n, tt))
        (λ chunks rest full h. All-append (Fits n) chunks _ h (
          clip_last-length-le (cut_piece rest n).0 (cut_piece rest n).1 n
              (cut_piece-length-le rest n),
          tt,
        ))
        (suc (length text)) text [] (omega arith) tt

  loop_count :
      (text : Text) (k : ℕ)
      → 0 < k
      → Returns (λ r. length r ≤ k) (chunk_loop (suc (length text)) text n (some k) [])
  unfolding at_limit
  loop_count text k some_room =
      chunk_loop_inv n (some k) pos (λ chunks rest. length chunks < k) (λ r. length r ≤ k)
        (λ chunks h. omega arith)
        (λ chunks rest le h. omega (arith, length-append chunks (rest ∷ [])))
        (λ chunks rest more h. ground arith)
        (λ chunks rest full h. omega (
          arith,
          length-append chunks (clip_last (cut_piece rest n).0 (cut_piece rest n).1 n ∷ []),
        ))
        (suc (length text)) text [] (omega arith) some_room

  loop_visible :
      (text : Text)
      → Returns (λ r. visible_all r ≡ visible text) (chunk_loop (suc (length text)) text n none [])
  unfolding at_limit visible
  loop_visible text =
      chunk_loop_inv n none pos (λ chunks rest. visible_all chunks ++ visible rest ≡ visible text)
        (λ r. visible_all r ≡ visible text) (λ chunks h. sym (append-nil (visible_all chunks)) ∙ h)
        (λ chunks rest le h. visible_all-snoc chunks rest ∙ h)
        (λ chunks rest more h. after_cut chunks rest ∙ h) (λ chunks rest full h. cc)
        (suc (length text)) text [] (omega arith) refl
    where
      after_cut :
          (chunks : List Text) (rest : Text)
          → visible_all (chunks ++ (cut_piece rest n).0 ∷ []) ++ visible (cut_piece rest n).1
            ≡ visible_all chunks ++ visible rest
      after_cut chunks rest = rw (visible_all-snoc chunks (cut_piece rest n).0) (
          append_assoc (visible_all chunks) (visible (cut_piece rest n).0)
            (visible (cut_piece rest n).1)
          ∙ ap (◌++◌ (visible_all chunks)) (cut_piece-visible rest n))

-- The two chunks of the branch `max_chunks == 2`.
recut_two-Fits :
    (left right text : Text) (n : ℕ) → Fits n left → Fits n (recut_two left right text n).0
recut_two-Fits [] right text n h = strip-take-length-le text n
recut_two-Fits (c ∷ s) right text n h = h

finish_two-Fits : (left right : Text) (n : ℕ) → Fits n left → All (Fits n) (finish_two left right n)
finish_two-Fits left [] n h = (h, tt)
finish_two-Fits left (c ∷ s) n h = elim (Bool-cases (leb (length (c ∷ s)) n)) [
  | inl e ↦ rw e (h, (leb→le _ _ e, tt))
  | inr e ↦ rw e (h, (truncate-length-le (c ∷ s) n, tt))
]

finish_two-count : (left right : Text) (n : ℕ) → length (finish_two left right n) ≤ 2
finish_two-count left [] n = omega arith
finish_two-count left (c ∷ s) n = ground arith

two_chunks-Fits : (text : Text) (n : ℕ) → All (Fits n) (two_chunks text n)
unfolding two_chunks
two_chunks-Fits text n =
    let i = find_break_index text n in
    let halves = recut_two (strip (take i text)) (strip (drop i text)) text n in
    finish_two-Fits halves.0 halves.1 n (
      recut_two-Fits (strip (take i text)) (strip (drop i text)) text n
        (omega (arith, strip-take-length-le text i, find_break_index-le text n)))

two_chunks-count : (text : Text) (n : ℕ) → length (two_chunks text n) ≤ 2
unfolding two_chunks
two_chunks-count text n =
    let i = find_break_index text n in
    let halves = recut_two (strip (take i text)) (strip (drop i text)) text n in
    finish_two-count halves.0 halves.1 n

module _ (n : ℕ) (pos : 0 < n) (text : Text) where
  loop_chunks_fit :
      (limit : Option ℕ)
      → Returns
          (All (Fits n))
          (Option.map non_empty (chunk_loop (suc (length text)) text n limit []))
  loop_chunks_fit limit =
      Returns-map (All (Fits n)) (All (Fits n)) non_empty _ (non_empty-All (Fits n))
        (loop-Fits n pos text limit)

  split_long-Fits : (limit : Option ℕ) → Returns (All (Fits n)) (split_long text n limit)
  unfolding split_long
  split_long-Fits none = loop_chunks_fit none
  split_long-Fits (some k) = elim (Bool-cases (leb k 1)) [
    | inl e ↦ rw e (truncate-length-le text n, tt)
    | inr e ↦ elim (Bool-cases (k == 2)) [
      | inl two ↦ rw (e, two) (two_chunks-Fits text n)
      | inr more ↦ rw (e, more) (loop_chunks_fit (some k))
    ]
  ]

  split_long-count : (k : ℕ) → Returns (λ r. length r ≤ max 1 k) (split_long text n (some k))
  unfolding split_long
  split_long-count k = elim (Bool-cases (leb k 1)) [
    | inl e ↦ rw e (omega arith)
    | inr e ↦ elim (Bool-cases (k == 2)) [
      | inl two ↦ rw (e, two) (ground (arith, two_chunks-count text n))
      | inr more ↦
          rw (e, more)
            (Returns-map (λ r. length r ≤ k) (λ r. length r ≤ max 1 k) non_empty _
              (λ r le. omega (arith, non_empty-length-le r))
              (loop_count n pos text k (ground arith)))
    ]
  ]

  split_long-visible : Returns (λ r. visible_all r ≡ visible text) (split_long text n none)
  unfolding split_long
  split_long-visible =
      Returns-map (λ r. visible_all r ≡ visible text) (λ r. visible_all r ≡ visible text) non_empty
        _ (λ r e. visible_all-non_empty r ∙ e) (loop_visible n pos text)

-- `split_text` by its guards.
module _ (Q : List Text → Type 0) (n : ℕ) (limit : Option ℕ) where
  split_text_cases :
      (text : Text)
      → (text ≡ [] → Q [])
      → (n ≡ 0 → Q (text ∷ []))
      → (length text ≤ n → Q (text ∷ []))
      → (0 < n → Returns Q (split_long text n limit))
      → Returns Q (split_text text n limit)
  unfolding split_text
  split_text_cases [] on_empty on_zero on_short on_long = on_empty refl
  split_text_cases (c ∷ s) on_empty on_zero on_short on_long = elim (Bool-cases (n == 0)) [
    | inl e ↦ rw e (on_zero (ground arith))
    | inr e ↦ elim (Bool-cases (leb (length (c ∷ s)) n)) [
      | inl short ↦ rw (e, short) (on_short (leb→le _ _ short))
      | inr long ↦ rw (e, long) (on_long (ground arith))
    ]
  ]

-- For a positive `max_length`, whatever the limit on chunks, `chunk_message` returns a list of
-- chunks, none of which is longer than `max_length`.
pub chunk_message-Fits :
    (message : Text) (n : ℕ) (limit : Option ℕ)
    → 0 < n
    → Returns (All (Fits n)) (chunk_message message n limit)
unfolding chunk_message
chunk_message-Fits message n limit pos =
    split_text_cases (All (Fits n)) n limit (strip message) (λ e. tt) (λ e. absurd (omega arith))
      (λ le. (le, tt)) (λ p. split_long-Fits n p (strip message) limit)

-- With a limit of `k` chunks the list has at most `k` chunks where `k` is positive, and at most one
-- where `k` is 0.
pub chunk_message_count :
    (message : Text) (n k : ℕ)
    → Returns (λ r. length r ≤ max 1 k) (chunk_message message n (some k))
unfolding chunk_message
chunk_message_count message n k =
    split_text_cases (λ r. length r ≤ max 1 k) n (some k) (strip message) (λ e. omega arith)
      (λ e. omega arith) (λ le. omega arith) (λ p. split_long-count n p (strip message) k)

-- With no limit on chunks nothing is lost: the chunks hold the characters of the message in order,
-- up to white space.
pub chunk_message-visible :
    (message : Text) (n : ℕ)
    → Returns (λ r. visible_all r ≡ visible message) (chunk_message message n none)
unfolding chunk_message visible
chunk_message-visible message n =
    let whole = append-nil (visible (strip message)) ∙ visible-strip message in
    rw (← visible-strip message) (
      split_text_cases (λ r. visible_all r ≡ visible (strip message)) n none (strip message)
        (λ e. rw e) (λ e. append-nil (visible (strip message)))
        (λ le. append-nil (visible (strip message))) (λ p. split_long-visible n p (strip message)))
