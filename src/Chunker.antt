-- ===== src/Chunker.antt =====
-- app/utils/message_chunker.py: long replies are split at natural boundaries. `max_length` and
-- `max_chunks` are natural numbers: a negative one takes the branches of 0 in the source.
pub mod Break
pub mod Loop
pub mod Results
mod Tests
use franklink.Prelude.{
  ℕ, zero, suc, ◌+◌, ◌-◌, ◌*◌, ◌/◌, min, max, List, [], ◌∷◌, ◌++◌, Option, none, some, Bool, true,
  false, leb, ◌==◌, if◌then◌else◌, length, take, drop,
}
use mathlib.Core.Option
use franklink.Text.{Text}
use franklink.Text.Strip.{strip, rstrip}
use franklink.Text.Find.{rfind}

abbrev newline_seps : List Text
newline_seps = (10 ∷ 10 ∷ []) ∷ (10 ∷ []) ∷ []

-- ".\n", "!\n", "…\n", ". ", "! ", "… "
abbrev sentence_seps : List Text
sentence_seps =
    (46 ∷ 10 ∷ [])
    ∷ (33 ∷ 10 ∷ [])
    ∷ (8230 ∷ 10 ∷ [])
    ∷ (46 ∷ 32 ∷ [])
    ∷ (33 ∷ 32 ∷ [])
    ∷ (8230 ∷ 32 ∷ [])
    ∷ []

-- ";\n", ":\n", ",\n", "; ", ": ", ", "
abbrev clause_seps : List Text
clause_seps =
    (59 ∷ 10 ∷ [])
    ∷ (58 ∷ 10 ∷ [])
    ∷ (44 ∷ 10 ∷ [])
    ∷ (59 ∷ 32 ∷ [])
    ∷ (58 ∷ 32 ∷ [])
    ∷ (44 ∷ 32 ∷ [])
    ∷ []

abbrev space : Text
space = 32 ∷ []

abbrev or_else {ℓ} : {A : Type ℓ} → Option A → Option A → Option A
or_else none y = y
or_else (some a) y = some a

-- The `for sep in (...)` loop: the first separator that occurs decides, and the index of its last
-- occurrence plus `offset` is returned.
first_sep : ℕ → List Text → Text → ℕ → ℕ → Option ℕ
first_sep offset [] text start stop = none
first_sep offset (sep ∷ seps) text start stop = elim (rfind sep text start stop) [
  | some i ↦ some (i + offset)
  | none ↦ first_sep offset seps text start stop
]

search_window : Text → ℕ → ℕ → Option ℕ
unfolding first_sep
search_window text start stop = or_else (first_sep 0 newline_seps text start stop) (
    or_else (first_sep 1 sentence_seps text start stop) (
      or_else (first_sep 1 clause_seps text start stop) (first_sep 0 (space ∷ []) text start stop)))

-- `int(max_length * 0.55)` is exact as long as `max_length` is below 2^48: the float 0.55 is a
-- little above 55/100, by less than what could carry a product over the next integer.
min_index : ℕ → ℕ
min_index max_length = max 0 (min (max_length * 55 / 100) (max_length - 1))

abbrev or_cut : Option ℕ → ℕ → ℕ
or_cut none n = n
or_cut (some i) n = i

unfoldable pub find_break_index : Text → ℕ → ℕ
unfolding search_window min_index
find_break_index text max_length =
    if max_length == 0
    then 0
    else if leb (length text) max_length
    then length text
    else or_cut
        (or_else (search_window text (min_index max_length) (max_length + 1))
          (search_window text 0 (max_length + 1)))
        max_length

abbrev pub suffix : Text
suffix = 8230 ∷ []

truncate_cut : Text → ℕ → ℕ
truncate_cut s cut_limit = let i = find_break_index s cut_limit in if leb i 0 then cut_limit else i

unfoldable pub truncate : Text → ℕ → Text
unfolding truncate_cut
truncate text max_length =
    if max_length == 0
    then []
    else let s = strip text in
      if leb (length s) max_length
      then s
      else if leb max_length (length suffix)
      then take max_length suffix
      else strip (rstrip (take (truncate_cut s (max_length - length suffix)) s) ++ suffix)

-- One cut of `remaining`: the piece, and what remains. An empty piece is cut again, hard.
abbrev recut : Text → Text → ℕ → Text × Text
recut [] rest max_length = (strip (take max_length rest), strip (drop max_length rest))
recut (c ∷ s) rest max_length = (c ∷ s, rest)

unfoldable pub cut_piece : Text → ℕ → Text × Text
cut_piece remaining max_length =
    let i = find_break_index remaining max_length in
    recut (strip (take i remaining)) (strip (drop i remaining)) max_length

-- The last chunk when the limit on chunks is reached.
unfoldable pub clip_last : Text → Text → ℕ → Text
clip_last piece [] max_length = piece
clip_last piece (c ∷ s) max_length = truncate (piece ++ 32 ∷ c ∷ s) max_length

unfoldable pub at_limit : ℕ → Option ℕ → Bool
at_limit n none = false
at_limit n (some max_chunks) = leb max_chunks n

-- The `while remaining` loop. `none` means that the fuel ran out.
unfoldable pub chunk_loop : ℕ → Text → ℕ → Option ℕ → List Text → Option (List Text)
unfolding at_limit
chunk_loop zero remaining max_length max_chunks chunks = none
chunk_loop (suc fuel) [] max_length max_chunks chunks = some chunks
chunk_loop (suc fuel) (c ∷ s) max_length max_chunks chunks =
    let (piece, rest) = cut_piece (c ∷ s) max_length in
    let again = chunk_loop fuel rest max_length max_chunks (chunks ++ piece ∷ []) in
    if leb (length (c ∷ s)) max_length
    then some (chunks ++ (c ∷ s) ∷ [])
    else if at_limit (length (chunks ++ piece ∷ [])) max_chunks
    then some (chunks ++ clip_last piece rest max_length ∷ [])
    else again

-- `[c for c in chunks if c]`
unfoldable pub non_empty : List Text → List Text
non_empty [] = []
non_empty ([] ∷ chunks) = non_empty chunks
non_empty ((c ∷ s) ∷ chunks) = (c ∷ s) ∷ non_empty chunks

abbrev recut_two : Text → Text → Text → ℕ → Text × Text
recut_two [] right text max_length = (strip (take max_length text), strip (drop max_length text))
recut_two (c ∷ s) right text max_length = (c ∷ s, right)

abbrev finish_two : Text → Text → ℕ → List Text
finish_two left [] max_length = left ∷ []
finish_two left (c ∷ s) max_length =
    if leb (length (c ∷ s)) max_length
    then left ∷ (c ∷ s) ∷ []
    else left ∷ truncate (c ∷ s) max_length ∷ []

-- The branch of `max_chunks == 2`.
unfoldable pub two_chunks : Text → ℕ → List Text
two_chunks text max_length =
    let i = find_break_index text max_length in
    let (left, right) = recut_two (strip (take i text)) (strip (drop i text)) text max_length in
    finish_two left right max_length

-- What is left of `chunk_message` for a text longer than `max_length`.
split_long : Text → ℕ → Option ℕ → Option (List Text)
split_long text max_length none =
    Option.map non_empty (chunk_loop (suc (length text)) text max_length none [])
split_long text max_length (some max_chunks) =
    if leb max_chunks 1
    then some (truncate text max_length ∷ [])
    else if max_chunks == 2
    then some (two_chunks text max_length)
    else Option.map non_empty (chunk_loop (suc (length text)) text max_length (some max_chunks) [])

split_text : Text → ℕ → Option ℕ → Option (List Text)
unfolding split_long
split_text [] max_length max_chunks = some []
split_text (c ∷ s) max_length max_chunks =
    if max_length == 0
    then some ((c ∷ s) ∷ [])
    else if leb (length (c ∷ s)) max_length
    then some ((c ∷ s) ∷ [])
    else split_long (c ∷ s) max_length max_chunks

unfoldable pub chunk_message : Text → ℕ → Option ℕ → Option (List Text)
unfolding split_text
chunk_message message max_length max_chunks = split_text (strip message) max_length max_chunks
