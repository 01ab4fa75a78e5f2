-- ===== src/Chunker/Tests.antt =====
-- Runs of the chunker, and its theorems at concrete messages.
use franklink.Prelude.{◌≡◌, ◌≤◌, refl, [], ◌∷◌, none, some, arith, All, Returns, length, inl, max}
use franklink.Text.{Text, codes}
use franklink.Text.Strip.{is_space, lstrip, rstrip, strip, visible}
use franklink.Text.Find.{starts_with, rfind}
use franklink.Chunker.{
  find_break_index, truncate, cut_piece, two_chunks, chunk_loop, non_empty, chunk_message,
}
use franklink.Chunker.Break.{BlankAt, find_break_index-BlankAt}
use franklink.Chunker.Results.{
  Fits, visible_all, chunk_message-Fits, chunk_message_count, chunk_message-visible,
}

abbrev note : Text
note = codes " Met Ana today. She knows ML, and wants to meet you "

runs_free :
    chunk_message note 20 none
    ≡ some (
        codes "Met Ana today."
        ∷ codes "She knows ML,"
        ∷ codes "and wants to meet"
        ∷ codes "you"
        ∷ [])
unfolding chunk_message chunk_loop cut_piece find_break_index rfind starts_with strip lstrip rstrip
    is_space non_empty
runs_free = refl

runs_two :
    chunk_message note 20 (some 2) ≡ some (codes "Met Ana today." ∷ codes "She knows ML,…" ∷ [])
unfolding chunk_message two_chunks truncate find_break_index rfind starts_with strip lstrip rstrip
    is_space
runs_two = refl

runs_one : chunk_message note 20 (some 1) ≡ some (codes "Met Ana today.…" ∷ [])
unfolding chunk_message truncate find_break_index rfind starts_with strip lstrip rstrip is_space
runs_one = refl

find_break_index-BlankAt_example : BlankAt note (find_break_index note 20)
find_break_index-BlankAt_example =
    find_break_index-BlankAt note 20 4 (omega arith) (omega arith) (omega arith)
      (32, refl, inl refl)

chunk_message-Fits_example : Returns (All (Fits 20)) (chunk_message note 20 (some 3))
chunk_message-Fits_example = chunk_message-Fits note 20 (some 3) (omega arith)

chunk_message_count_example : Returns (λ r. length r ≤ max 1 3) (chunk_message note 20 (some 3))
chunk_message_count_example = chunk_message_count note 20 3

chunk_message-visible_example :
    Returns (λ r. visible_all r ≡ visible note) (chunk_message note 20 none)
chunk_message-visible_example = chunk_message-visible note 20
