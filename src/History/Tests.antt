-- ===== src/History/Tests.antt =====
-- An edited history.
use franklink.Prelude.{ℕ, ◌+◌, ◌≡◌, refl, Option, none, some, List, [], ◌∷◌, map}
use franklink.Text.{Text, codes}
use franklink.Text.Strip.{is_space, lstrip, rstrip, strip}
use franklink.Text.Equal.{text_eq}
use franklink.History.{
  Value, nothing, text, integer, Item, entry, string, HistoryEntry, normalize_items,
  normalize_history, append_entry,
}
use franklink.History.Edits.{
  Edit, EditPlan, applied, removed, replaced, appended, set_entry, index_in, kept_from, edit_entry,
  edit_entries, appended_entries, applied_appends, apply_edits, apply_value_history_edits,
}
use franklink.History.Normal.{stored_item}
use franklink.History.Replay.{replay, apply_value_history_edits-replay}
use franklink.History.Kept.{normalize_history-apply_value_history_edits}

-- One digit.
abbrev digit : ℕ → Text
digit n = (48 + n) ∷ []

abbrev no_number : Text → Option ℕ
no_number t = none

abbrev offers : Option (List Item)
offers = some (
    string (codes " chess ")
    ∷ entry (text (codes "go")) (text (codes "May"))
    ∷ entry (text (codes " ")) nothing
    ∷ entry (text (codes "piano")) nothing
    ∷ [])

abbrev edit_of : Text → Value → Text → Edit
edit_of op index t = record { op = text op; action = nothing; index = index; text = text t }

abbrev plan : Option EditPlan
plan = some (record {
  action = nothing;
  edits = some (
      some (edit_of (codes "Append") nothing (codes "cello"))
      ∷ some (edit_of (codes "remove") (integer 0) [])
      ∷ some (edit_of (codes "replace") (integer 1) (codes " shogi"))
      ∷ some (edit_of (codes "replace") (integer 0) (codes "lost"))
      ∷ []);
})

abbrev expected : List HistoryEntry
expected =
    record { text = codes "shogi"; created_at = some (codes "May") }
    ∷ record { text = codes "piano"; created_at = none }
    ∷ record { text = codes "cello"; created_at = some (codes "June") }
    ∷ []

edited :
    apply_value_history_edits digit no_number offers plan none (some (codes "June"))
    ≡ (expected, applied (removed 0 ∷ replaced 1 (codes "shogi") ∷ appended (codes "cello") ∷ []))
unfolding apply_value_history_edits apply_edits edit_entries edit_entry set_entry index_in kept_from
    appended_entries applied_appends append_entry normalize_history normalize_items strip lstrip
    rstrip is_space text_eq
edited = refl

normalize_history-apply_value_history_edits_example :
    normalize_history digit (some (map stored_item expected)) ≡ expected
unfolding apply_value_history_edits apply_edits edit_entries edit_entry set_entry index_in kept_from
    appended_entries applied_appends append_entry normalize_history normalize_items strip lstrip
    rstrip is_space text_eq
normalize_history-apply_value_history_edits_example =
    normalize_history-apply_value_history_edits digit no_number (some (codes "June")) (λ h. cc)
      offers plan none

apply_value_history_edits-replay_example :
    expected
    ≡ replay
        (some (codes "June"))
        (removed 0 ∷ replaced 1 (codes "shogi") ∷ appended (codes "cello") ∷ [])
        (normalize_history digit offers)
unfolding apply_value_history_edits apply_edits edit_entries edit_entry set_entry index_in kept_from
    appended_entries applied_appends append_entry normalize_history normalize_items strip lstrip
    rstrip is_space text_eq
apply_value_history_edits-replay_example =
    apply_value_history_edits-replay digit no_number (some (codes "June")) offers plan none
      (removed 0 ∷ replaced 1 (codes "shogi") ∷ appended (codes "cello") ∷ []) refl
