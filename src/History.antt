-- ===== src/History.antt =====
-- app/utils/demand_value_history.py: the history of what a user needs and offers, a list of texts
-- with the times of their creation, and the edits of it.
pub mod Edits
pub mod Normal
pub mod Kept
pub mod Replay
mod Tests
use franklink.Prelude.{
  ℕ, ◌+◌, Bool, true, false, ◌&&◌, Option, none, some, List, [], ◌∷◌, ◌++◌, map, if◌then◌else◌, leb,
  ◌==◌,
}
use franklink.Text.{Text}
use franklink.Text.Strip.{strip}
use franklink.Text.Equal.{join}

-- A value of JSON: `nothing` is null or an empty list or object, and a zero that is no integer;
-- `other t` is any other value that is neither a text nor a natural number, and `t` is its `str`.
pub data Value : Type 0 where
  nothing : Value
  text : Text → Value
  integer : ℕ → Value
  boolean : Bool → Value
  other : Text → Value

-- An element of a history, before it is normalized.
pub data Item : Type 0 where
  entry : Value → Value → Item
  string : Text → Item
  neither : Item

-- `{"text": ..., "created_at": ...}`, the second key only if it is some.
pub record HistoryEntry : Type 0 where
  pub text : Text
  pub created_at : Option Text

-- `{"text": text}`, with `created_at` if that is not empty.
abbrev pub timed : Text → Text → HistoryEntry
timed t [] = record { text = t; created_at = none }
timed t (c ∷ created) = record { text = t; created_at = some (c ∷ created) }

-- `str` of an integer is a parameter.
module _ (shown : ℕ → Text) where
  abbrev pub str_or_empty : Value → Text
  str_or_empty nothing = []
  str_or_empty (Value.text t) = t
  str_or_empty (integer n) = if n == 0 then [] else shown n
  str_or_empty (boolean true) = 84 ∷ 114 ∷ 117 ∷ 101 ∷ []
  str_or_empty (boolean false) = []
  str_or_empty (other t) = t

  abbrev pub coerce_text : Value → Text
  coerce_text v = strip (str_or_empty v)

  abbrev pub keep_full : Text → Text → List HistoryEntry
  keep_full [] created = []
  keep_full (c ∷ t) created = timed (c ∷ t) created ∷ []

  abbrev pub normalize_item : Item → List HistoryEntry
  normalize_item (entry t created) = keep_full (coerce_text t) (coerce_text created)
  normalize_item (string t) = keep_full (strip t) []
  normalize_item neither = []

  unfoldable pub normalize_items : List Item → List HistoryEntry
  normalize_items [] = []
  normalize_items (item ∷ items) = normalize_item item ++ normalize_items items

  -- What is no list is no history.
  unfoldable pub normalize_history : Option (List Item) → List HistoryEntry
  unfolding normalize_items
  normalize_history none = []
  normalize_history (some items) = normalize_items items

  unfoldable pub last_text : List HistoryEntry → Option Text
  last_text [] = none
  last_text (e ∷ []) = some e.text
  last_text (e ∷ f ∷ es) = last_text (f ∷ es)

  unfoldable pub latest_text : Option (List Item) → Option Text
  unfolding normalize_history last_text
  latest_text history = last_text (normalize_history history)

  unfoldable pub all_texts : Option (List Item) → List Text
  unfolding normalize_history
  all_texts history = map (λ (e : HistoryEntry). e.text) (normalize_history history)

  unfoldable pub combine_texts : Text → Option (List Item) → Text
  unfolding all_texts
  combine_texts separator history = join separator (all_texts history)

  abbrev pub text_or_default : Text → Text → Text
  text_or_default default [] = default
  text_or_default default (c ∷ t) = c ∷ t

  unfoldable pub history_text : Text → Text → Option (List Item) → Text
  unfolding combine_texts
  history_text separator default history =
      text_or_default default (strip (combine_texts separator history))

-- `if created_at: entry["created_at"] = created_at.strip()`
abbrev pub stamped : Option Text → Text → HistoryEntry
stamped none t = record { text = t; created_at = none }
stamped (some []) t = record { text = t; created_at = none }
stamped (some (c ∷ created)) t = record { text = t; created_at = some (strip (c ∷ created)) }

abbrev pub text_of : Option Text → Text
text_of none = []
text_of (some t) = t

-- The new entry of a text that is not empty.
abbrev pub new_entry : Option Text → Text → List HistoryEntry
new_entry created_at [] = []
new_entry created_at (c ∷ t) = stamped created_at (c ∷ t) ∷ []

-- `append_history`, on a normalized history.
unfoldable pub append_entry : Option Text → Option Text → List HistoryEntry → List HistoryEntry
append_entry new created_at items = items ++ new_entry created_at (strip (text_of new))
