-- ===== src/History/Edits.antt =====
-- `apply_value_history_edits`: first the removals and replacements, by the indices of the history as
-- it was, then the removed entries are left out, and then texts are appended.
use franklink.Prelude.{
  ℕ, zero, suc, ◌+◌, Bool, true, false, not, ◌&&◌, ◌||◌, Option, none, some, List, [], ◌∷◌, ◌++◌,
  if◌then◌else◌, leb, ltb, ◌==◌, length, map, get_elem?,
}
use franklink.Text.{Text, codes}
use franklink.Text.Strip.{strip}
use franklink.Text.Equal.{text_eq}
use franklink.History.{
  Value, nothing, integer, boolean, other, Item, HistoryEntry, coerce_text, normalize_history,
  new_entry, text_of, append_entry, timed,
}

-- `{"op": ..., "action": ..., "index": ..., "text": ...}`; a key that is missing is null.
pub record Edit : Type 0 where
  pub op : Value
  pub action : Value
  pub index : Value
  pub text : Value

-- `edits` is none if it is no list, and an element none if it is no object.
pub record EditPlan : Type 0 where
  pub action : Value
  pub edits : Option (List (Option Edit))

pub data Applied : Type 0 where
  removed : ℕ → Applied
  replaced : ℕ → Text → Applied
  appended : Text → Applied

pub data AppliedPlan : Type 0 where
  cleared : AppliedPlan
  unchanged : AppliedPlan
  applied : List Applied → AppliedPlan
  append_fallback : Text → AppliedPlan

-- The state of the first loop.
pub record Editing : Type 0 where
  pub updated : List HistoryEntry
  pub removed_indices : List ℕ
  pub applied_edits : List Applied

-- `.lower()`, as far as a comparison with a lower-case word without the letter k can tell.
abbrev pub lower : Text → Text
lower t = map (λ c. if leb 65 c && leb c 90 then c + 32 else c) t

unfoldable pub set_entry : ℕ → HistoryEntry → List HistoryEntry → List HistoryEntry
set_entry i e [] = []
set_entry zero e (f ∷ es) = e ∷ es
set_entry (suc i) e (f ∷ es) = f ∷ set_entry i e es

unfoldable pub index_in : ℕ → List ℕ → Bool
index_in i [] = false
index_in i (j ∷ js) = i == j || index_in i js

-- The entries from index `i` on that are not removed.
unfoldable pub kept_from : ℕ → List ℕ → List HistoryEntry → List HistoryEntry
unfolding index_in
kept_from i gone [] = []
kept_from i gone (e ∷ es) =
    let rest = kept_from (suc i) gone es in if index_in i gone then rest else e ∷ rest

-- The replacement keeps the time of the entry.
abbrev pub created_text : Option HistoryEntry → Text
created_text none = []
created_text (some e) = text_of e.created_at

-- `str` of an integer, and `isdigit` with `int` of a text, are parameters: `int_of` gives the number
-- of a text for which `isdigit` holds. Texts whose digits `int` refuses, such as a superscript two,
-- at which the source raises ValueError, are outside of the model.
module _ (shown : ℕ → Text) (int_of : Text → Option ℕ) where
  abbrev pub coerce_index : Value → Option ℕ
  coerce_index (integer n) = some n
  coerce_index (boolean true) = some 1
  coerce_index (boolean false) = some 0
  coerce_index (Value.text t) = int_of t
  coerce_index _ = none

  -- `raw.get("op") or raw.get("action")`
  abbrev pub op_value : Edit → Value
  op_value e = elim (truthy e.op) [ true ↦ e.op | false ↦ e.action ]
    where
      truthy : Value → Bool
      truthy nothing = false
      truthy (Value.text []) = false
      truthy (Value.text (c ∷ t)) = true
      truthy (integer n) = not (n == 0)
      truthy (boolean b) = b
      truthy (other t) = true

  abbrev pub op_of : Edit → Text
  op_of e = lower (coerce_text shown (op_value e))

  abbrev pub in_range : Option ℕ → List HistoryEntry → Option ℕ
  in_range none items = none
  in_range (some i) items = if ltb i (length items) then some i else none

  abbrev pub remove_at : Option ℕ → Editing → Editing
  remove_at none state = state
  remove_at (some i) state = record state {
    removed_indices = i ∷ state.removed_indices;
    applied_edits = state.applied_edits ++ removed i ∷ [];
  }

  abbrev pub replace_at : Option ℕ → Text → Editing → Editing
  replace_at none t state = state
  replace_at (some i) [] state = state
  replace_at (some i) (c ∷ t) state =
      if index_in i state.removed_indices then state else record state {
        updated =
            set_entry i (timed (c ∷ t) (created_text (get_elem? state.updated i))) state.updated;
        applied_edits = state.applied_edits ++ replaced i (c ∷ t) ∷ [];
      }

  -- The body of the first loop.
  unfoldable pub edit_entry : Option Edit → Editing → Editing
  unfolding set_entry index_in
  edit_entry none state = state
  edit_entry (some e) state =
      if text_eq (op_of e) (codes "remove")
      then remove_at (in_range (coerce_index e.index) state.updated) state
      else if text_eq (op_of e) (codes "replace")
      then replace_at (in_range (coerce_index e.index) state.updated) (coerce_text shown e.text)
          state
      else state

  unfoldable pub edit_entries : List (Option Edit) → Editing → Editing
  edit_entries [] state = state
  edit_entries (e ∷ es) state = edit_entries es (edit_entry e state)

  abbrev pub appended_text : Option Edit → Text
  appended_text none = []
  appended_text (some e) =
      if text_eq (op_of e) (codes "append") then coerce_text shown e.text else []

  -- The second loop: the entries that are appended, and the record of it.
  unfoldable pub appended_entries : Option Text → List (Option Edit) → List HistoryEntry
  appended_entries created_at [] = []
  appended_entries created_at (e ∷ es) =
      new_entry created_at (appended_text e) ++ appended_entries created_at es

  abbrev pub record_append : Text → List Applied
  record_append [] = []
  record_append (c ∷ t) = appended (c ∷ t) ∷ []

  unfoldable pub applied_appends : List (Option Edit) → List Applied
  applied_appends [] = []
  applied_appends (e ∷ es) = record_append (appended_text e) ++ applied_appends es

  abbrev pub edits_of : Option EditPlan → List (Option Edit)
  edits_of none = []
  edits_of (some plan) = elim plan.edits [ none ↦ [] | some edits ↦ edits ]

  abbrev pub action_of : Option EditPlan → Text
  action_of none = []
  action_of (some plan) = lower (coerce_text shown plan.action)

  -- What is answered if nothing was applied, and otherwise.
  abbrev pub finished :
      Option Text
      → Option Text
      → List HistoryEntry
      → List HistoryEntry
      → List Applied
      → List HistoryEntry × AppliedPlan
  finished fallback created_at items result (a ∷ done) = (result, applied (a ∷ done))
  finished none created_at items result [] = (result, applied [])
  finished (some []) created_at items result [] = (result, applied [])
  finished (some (c ∷ t)) created_at items result [] =
      (append_entry (some (c ∷ t)) created_at items, append_fallback (strip (c ∷ t)))

  unfoldable pub apply_edits :
      List HistoryEntry
      → List (Option Edit)
      → Option Text
      → Option Text
      → List HistoryEntry × AppliedPlan
  unfolding edit_entries kept_from appended_entries applied_appends append_entry
  apply_edits items edits fallback created_at =
      let state =
        edit_entries edits (record { updated = items; removed_indices = []; applied_edits = [] }) in
      finished fallback created_at items
        (kept_from 0 state.removed_indices state.updated ++ appended_entries created_at edits)
        (state.applied_edits ++ applied_appends edits)

  unfoldable pub apply_value_history_edits :
      Option (List Item)
      → Option EditPlan
      → Option Text
      → Option Text
      → List HistoryEntry × AppliedPlan
  unfolding apply_edits
  apply_value_history_edits history plan fallback created_at =
      let items = normalize_history shown history in
      if text_eq (action_of plan) (codes "clear")
      then ([], cleared)
      else if text_eq (action_of plan) (codes "none")
      then (items, unchanged)
      else apply_edits items (edits_of plan) fallback created_at
