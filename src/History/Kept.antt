-- ===== src/History/Kept.antt =====
-- The edits keep a history normal, so that what they store is read back as it is.
use mathlib.Core.List.{nil≢cons}
use franklink.Prelude.{
  ℕ, zero, suc, ◌≡◌, ◌≢◌, refl, sym, Option, none, some, List, [], ◌∷◌, map, All, All-append,
  if_both, get_elem?,
}
use franklink.Text.{Text, codes}
use franklink.Text.Strip.{strip}
use franklink.Text.Equal.{text_eq}
use franklink.History.Normal.{
  IsTrimmed, IsTrimmedOrNone, IsNormal, NotBlank, stored_item, strip-IsTrimmed, timed-IsNormal,
  new_entry-IsNormal, normalize-IsNormal, normalize-stored,
}
use franklink.History.{
  Item, HistoryEntry, coerce_text, normalize_history, text_of, new_entry, append_entry,
}
use franklink.History.Edits.{
  Edit, EditPlan, Applied, AppliedPlan, Editing, set_entry, index_in, kept_from, created_text,
  op_of, in_range, remove_at, coerce_index, replace_at, edit_entry, edit_entries, appended_text,
  appended_entries, edits_of, action_of, finished, apply_edits, apply_value_history_edits,
}

set_entry-IsNormal :
    (i : ℕ) (e : HistoryEntry) (es : List HistoryEntry)
    → IsNormal e
    → All IsNormal es
    → All IsNormal (set_entry i e es)
unfolding set_entry
set_entry-IsNormal i e [] h hs = tt
set_entry-IsNormal zero e (f ∷ es) h hs = (h, hs.1)
set_entry-IsNormal (suc i) e (f ∷ es) h hs = (hs.0, set_entry-IsNormal i e es h hs.1)

kept_from-IsNormal :
    (i : ℕ) (gone : List ℕ) (es : List HistoryEntry)
    → All IsNormal es
    → All IsNormal (kept_from i gone es)
unfolding kept_from
kept_from-IsNormal i gone [] hs = tt
kept_from-IsNormal i gone (e ∷ es) hs =
    let rest = kept_from-IsNormal (suc i) gone es hs.1 in
    if_both (All IsNormal) (index_in i gone) _ _ rest (hs.0, rest)

text_of-IsTrimmed :
    (created : Option Text)
    → IsTrimmedOrNone created
    → text_of created ≢ []
    → IsTrimmed (text_of created)
text_of-IsTrimmed none h full = absurd (full refl)
text_of-IsTrimmed (some t) h full = h

-- The time of an entry that is replaced.
created_text-IsTrimmed :
    (i : ℕ) (es : List HistoryEntry)
    → All IsNormal es
    → created_text (get_elem? es i) ≢ []
    → IsTrimmed (created_text (get_elem? es i))
created_text-IsTrimmed i [] hs full = absurd (full refl)
created_text-IsTrimmed zero (e ∷ es) hs full = text_of-IsTrimmed e.created_at hs.0.1 full
created_text-IsTrimmed (suc i) (e ∷ es) hs full = created_text-IsTrimmed i es hs.1 full

-- The entries that are answered are normal.
AnswerNormal : List HistoryEntry × AppliedPlan → Type 0
AnswerNormal r = All IsNormal r.0

-- The entries that are edited stay normal.
UpdatedNormal : Editing → Type 0
UpdatedNormal state = All IsNormal state.updated

module _ (shown : ℕ → Text) (int_of : Text → Option ℕ) where
  remove_at-IsNormal :
      (o : Option ℕ) (state : Editing)
      → UpdatedNormal state
      → UpdatedNormal (remove_at shown int_of o state)
  unfolding UpdatedNormal
  remove_at-IsNormal none state hs = hs
  remove_at-IsNormal (some i) state hs = hs

  replace_at-IsNormal :
      (o : Option ℕ) (t : Text) (state : Editing)
      → (t ≢ [] → IsTrimmed t)
      → UpdatedNormal state
      → UpdatedNormal (replace_at shown int_of o t state)
  unfolding UpdatedNormal
  replace_at-IsNormal none t state h hs = hs
  replace_at-IsNormal (some i) [] state h hs = hs
  replace_at-IsNormal (some i) (c ∷ t) state h hs =
      if_both UpdatedNormal (index_in i state.removed_indices) _ _ hs (
        set_entry-IsNormal i _ state.updated
          (timed-IsNormal (c ∷ t) _ (h (λ e. nil≢cons (sym e)))
            (created_text-IsTrimmed i state.updated hs))
          hs)

  edit_entry-IsNormal :
      (e : Option Edit) (state : Editing)
      → UpdatedNormal state
      → UpdatedNormal (edit_entry shown int_of e state)
  unfolding edit_entry
  edit_entry-IsNormal none state hs = hs
  edit_entry-IsNormal (some e) state hs =
      let at = in_range shown int_of (coerce_index shown int_of e.index) state.updated in
      if_both UpdatedNormal (text_eq (op_of shown int_of e) (codes "remove")) _ _
        (remove_at-IsNormal at state hs)
        (if_both UpdatedNormal (text_eq (op_of shown int_of e) (codes "replace")) _ _
          (replace_at-IsNormal at (coerce_text shown e.text) state (strip-IsTrimmed _) hs) hs)

  edit_entries-IsNormal :
      (es : List (Option Edit)) (state : Editing)
      → UpdatedNormal state
      → UpdatedNormal (edit_entries shown int_of es state)
  unfolding edit_entries
  edit_entries-IsNormal [] state hs = hs
  edit_entries-IsNormal (e ∷ es) state hs =
      edit_entries-IsNormal es (edit_entry shown int_of e state) (edit_entry-IsNormal e state hs)

  appended_text-IsTrimmed :
      (e : Option Edit)
      → appended_text shown int_of e ≢ []
      → IsTrimmed (appended_text shown int_of e)
  appended_text-IsTrimmed none = λ full. absurd (full refl)
  appended_text-IsTrimmed (some e) =
      if_both (λ t. t ≢ [] → IsTrimmed t) (text_eq (op_of shown int_of e) (codes "append")) _ _
        (strip-IsTrimmed _) (λ full. absurd (full refl))

  module _ (created_at : Option Text) (ok : NotBlank created_at) where
    appended_entries-IsNormal :
        (es : List (Option Edit)) → All IsNormal (appended_entries shown int_of created_at es)
    unfolding appended_entries
    appended_entries-IsNormal [] = tt
    appended_entries-IsNormal (e ∷ es) =
        All-append IsNormal (new_entry created_at (appended_text shown int_of e))
          (appended_entries shown int_of created_at es)
          (new_entry-IsNormal created_at _ ok (appended_text-IsTrimmed e))
          (appended_entries-IsNormal es)

    finished-IsNormal :
        (fallback : Option Text) (items result : List HistoryEntry) (done : List Applied)
        → All IsNormal items
        → All IsNormal result
        → All IsNormal (finished shown int_of fallback created_at items result done).0
    unfolding append_entry
    finished-IsNormal fallback items result (a ∷ done) hs h = h
    finished-IsNormal none items result [] hs h = h
    finished-IsNormal (some []) items result [] hs h = h
    finished-IsNormal (some (c ∷ t)) items result [] hs h =
        All-append IsNormal items (new_entry created_at (strip (c ∷ t))) hs
          (new_entry-IsNormal created_at (strip (c ∷ t)) ok (strip-IsTrimmed (c ∷ t)))

    apply_edits-IsNormal :
        (items : List HistoryEntry) (edits : List (Option Edit)) (fallback : Option Text)
        → All IsNormal items
        → All IsNormal (apply_edits shown int_of items edits fallback created_at).0
    unfolding apply_edits UpdatedNormal
    apply_edits-IsNormal items edits fallback hs = finished-IsNormal fallback items _ _ hs (
        All-append IsNormal _ (appended_entries shown int_of created_at edits)
          (kept_from-IsNormal 0 _ _ (edit_entries-IsNormal edits _ hs))
          (appended_entries-IsNormal edits))

    apply-IsNormal :
        (history : Option (List Item)) (plan : Option EditPlan) (fallback : Option Text)
        → AnswerNormal (apply_value_history_edits shown int_of history plan fallback created_at)
    unfolding apply_value_history_edits AnswerNormal
    apply-IsNormal history plan fallback =
        if_both AnswerNormal (text_eq (action_of shown int_of plan) (codes "clear")) _ _ tt (
          if_both AnswerNormal (text_eq (action_of shown int_of plan) (codes "none")) _ _
            (normalize-IsNormal shown history)
            (apply_edits-IsNormal (normalize_history shown history) (edits_of shown int_of plan)
              fallback (normalize-IsNormal shown history)))

    -- Whatever the history and the plan of edits hold, the edited history is read back unchanged
    -- once it is stored, if the time of the edit is not blank but for being empty or missing.
    pub normalize_history-apply_value_history_edits :
        (history : Option (List Item)) (plan : Option EditPlan) (fallback : Option Text)
        → normalize_history shown (
            some (
              map stored_item
                (apply_value_history_edits shown int_of history plan fallback created_at).0))
          ≡ (apply_value_history_edits shown int_of history plan fallback created_at).0
    unfolding AnswerNormal
    normalize_history-apply_value_history_edits history plan fallback =
        normalize-stored shown _ (apply-IsNormal history plan fallback)
