-- ===== src/History/Replay.antt =====
-- The plan that is answered says what was done: carried out on the history, it gives the result.
use mathlib.Core.List.{append-nil, append_assoc}
use franklink.Prelude.{
  ℕ, ◌≡◌, refl, sym, ap, ◌∙◌, Option, none, some, List, [], ◌∷◌, ◌++◌, if_both, get_elem?,
}
use franklink.Text.{Text, codes}
use franklink.Text.Equal.{text_eq}
use franklink.History.{
  Item, normalize_history, HistoryEntry, timed, coerce_text, stamped, new_entry,
}
use franklink.History.Edits.{
  Edit, Applied, AppliedPlan, removed, replaced, appended, applied, Editing, set_entry, index_in,
  kept_from, created_text, op_of, in_range, coerce_index, remove_at, replace_at, edit_entry,
  edit_entries, appended_text, appended_entries, record_append, applied_appends, finished,
  apply_edits, EditPlan, edits_of, action_of, apply_value_history_edits,
}

-- The entries, the removed indices and the new entries while a plan is carried out.
pub record Replayed : Type 0 where
  pub entries : List HistoryEntry
  pub gone : List ℕ
  pub fresh_entries : List HistoryEntry

-- One step of the plan.
abbrev pub replay_one : Option Text → Applied → Replayed → Replayed
replay_one created_at (removed i) r = record r { gone = i ∷ r.gone }
replay_one created_at (replaced i t) r = record r {
  entries = set_entry i (timed t (created_text (get_elem? r.entries i))) r.entries;
}
replay_one created_at (appended t) r = record r {
  fresh_entries = r.fresh_entries ++ stamped created_at t ∷ [];
}

unfoldable pub replay_all : Option Text → List Applied → Replayed → Replayed
unfolding set_entry
replay_all created_at [] r = r
replay_all created_at (a ∷ done) r = replay_all created_at done (replay_one created_at a r)

-- The history after the plan: what is not removed, and then what is new.
unfoldable pub replay : Option Text → List Applied → List HistoryEntry → List HistoryEntry
unfolding replay_all kept_from
replay created_at done items =
    let r =
      replay_all created_at done (record { entries = items; gone = []; fresh_entries = [] }) in
    kept_from 0 r.gone r.entries ++ r.fresh_entries

replay_all-append :
    (created_at : Option Text) (done more : List Applied) (r : Replayed)
    → replay_all created_at (done ++ more) r
      ≡ replay_all created_at more (replay_all created_at done r)
unfolding replay_all
replay_all-append created_at [] more r = refl
replay_all-append created_at (a ∷ done) more r =
    replay_all-append created_at done more (replay_one created_at a r)

abbrev replayed_of : Editing → Replayed
replayed_of state = record {
  entries = state.updated;
  gone = state.removed_indices;
  fresh_entries = [];
}

module _ (shown : ℕ → Text) (int_of : Text → Option ℕ) (created_at : Option Text)
    (start : Replayed) where
  -- The state is what the plan so far gives.
  Agrees : Editing → Type 0
  Agrees state = replay_all created_at state.applied_edits start ≡ replayed_of state

  remove_at-Agrees :
      (o : Option ℕ) (state : Editing) → Agrees state → Agrees (remove_at shown int_of o state)
  unfolding Agrees replay_all
  remove_at-Agrees none state h = h
  remove_at-Agrees (some i) state h =
      replay_all-append created_at state.applied_edits (removed i ∷ []) start
      ∙ ap (replay_one created_at (removed i)) h

  replaced-Agrees :
      (i : ℕ) (t : Text) (state : Editing)
      → Agrees state
      → Agrees (record state {
        updated = set_entry i (timed t (created_text (get_elem? state.updated i))) state.updated;
        applied_edits = state.applied_edits ++ replaced i t ∷ [];
      })
  unfolding Agrees replay_all
  replaced-Agrees i t state h =
      replay_all-append created_at state.applied_edits (replaced i t ∷ []) start
      ∙ ap (replay_one created_at (replaced i t)) h

  replace_at-Agrees :
      (o : Option ℕ) (t : Text) (state : Editing)
      → Agrees state
      → Agrees (replace_at shown int_of o t state)
  replace_at-Agrees none t state h = h
  replace_at-Agrees (some i) [] state h = h
  replace_at-Agrees (some i) (c ∷ t) state h =
      if_both Agrees (index_in i state.removed_indices) _ _ h (replaced-Agrees i (c ∷ t) state h)

  edit_entry-Agrees :
      (e : Option Edit) (state : Editing) → Agrees state → Agrees (edit_entry shown int_of e state)
  unfolding edit_entry
  edit_entry-Agrees none state h = h
  edit_entry-Agrees (some e) state h =
      let at = in_range shown int_of (coerce_index shown int_of e.index) state.updated in
      if_both Agrees (text_eq (op_of shown int_of e) (codes "remove")) _ _
        (remove_at-Agrees at state h)
        (if_both Agrees (text_eq (op_of shown int_of e) (codes "replace")) _ _
          (replace_at-Agrees at (coerce_text shown e.text) state h) h)

  edit_entries-Agrees :
      (es : List (Option Edit)) (state : Editing)
      → Agrees state
      → Agrees (edit_entries shown int_of es state)
  unfolding edit_entries
  edit_entries-Agrees [] state h = h
  edit_entries-Agrees (e ∷ es) state h =
      edit_entries-Agrees es (edit_entry shown int_of e state) (edit_entry-Agrees e state h)

module _ (shown : ℕ → Text) (int_of : Text → Option ℕ) (created_at : Option Text) where
  -- The appended texts, one at a time.
  record_append-replay :
      (t : Text) (r : Replayed)
      → replay_all created_at (record_append shown int_of t) r
        ≡ record r { fresh_entries = r.fresh_entries ++ new_entry created_at t }
  unfolding replay_all
  record_append-replay [] r =
      ap (λ es. record r { fresh_entries = es }) (sym (append-nil r.fresh_entries))
  record_append-replay (c ∷ t) r = refl

  applied_appends-replay :
      (es : List (Option Edit)) (r : Replayed)
      → replay_all created_at (applied_appends shown int_of es) r ≡ record r {
        fresh_entries = r.fresh_entries ++ appended_entries shown int_of created_at es;
      }
  unfolding applied_appends appended_entries replay_all
  applied_appends-replay [] r =
      ap (λ es. record r { fresh_entries = es }) (sym (append-nil r.fresh_entries))
  applied_appends-replay (e ∷ es) r =
      replay_all-append created_at (record_append shown int_of (appended_text shown int_of e))
        (applied_appends shown int_of es) r
      ∙ ap (replay_all created_at (applied_appends shown int_of es))
          (record_append-replay (appended_text shown int_of e) r)
      ∙ applied_appends-replay es _
      ∙ ap (λ xs. record r { fresh_entries = xs })
          (append_assoc r.fresh_entries (new_entry created_at (appended_text shown int_of e))
            (appended_entries shown int_of created_at es))

  -- An answer whose plan was carried out is the result.
  finished-applied :
      (fallback : Option Text) (items result : List HistoryEntry) (all done : List Applied)
      → (finished shown int_of fallback created_at items result all).1 ≡ applied done
      → (all ≡ done) × ((finished shown int_of fallback created_at items result all).0 ≡ result)
  finished-applied fallback items result (a ∷ all) done h = (cc, refl)
  finished-applied none items result [] done h = (cc, refl)
  finished-applied (some []) items result [] done h = (cc, refl)
  finished-applied (some (c ∷ t)) items result [] done h = cc

  apply_edits-replay :
      (items : List HistoryEntry) (edits : List (Option Edit)) (fallback : Option Text)
      (done : List Applied)
      → (apply_edits shown int_of items edits fallback created_at).1 ≡ applied done
      → (apply_edits shown int_of items edits fallback created_at).0 ≡ replay created_at done items
  unfolding apply_edits replay Agrees replay_all
  apply_edits-replay items edits fallback done h =
      let first : Editing = record { updated = items; removed_indices = []; applied_edits = [] } in
      let state = edit_entries shown int_of edits first in
      let (same, answer) = finished-applied fallback items _ _ done h in
      let start : Replayed = replayed_of first in
      let ends =
        replay_all-append created_at state.applied_edits (applied_appends shown int_of edits) start
        ∙ ap (replay_all created_at (applied_appends shown int_of edits))
            (edit_entries-Agrees shown int_of created_at start edits first refl)
        ∙ applied_appends-replay edits (replayed_of state) in
      answer
      ∙ ap (λ (r : Replayed). kept_from 0 r.gone r.entries ++ r.fresh_entries)
          (sym ends ∙ ap (λ d. replay_all created_at d start) same)

  Replays : List HistoryEntry → List Applied → List HistoryEntry × AppliedPlan → Type 0
  Replays items done r = r.1 ≡ applied done → r.0 ≡ replay created_at done items

  -- Where the answered plan is one of edits, those edits, carried out in their order on the
  -- normalized history, give the answered history: the replacements keep the time of an entry, what
  -- is removed is left out after them, and what is new comes last.
  pub apply_value_history_edits-replay :
      (history : Option (List Item)) (plan : Option EditPlan) (fallback : Option Text)
      (done : List Applied)
      → (apply_value_history_edits shown int_of history plan fallback created_at).1 ≡ applied done
      → (apply_value_history_edits shown int_of history plan fallback created_at).0
        ≡ replay created_at done (normalize_history shown history)
  unfolding apply_value_history_edits Replays
  apply_value_history_edits-replay history plan fallback done =
      if_both (Replays (normalize_history shown history) done)
        (text_eq (action_of shown int_of plan) (codes "clear")) _ _ (λ h. cc)
        (if_both (Replays (normalize_history shown history) done)
          (text_eq (action_of shown int_of plan) (codes "none")) _ _ (λ h. cc)
          (apply_edits-replay (normalize_history shown history) (edits_of shown int_of plan)
            fallback done))
