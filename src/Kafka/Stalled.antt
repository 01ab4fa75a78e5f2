-- ===== src/Kafka/Stalled.antt =====
-- A partition whose next offset does not come again.
use mathlib.Core.Path.{subst}
use franklink.Prelude.{
  ℕ, ◌≤◌, ◌<◌, ◌≡◌, ◌≢◌, ◌⊎◌, inl, inr, refl, sym, ◌∙◌, Bool, true, false, not, ◌&&◌, ◌||◌, List,
  [], ◌∷◌, arith, if◌then◌else◌, if_both, if_split, le→leb, ltb, leb, ◌==◌, Bool-cases, All,
}
use franklink.Kafka.Tracker.{
  Partition, CommitAnswer, member, add, contiguous_end, advance_commit, adjust_flow,
  current_gap_depth, begin_record, mark_finished, finish_record, new_generation,
  reconcile_assignment, begin_restart, end_restart, Step, begins, finishes, assigns, restarts,
  restarted, drains, perform, run,
}
use franklink.Kafka.Advance.{IsEnd, contiguous_end-IsEnd, member-add}

-- The tracker waits for offset `next`, which is not completed, and `commits` are the commits of this
-- consumer so far.
pub record Waits (next : ℕ) (commits : List ℕ) (p : Partition) : Type 0 where
  pub opened : p.tracker.initialized ≡ true
  pub at_next : p.tracker.next_offset ≡ next
  pub missing : member next p.tracker.completed ≡ false
  pub held : p.commits ≡ commits

-- A step that does not end the handling of offset `next`.
abbrev pub Elsewhere : ℕ → Step → Type 0
Elsewhere next (finishes offset generation handled answer succeeds) = next ≢ offset
Elsewhere next _ = Unit

either : (o n : ℕ) → (o < n) ⊎ (n ≤ o)
either o n = ground arith

module _ (next : ℕ) (commits : List ℕ) where
  no_block :
      (p : Partition)
      → Waits next commits p
      → contiguous_end p.tracker.completed p.tracker.next_offset ≤ p.tracker.next_offset
  no_block p w =
      let t = p.tracker in
      let block : IsEnd t.completed t.next_offset (contiguous_end t.completed t.next_offset) =
        contiguous_end-IsEnd t.completed t.next_offset in
      let absent : member t.next_offset t.completed ≡ false = rw (w.at_next) (w.missing) in
      elim (either t.next_offset (contiguous_end t.completed t.next_offset)) [
        | inr le ↦ le
        | inl lt ↦
            let present : true ≡ false =
              sym (block.through t.next_offset (omega arith) lt) ∙ absent in
            cc
      ]

  advance_commit-Waits :
      (p : Partition) (answer : CommitAnswer)
      → Waits next commits p
      → Waits next commits (advance_commit answer p)
  unfolding advance_commit
  advance_commit-Waits p answer w =
      let end : ℕ = contiguous_end p.tracker.completed p.tracker.next_offset in
      let stuck : leb end p.tracker.next_offset ≡ true =
        le→leb end p.tracker.next_offset (no_block p w) in
      if_both (Waits next commits) (not (p.connected && p.assigned)) _ _ w (
        if_split (Waits next commits) (leb end p.tracker.next_offset) _ _ (λ e. w)
          (λ e. let apart : true ≡ false = sym stuck ∙ e in cc))

  adjust_flow-Waits :
      (max_gap resume_watermark : ℕ) (p : Partition) (succeeds : Bool)
      → Waits next commits p
      → Waits next commits (adjust_flow max_gap resume_watermark succeeds p)
  unfolding adjust_flow
  adjust_flow-Waits max_gap resume_watermark p succeeds w =
      if_both (Waits next commits) (not (p.connected && p.assigned)) _ _ w (
        if_both (Waits next commits)
          (ltb max_gap (current_gap_depth p.tracker) && not p.tracker.paused_for_gap) _ _
          (if_both (Waits next commits) succeeds _ _
            (record { opened = w.opened; at_next = w.at_next; missing = w.missing; held = w.held })
            w)
          (if_both (Waits next commits)
            (p.tracker.paused_for_gap && leb (current_gap_depth p.tracker) resume_watermark) _ _
            (if_both (Waits next commits) succeeds _ _
              (record {
                opened = w.opened;
                at_next = w.at_next;
                missing = w.missing;
                held = w.held;
              })
              w)
            w))

  mark_finished-Waits :
      (p : Partition) (offset : ℕ) (completes : Bool)
      → next ≢ offset
      → Waits next commits p
      → Waits next commits (mark_finished offset completes p)
  unfolding mark_finished
  mark_finished-Waits p offset false apart w = (record {
    opened = w.opened;
    at_next = w.at_next;
    missing = w.missing;
    held = w.held;
  })
  mark_finished-Waits p offset true apart w = record {
    opened = w.opened;
    at_next = w.at_next;
    held = w.held;
    missing = elim (Bool-cases (member next (add offset p.tracker.completed))) [
      | inr e ↦ e
      | inl e ↦ elim (member-add next offset p.tracker.completed e) [
        | inl same ↦ absurd (apart same)
        | inr before ↦ let clash : true ≡ false = sym before ∙ w.missing in cc
      ]
    ];
  }

  module _ (max_gap resume_watermark : ℕ) where
    perform-Waits :
        (p : Partition) (step : Step)
        → Elsewhere next step
        → Waits next commits p
        → Waits next commits (perform max_gap resume_watermark step p)
    unfolding perform begin_record finish_record reconcile_assignment new_generation begin_restart
        end_restart
    perform-Waits p (begins offset) apart w = record {
      opened = refl;
      at_next =
          subst (λ b. (if b then p.tracker.next_offset else offset) ≡ next) (sym w.opened)
            w.at_next;
      missing = w.missing;
      held = w.held;
    }
    perform-Waits p (finishes offset generation handled answer succeeds) apart w =
        if_both (Waits next commits) (not (generation == p.tracker.generation_id)) _ _
          (mark_finished-Waits p offset false apart w)
          (adjust_flow-Waits max_gap resume_watermark
            (advance_commit answer (mark_finished offset handled p)) succeeds
            (advance_commit-Waits (mark_finished offset handled p) answer
              (mark_finished-Waits p offset handled apart w)))
    perform-Waits p (assigns current) apart w =
        if_both (Waits next commits) (not p.connected) _ _ w (
          if_both (Waits next commits) ((current && p.assigned) || (not current && not p.assigned))
            _ _ w
            (record { opened = w.opened; at_next = w.at_next; missing = w.missing; held = w.held }))
    perform-Waits p restarts apart w = (record {
      opened = w.opened;
      at_next = w.at_next;
      missing = w.missing;
      held = w.held;
    })
    perform-Waits p restarted apart w = (record {
      opened = w.opened;
      at_next = w.at_next;
      missing = w.missing;
      held = w.held;
    })
    perform-Waits p (drains answer) apart w = advance_commit-Waits p answer w

    -- A tracker that waits for an offset which does not come again never commits: whatever steps
    -- of this consumer follow, new assignments, restarts and the end of other records included,
    -- while none ends the handling of that offset, the tracker stays where it is and no further
    -- commit of this consumer is carried out.
    pub run-Waits :
        (steps : List Step) (p : Partition)
        → All (Elsewhere next) steps
        → Waits next commits p
        → Waits next commits (run max_gap resume_watermark steps p)
    unfolding run
    run-Waits [] p apart w = w
    run-Waits (step ∷ steps) p apart w =
        run-Waits steps (perform max_gap resume_watermark step p) apart.1
          (perform-Waits p step apart.0 w)
