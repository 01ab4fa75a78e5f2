-- ===== src/Kafka/Committed.antt =====
-- Which offsets a commit covers.
use mathlib.Core.Path.{subst}
use franklink.Prelude.{
  ℕ, ◌-◌, ◌≤◌, ◌<◌, ◌≡◌, ◌⊎◌, inl, inr, refl, Bool, true, false, not, ◌&&◌, ◌||◌, List, [], ◌∷◌,
  arith, if◌then◌else◌, if_both, ltb, leb, ◌==◌,
}
use franklink.Kafka.Tracker.{
  Partition, CommitAnswer, confirmed, unconfirmed, rejected, member, contiguous_end, commit_to,
  advance_commit, adjust_flow, current_gap_depth, begin_record, mark_finished, finish_record,
  new_generation, reconcile_assignment, begin_restart, end_restart, Step, begins, finishes, assigns,
  restarts, restarted, drains, perform, run,
}
use franklink.Kafka.Advance.{contiguous_end-IsEnd, member-add, member-discard_range}

-- `handled` lists the offsets whose handler succeeded, or whose event was sent on to be tried again.
pub record Safe (start : ℕ) (handled : List ℕ) (p : Partition) : Type 0 where
  pub opened : p.tracker.initialized ≡ true
  pub done : (o : ℕ) → start ≤ o → o < p.tracker.next_offset → member o handled ≡ true
  pub marked : (o : ℕ) → member o p.tracker.completed ≡ true → member o handled ≡ true
  pub broker :
      (end : ℕ)
      → member end p.commits ≡ true
      → (o : ℕ) → start ≤ o
      → o < end
      → member o handled ≡ true

-- The offsets that a list of steps adds to those handled.
abbrev note : Step → List ℕ → List ℕ
note (finishes offset generation true answer succeeds) handled = offset ∷ handled
note _ handled = handled

unfoldable pub handled_after : List Step → List ℕ → List ℕ
handled_after [] handled = handled
handled_after (step ∷ steps) handled = handled_after steps (note step handled)

either : (o n : ℕ) → (o < n) ⊎ (n ≤ o)
either o n = ground arith

member-uncons : (e k : ℕ) (xs : List ℕ) → member e (k ∷ xs) ≡ true → (k ≡ e) ⊎ (member e xs ≡ true)
unfolding member
member-uncons e k xs h = ground arith

member-cons : (o k : ℕ) (xs : List ℕ) → member o xs ≡ true → member o (k ∷ xs) ≡ true
unfolding member
member-cons o k xs h = ground arith

member_head : (k : ℕ) (xs : List ℕ) → member k (k ∷ xs) ≡ true
unfolding member
member_head k xs = ground arith

module _ (start : ℕ) where
  -- The offsets below the end of a block are handled, if those of the tracker are.
  below_end :
      (handled : List ℕ) (p : Partition)
      → Safe start handled p
      → (o : ℕ) → start ≤ o
      → o < contiguous_end p.tracker.completed p.tracker.next_offset
      → member o handled ≡ true
  below_end handled p s o low high = elim (either o p.tracker.next_offset) [
    | inl early ↦ s.done o low early
    | inr late ↦
        s.marked o
          ((contiguous_end-IsEnd p.tracker.completed p.tracker.next_offset).through o late high)
  ]

  one_more :
      (handled : List ℕ) (p : Partition) (end : ℕ)
      → Safe start handled p
      → ((o : ℕ) → start ≤ o → o < end → member o handled ≡ true)
      → (e : ℕ) → member e (end ∷ p.commits) ≡ true
      → (o : ℕ) → start ≤ o
      → o < e
      → member o handled ≡ true
  one_more handled p end s below e m o low high = elim (member-uncons e end p.commits m) [
    | inl same ↦ below o low (omega (arith, same))
    | inr before ↦ s.broker e before o low high
  ]

  commit_to-Safe :
      (handled : List ℕ) (p : Partition) (end : ℕ) (answer : CommitAnswer)
      → Safe start handled p
      → ((o : ℕ) → start ≤ o → o < end → member o handled ≡ true)
      → Safe start handled (commit_to end answer p)
  unfolding commit_to
  commit_to-Safe handled p end rejected s below = s
  commit_to-Safe handled p end unconfirmed s below = record {
    opened = s.opened;
    done = s.done;
    marked = s.marked;
    broker = λ e m o low high. one_more handled p end s below e m o low high;
  }
  commit_to-Safe handled p end confirmed s below = record {
    opened = s.opened;
    done = below;
    marked = λ o m. s.marked o (
        member-discard_range o (end - p.tracker.next_offset) p.tracker.next_offset
          p.tracker.completed m);
    broker = λ e m o low high. one_more handled p end s below e m o low high;
  }

  advance_commit-Safe :
      (handled : List ℕ) (p : Partition) (answer : CommitAnswer)
      → Safe start handled p
      → Safe start handled (advance_commit answer p)
  unfolding advance_commit
  advance_commit-Safe handled p answer s =
      if_both (Safe start handled) (not (p.connected && p.assigned)) _ _ s (
        if_both (Safe start handled)
          (leb (contiguous_end p.tracker.completed p.tracker.next_offset) p.tracker.next_offset) _ _
          s (commit_to-Safe handled p _ answer s (below_end handled p s)))

  adjust_flow-Safe :
      (max_gap resume_watermark : ℕ) (handled : List ℕ) (p : Partition) (succeeds : Bool)
      → Safe start handled p
      → Safe start handled (adjust_flow max_gap resume_watermark succeeds p)
  unfolding adjust_flow
  adjust_flow-Safe max_gap resume_watermark handled p succeeds s =
      if_both (Safe start handled) (not (p.connected && p.assigned)) _ _ s (
        if_both (Safe start handled)
          (ltb max_gap (current_gap_depth p.tracker) && not p.tracker.paused_for_gap) _ _
          (if_both (Safe start handled) succeeds _ _
            (record { opened = s.opened; done = s.done; marked = s.marked; broker = s.broker }) s)
          (if_both (Safe start handled)
            (p.tracker.paused_for_gap && leb (current_gap_depth p.tracker) resume_watermark) _ _
            (if_both (Safe start handled) succeeds _ _
              (record { opened = s.opened; done = s.done; marked = s.marked; broker = s.broker }) s)
            s))

  begin_record-Safe :
      (handled : List ℕ) (p : Partition) (offset : ℕ)
      → Safe start handled p
      → Safe start handled (begin_record offset p).1
  unfolding begin_record
  begin_record-Safe handled p offset s = record {
    opened = refl;
    done = λ o low high.
        s.done o low (subst (λ b. o < (if b then p.tracker.next_offset else offset)) s.opened high);
    marked = s.marked;
    broker = s.broker;
  }

  -- One more offset is handled.
  Safe-more :
      (handled : List ℕ) (p : Partition) (offset : ℕ)
      → Safe start handled p
      → Safe start (offset ∷ handled) p
  Safe-more handled p offset s = record {
    opened = s.opened;
    done = λ o low high. member-cons o offset handled (s.done o low high);
    marked = λ o m. member-cons o offset handled (s.marked o m);
    broker = λ e same o low high. member-cons o offset handled (s.broker e same o low high);
  }

  mark_finished-Safe :
      (handled : List ℕ) (p : Partition) (offset : ℕ) (completes : Bool)
      → Safe start handled p
      → (completes ≡ true → member offset handled ≡ true)
      → Safe start handled (mark_finished offset completes p)
  unfolding mark_finished
  mark_finished-Safe handled p offset false s m = record {
    opened = s.opened;
    done = s.done;
    marked = s.marked;
    broker = s.broker;
  }
  mark_finished-Safe handled p offset true s m = record {
    opened = s.opened;
    done = s.done;
    broker = s.broker;
    marked = λ o added. elim (member-add o offset p.tracker.completed added) [
      | inl same ↦ rw same (m refl)
      | inr before ↦ s.marked o before
    ];
  }

  module _ (max_gap resume_watermark : ℕ) where
    finish-Safe :
        (handled : List ℕ) (p : Partition) (offset generation : ℕ) (completes : Bool)
        (answer : CommitAnswer) (succeeds : Bool)
        → Safe start handled p
        → (completes ≡ true → member offset handled ≡ true)
        → Safe start handled
            (finish_record max_gap resume_watermark offset generation completes answer succeeds p)
    unfolding finish_record
    finish-Safe handled p offset generation completes answer succeeds s m =
        if_both (Safe start handled) (not (generation == p.tracker.generation_id)) _ _
          (mark_finished-Safe handled p offset false s (λ e. cc))
          (adjust_flow-Safe max_gap resume_watermark handled
            (advance_commit answer (mark_finished offset completes p)) succeeds
            (advance_commit-Safe handled (mark_finished offset completes p) answer
              (mark_finished-Safe handled p offset completes s m)))

    finish_record-Safe :
        (handled : List ℕ) (p : Partition) (offset generation : ℕ) (done : Bool)
        (answer : CommitAnswer) (succeeds : Bool)
        → Safe start handled p
        → Safe start
            (note (finishes offset generation done answer succeeds) handled)
            (finish_record max_gap resume_watermark offset generation done answer succeeds p)
    finish_record-Safe handled p offset generation true answer succeeds s =
        finish-Safe (offset ∷ handled) p offset generation true answer succeeds
          (Safe-more handled p offset s) (λ e. member_head offset handled)
    finish_record-Safe handled p offset generation false answer succeeds s =
        finish-Safe handled p offset generation false answer succeeds s (λ e. cc)

    perform-Safe :
        (handled : List ℕ) (p : Partition) (step : Step)
        → Safe start handled p
        → Safe start (note step handled) (perform max_gap resume_watermark step p)
    unfolding perform reconcile_assignment begin_restart end_restart new_generation
    perform-Safe handled p (begins offset) s = begin_record-Safe handled p offset s
    perform-Safe handled p (finishes offset generation done answer succeeds) s =
        finish_record-Safe handled p offset generation done answer succeeds s
    perform-Safe handled p (assigns current) s =
        if_both (Safe start handled) (not p.connected) _ _ s (
          if_both (Safe start handled) ((current && p.assigned) || (not current && not p.assigned))
            _ _ s
            (record { opened = s.opened; done = s.done; marked = s.marked; broker = s.broker }))
    perform-Safe handled p restarts s = record {
      opened = s.opened;
      done = s.done;
      marked = s.marked;
      broker = s.broker;
    }
    perform-Safe handled p restarted s = record {
      opened = s.opened;
      done = s.done;
      marked = s.marked;
      broker = s.broker;
    }
    perform-Safe handled p (drains answer) s = advance_commit-Safe handled p answer s

    -- Nothing is committed before it is handled: after any steps of a partition, with stale tasks,
    -- commits that fail, new assignments and restarts, every offset from `start` on that a commit
    -- covers, or that the tracker counts as committed, was handled, if this is so before them.
    pub run-Safe :
        (steps : List Step) (handled : List ℕ) (p : Partition)
        → Safe start handled p
        → Safe start (handled_after steps handled) (run max_gap resume_watermark steps p)
    unfolding run handled_after
    run-Safe [] handled p s = s
    run-Safe (step ∷ steps) handled p s =
        run-Safe steps (note step handled) (perform max_gap resume_watermark step p)
          (perform-Safe handled p step s)
