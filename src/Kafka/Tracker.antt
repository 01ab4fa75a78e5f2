-- ===== src/Kafka/Tracker.antt =====
-- `_PartitionTracker` and the methods of `KafkaInboundConsumer` on one partition, with keyed
-- concurrency. An offset `-1` of the source is avoided by keeping the number after an offset:
-- `next_offset` is `last_committed + 1`, the offset that a commit sends, and `seen_end` is
-- `max_seen_offset + 1`.
use franklink.Prelude.{
  ℕ, zero, suc, ◌-◌, max, Bool, true, false, not, ◌&&◌, ◌||◌, List, [], ◌∷◌, if◌then◌else◌, ltb,
  leb, ◌==◌, length,
}

-- `offset in set`, `set.add` and `set.discard`
unfoldable pub member : ℕ → List ℕ → Bool
member k [] = false
member k (x ∷ xs) = x == k || member k xs

unfoldable pub add : ℕ → List ℕ → List ℕ
unfolding member
add k xs = if member k xs then xs else k ∷ xs

unfoldable pub discard : ℕ → List ℕ → List ℕ
discard k [] = []
discard k (x ∷ xs) = let rest = discard k xs in if x == k then rest else x ∷ rest

pub record Tracker : Type 0 where
  pub next_offset : ℕ
  pub initialized : Bool
  pub completed : List ℕ
  pub inflight : List ℕ
  pub seen_end : ℕ
  pub paused_for_gap : Bool
  pub generation_id : ℕ

-- A partition as the consumer sees it: is there a consumer, and is the partition in
-- `_assignment_snapshot`? `commits` records the commits of this consumer that the broker has carried
-- out, the newest first. Other consumers of the group may commit as well, which nothing here sees.
pub record Partition : Type 0 where
  pub connected : Bool
  pub assigned : Bool
  pub tracker : Tracker
  pub commits : List ℕ

abbrev pub new_tracker : Tracker
new_tracker = record {
  next_offset = 0;
  initialized = false;
  completed = [];
  inflight = [];
  seen_end = 0;
  paused_for_gap = false;
  generation_id = 0;
}

-- The answer of `consumer.commit`: it is confirmed, or raises; and then the broker has carried it
-- out or not.
pub data CommitAnswer : Type 0 where
  confirmed unconfirmed rejected : CommitAnswer

-- `while candidate in tracker.completed: candidate += 1`, on fuel.
unfoldable pub scan : ℕ → List ℕ → ℕ → ℕ
unfolding member
scan zero completed candidate = candidate
scan (suc fuel) completed candidate =
    let rest = scan fuel completed (suc candidate) in
    if member candidate completed then rest else candidate

-- The fuel is enough: the candidates that the loop passes are different items of the set.
unfoldable pub contiguous_end : List ℕ → ℕ → ℕ
unfolding scan
contiguous_end completed candidate = scan (length completed) completed candidate

-- `for done_offset in range(start, start + n): completed.discard(done_offset)`
unfoldable pub discard_range : ℕ → ℕ → List ℕ → List ℕ
unfolding discard
discard_range zero start completed = completed
discard_range (suc n) start completed = discard_range n (suc start) (discard start completed)

unfoldable pub commit_to : ℕ → CommitAnswer → Partition → Partition
unfolding discard_range
commit_to end rejected p = p
commit_to end unconfirmed p = record p { commits = end ∷ p.commits }
commit_to end confirmed p =
    let t = p.tracker in
    record p {
      commits = end ∷ p.commits;
      tracker = record t {
        next_offset = end;
        completed = discard_range (end - t.next_offset) t.next_offset t.completed;
      };
    }

-- `_advance_commit_locked`
unfoldable pub advance_commit : CommitAnswer → Partition → Partition
unfolding contiguous_end commit_to
advance_commit answer p =
    let end = contiguous_end p.tracker.completed p.tracker.next_offset in
    if not (p.connected && p.assigned)
    then p
    else if leb end p.tracker.next_offset
    then p
    else commit_to end answer p

-- `_current_gap_depth`
unfoldable pub current_gap_depth : Tracker → ℕ
current_gap_depth t = if ltb t.seen_end t.next_offset then 0 else t.seen_end - t.next_offset

-- `_maybe_adjust_partition_flow_locked`. A call of `pause` or `resume` that raises changes nothing.
unfoldable pub adjust_flow : ℕ → ℕ → Bool → Partition → Partition
unfolding current_gap_depth
adjust_flow max_gap resume_watermark succeeds p =
    let t = p.tracker in
    let depth = current_gap_depth t in
    let paused = record p { tracker = record t { paused_for_gap = true } } in
    let resumed = record p { tracker = record t { paused_for_gap = false } } in
    if not (p.connected && p.assigned)
    then p
    else if ltb max_gap depth && not t.paused_for_gap
    then (if succeeds then paused else p)
    else if t.paused_for_gap && leb depth resume_watermark
    then (if succeeds then resumed else p)
    else p

-- `_handle_record` up to the handler. The generation is what the task remembers.
unfoldable pub begin_record : ℕ → Partition → ℕ × Partition
unfolding add
begin_record offset p =
    let t = p.tracker in
    let started = record t {
      next_offset = if t.initialized then t.next_offset else offset;
      initialized = true;
      inflight = add offset t.inflight;
      seen_end = max t.seen_end (suc offset);
    } in
    (t.generation_id, record p { tracker = started })

-- The changes of the `finally` of `_handle_record` to the sets of the tracker: the task is not in
-- flight any more, and its offset is completed if it is current and was handled.
unfoldable pub mark_finished : ℕ → Bool → Partition → Partition
unfolding discard add
mark_finished offset completes p =
    let t = p.tracker in
    record p {
      tracker = record t {
        inflight = discard offset t.inflight;
        completed = if completes then add offset t.completed else t.completed;
      };
    }

-- The `finally` of `_handle_record`. A task of an earlier generation is dropped.
unfoldable pub finish_record : ℕ → ℕ → ℕ → ℕ → Bool → CommitAnswer → Bool → Partition → Partition
unfolding mark_finished advance_commit adjust_flow
finish_record max_gap resume_watermark offset generation handled answer succeeds p =
    if not (generation == p.tracker.generation_id)
    then mark_finished offset false p
    else adjust_flow max_gap resume_watermark succeeds
        (advance_commit answer (mark_finished offset handled p))

-- A new generation, in which the partition is not paused.
unfoldable pub new_generation : Bool → Partition → Partition
new_generation assigned p =
    let t = p.tracker in
    record p {
      assigned = assigned;
      tracker = record t { generation_id = suc t.generation_id; paused_for_gap = false };
    }

-- `_reconcile_assignments`, where `current` says whether the partition is assigned now.
unfoldable pub reconcile_assignment : Bool → Partition → Partition
unfolding new_generation
reconcile_assignment current p =
    if not p.connected
    then p
    else if (current && p.assigned) || (not current && not p.assigned)
    then p
    else new_generation current p

-- `_restart_for_auth_error` up to the stop of the consumer, and its end.
unfoldable pub begin_restart : Partition → Partition
begin_restart p =
    let t = p.tracker in
    record p {
      connected = false;
      assigned = false;
      tracker = record t { generation_id = suc t.generation_id };
    }

unfoldable pub end_restart : Partition → Partition
end_restart p = record p { connected = true }

-- What happens to a partition. `drains` is `_drain_and_finalize_commits`.
pub data Step : Type 0 where
  begins : ℕ → Step
  finishes : ℕ → ℕ → Bool → CommitAnswer → Bool → Step
  assigns : Bool → Step
  restarts restarted : Step
  drains : CommitAnswer → Step

module _ (max_gap resume_watermark : ℕ) where
  unfoldable pub perform : Step → Partition → Partition
  unfolding begin_record finish_record reconcile_assignment begin_restart end_restart advance_commit
  perform (begins offset) p = (begin_record offset p).1
  perform (finishes offset generation handled answer succeeds) p =
      finish_record max_gap resume_watermark offset generation handled answer succeeds p
  perform (assigns current) p = reconcile_assignment current p
  perform restarts p = begin_restart p
  perform restarted p = end_restart p
  perform (drains answer) p = advance_commit answer p

  unfoldable pub run : List Step → Partition → Partition
  unfolding perform
  run [] p = p
  run (step ∷ steps) p = run steps (perform step p)
