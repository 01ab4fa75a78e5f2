-- ===== src/OperationQueue/History.antt =====
-- The processor over time: handlers are registered, operations are queued, the loop takes them and
-- their handlers answer, while others are queued and the expired are cleaned up.
use mathlib.Core.List.{append-nil, append_assoc}
use Prim.Native.String.{String}
use franklink.Prelude.{
  ℕ, ◌≡◌, refl, sym, ap, ◌∙◌, Bool, not, Option, none, some, List, [], ◌∷◌, ◌++◌, map,
  if◌then◌else◌, if_both, inl, inr, Bool-cases, inl, inr,
}
use franklink.OperationQueue.{
  QueuedOperation, Processor, Answer, returns, raises, has_key, new_operation, register_handler,
  queue_operation, invoke_callback, start_operation, take_next, finish_operation, as_list,
  all_operations, cleanup_expired,
}
use franklink.OperationQueue.Lifecycle.{
  Settled, take_next-Settled, finish_operation-Settled, queue_operation-Settled,
}

pub data Step (P R : Type 0) : Type 0 where
  registers : String → Step P R
  queues : ℕ → String → String → String → P → Bool → Step P R
  takes : ℕ → Step P R
  answers : ℕ → Answer R → Step P R
  cleans : ℕ → Step P R

module _ {P R : Type 0} where
  unfoldable pub perform : Step P R → Processor P R → Processor P R
  unfolding register_handler queue_operation take_next finish_operation cleanup_expired
  perform (registers type) p = register_handler type p
  perform (queues now id type user payload callback) p =
      (queue_operation now id type user payload callback p).1
  perform (takes now) p = take_next now p.current p.queue p
  perform (answers now answer) p = finish_operation now answer p.current p
  perform (cleans now) p = cleanup_expired now p

  unfoldable pub run : List (Step P R) → Processor P R → Processor P R
  unfolding perform
  run [] p = p
  run (step ∷ steps) p = run steps (perform step p)

  abbrev pub ids : List (QueuedOperation P R) → List String
  ids ops = map (λ op. op.operation_id) ops

  -- The identifiers that `queue_operation` returned, in order.
  abbrev new_ids : Step P R → Processor P R → List String
  new_ids (queues now id type user payload callback) p =
      if not (has_key type p.handlers) then [] else id ∷ []
  new_ids _ p = []

  unfoldable pub accepted : List (Step P R) → Processor P R → List String
  unfolding perform
  accepted [] p = []
  accepted (step ∷ steps) p = new_ids step p ++ accepted steps (perform step p)

  perform-Settled : (step : Step P R) (p : Processor P R) → Settled p → Settled (perform step p)
  unfolding perform
  perform-Settled (registers type) p s =
      if_both Settled (has_key type p.handlers) _ _ s
        (record { waiting = s.waiting; running = s.running; done = s.done; called = s.called })
  perform-Settled (queues now id type user payload callback) p s =
      queue_operation-Settled now id type user payload callback p s
  perform-Settled (takes now) p s = take_next-Settled now p.current p.queue p s.waiting s
  perform-Settled (answers now answer) p s =
      finish_operation-Settled now answer p.current p s.running s
  perform-Settled (cleans now) p s = record {
    waiting = s.waiting;
    running = s.running;
    done = s.done;
    called = s.called;
  }

  -- After any steps, a waiting operation is pending and has no answer, the one that is processed has
  -- none either, a finished one has its time and either a result or an error, and each callback
  -- was called exactly once, in the order of the ends, with this result or error.
  pub run-Settled :
      (steps : List (Step P R)) (p : Processor P R) → Settled p → Settled (run steps p)
  unfolding run
  run-Settled [] p s = s
  run-Settled (step ∷ steps) p s = run-Settled steps (perform step p) (perform-Settled step p s)

  ids-append : (xs ys : List (QueuedOperation P R)) → ids (xs ++ ys) ≡ ids xs ++ ids ys
  ids-append [] ys = refl
  ids-append (x ∷ xs) ys = rw (ids-append xs ys)

  ids-end :
      (xs ys : List (QueuedOperation P R)) (op done : QueuedOperation P R)
      → done.operation_id ≡ op.operation_id
      → ids ((xs ++ done ∷ []) ++ ys) ≡ ids (xs ++ (op ∷ ys))
  ids-end xs ys op done same =
      ap ids (append_assoc xs (done ∷ []) ys)
      ∙ ids-append xs (done ∷ ys)
      ∙ ap (λ x. ids xs ++ (x ∷ ids ys)) same
      ∙ sym (ids-append xs (op ∷ ys))

  ids-start :
      (xs ys : List (QueuedOperation P R)) (op started : QueuedOperation P R)
      → started.operation_id ≡ op.operation_id
      → ids (xs ++ (started ∷ ys)) ≡ ids (xs ++ (op ∷ ys))
  ids-start xs ys op started same =
      ids-append xs (started ∷ ys)
      ∙ ap (λ x. ids xs ++ (x ∷ ids ys)) same
      ∙ sym (ids-append xs (op ∷ ys))

  take_next-ids :
      (now : ℕ) (current : Option (QueuedOperation P R)) (queue : List (QueuedOperation P R))
      (p : Processor P R)
      → p.current ≡ current
      → p.queue ≡ queue
      → ids (all_operations (take_next now current queue p)) ≡ ids (all_operations p)
  unfolding take_next start_operation invoke_callback
  take_next-ids now none [] p c q = refl
  take_next-ids now none (op ∷ queue) p c q =
      rw (c, q)
        (if_both (λ (x : Processor P R). ids (all_operations x) ≡ ids (p.finished ++ (op ∷ queue)))
          (has_key op.operation_type p.handlers) _ _ (ids-start p.finished queue op _ refl)
          (ids-end p.finished queue op _ refl))
  take_next-ids now (some running) queue p c q = refl

  finish_operation-ids :
      (now : ℕ) (answer : Answer R) (current : Option (QueuedOperation P R)) (p : Processor P R)
      → p.current ≡ current
      → ids (all_operations (finish_operation now answer current p)) ≡ ids (all_operations p)
  unfolding finish_operation invoke_callback
  finish_operation-ids now answer none p c = refl
  finish_operation-ids now (returns result) (some op) p c =
      rw c (ids-end p.finished p.queue op _ refl)
  finish_operation-ids now (raises error) (some op) p c =
      rw c (ids-end p.finished p.queue op _ refl)

  ids-last :
      (xs ys zs : List (QueuedOperation P R)) (op : QueuedOperation P R)
      → ids (xs ++ (ys ++ (zs ++ op ∷ []))) ≡ ids (xs ++ (ys ++ zs)) ++ op.operation_id ∷ []
  ids-last xs ys zs op =
      ap (λ x. ids (xs ++ x)) (sym (append_assoc ys zs (op ∷ [])))
      ∙ ap ids (sym (append_assoc xs (ys ++ zs) (op ∷ [])))
      ∙ ids-append (xs ++ (ys ++ zs)) (op ∷ [])

  queue_operation-ids :
      (now : ℕ) (id type user : String) (payload : P) (callback : Bool) (p : Processor P R)
      → ids (all_operations (queue_operation now id type user payload callback p).1)
        ≡ ids (all_operations p) ++ (if not (has_key type p.handlers) then [] else id ∷ [])
  unfolding queue_operation
  queue_operation-ids now id type user payload callback p =
      elim (Bool-cases (has_key type p.handlers)) [
        | inl e ↦ rw e (
            ids-last p.finished (as_list p.current) p.queue
              (new_operation now id type user payload callback))
        | inr e ↦ rw e (sym (append-nil (ids (all_operations p))))
      ]

  perform-ids :
      (step : Step P R) (p : Processor P R)
      → ids (all_operations (perform step p)) ≡ ids (all_operations p) ++ new_ids step p
  unfolding perform
  perform-ids (registers type) p =
      if_both (λ (x : Processor P R). ids (all_operations x) ≡ ids (all_operations p) ++ [])
        (has_key type p.handlers) _ _ (sym (append-nil (ids (all_operations p))))
        (sym (append-nil (ids (all_operations p))))
  perform-ids (queues now id type user payload callback) p =
      queue_operation-ids now id type user payload callback p
  perform-ids (takes now) p =
      take_next-ids now p.current p.queue p refl refl ∙ sym (append-nil (ids (all_operations p)))
  perform-ids (answers now answer) p =
      finish_operation-ids now answer p.current p refl ∙ sym (append-nil (ids (all_operations p)))
  perform-ids (cleans now) p = sym (append-nil (ids (all_operations p)))

  -- No operation is lost, repeated or overtaken: after any steps the finished operations, then the
  -- one that is processed, then those that wait are those there were before and then all that
  -- were accepted, in the order of their acceptance, also when the expired were cleaned up.
  pub run_in_turn :
      (steps : List (Step P R)) (p : Processor P R)
      → ids (all_operations (run steps p)) ≡ ids (all_operations p) ++ accepted steps p
  unfolding run accepted
  run_in_turn [] p = sym (append-nil (ids (all_operations p)))
  run_in_turn (step ∷ steps) p =
      run_in_turn steps (perform step p)
      ∙ ap (λ x. x ++ accepted steps (perform step p)) (perform-ids step p)
      ∙ append_assoc (ids (all_operations p)) (new_ids step p) (accepted steps (perform step p))
