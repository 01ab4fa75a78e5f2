-- ===== src/OperationQueue/Lifecycle.antt =====
-- What becomes of an operation that was queued.
use Prim.Native.String.{String}
use franklink.Prelude.{
  ℕ, ◌≡◌, refl, sym, ap, ◌∙◌, Bool, true, false, not, Option, none, some, List, [], ◌∷◌, ◌++◌, All,
  All-append, if◌then◌else◌, IsPresent, if_both,
}
use franklink.OperationQueue.{
  OperationStatus, pending, processing, completed, failed, QueuedOperation, Completion, Processor,
  Answer, QueueResult, returns, raises, has_key, new_operation, queue_operation, invoke_callback,
  start_operation, take_next, finish_operation,
}

-- The end of an operation: the result of a success, or the error of a failure, and its time.
abbrev pub Ended : {R : Type 0} → OperationStatus → Option R → Option String → Option ℕ → Type 0
Ended completed result error at = IsPresent result × (error ≡ none) × IsPresent at
Ended failed result error at = (result ≡ none) × IsPresent error × IsPresent at
Ended _ result error at = ⊥

module _ {P R : Type 0} where
  -- An operation that was not answered yet.
  pub record Unanswered (status : OperationStatus) (op : QueuedOperation P R) : Type 0 where
    pub in_status : op.status ≡ status
    pub no_result : op.result ≡ none
    pub no_error : op.error ≡ none

  abbrev pub IsDone : QueuedOperation P R → Type 0
  IsDone op = Ended op.status op.result op.error op.completed_at

  abbrev pub CurrentOf : Option (QueuedOperation P R) → Type 0
  CurrentOf none = Unit
  CurrentOf (some op) = Unanswered processing op

  abbrev pub call : QueuedOperation P R → Completion P R
  call op = record { operation = op; result = op.result; error = op.error }

  -- One call for each operation that has a callback.
  abbrev pub calls : List (QueuedOperation P R) → List (Completion P R)
  calls [] = []
  calls (op ∷ ops) = let rest = calls ops in if op.on_complete then call op ∷ rest else rest

  pub record Settled (p : Processor P R) : Type 0 where
    pub waiting : All (Unanswered pending) p.queue
    pub running : CurrentOf p.current
    pub done : All IsDone p.finished
    pub called : p.completions ≡ calls p.finished

  calls-append :
      (ops : List (QueuedOperation P R)) (op : QueuedOperation P R)
      → calls (ops ++ op ∷ []) ≡ (if op.on_complete then calls ops ++ call op ∷ [] else calls ops)
  calls-append [] op = refl
  calls-append (x ∷ ops) op =
      both x.on_complete op.on_complete (call x) (call op) (calls ops) (calls (ops ++ op ∷ []))
        (calls-append ops op)
    where
      both :
          (a b : Bool) (c d : Completion P R) (cs more : List (Completion P R))
          → more ≡ (if b then cs ++ d ∷ [] else cs)
          → (if a then c ∷ more else more)
            ≡ (if b then (if a then c ∷ cs else cs) ++ d ∷ [] else if a then c ∷ cs else cs)
      both true true c d cs more h = ap (λ x. c ∷ x) h
      both true false c d cs more h = ap (λ x. c ∷ x) h
      both false true c d cs more h = h
      both false false c d cs more h = h

  invoke_callback-Settled :
      (op : QueuedOperation P R) (p : Processor P R)
      → IsDone op
      → Settled p
      → Settled (invoke_callback op p)
  unfolding invoke_callback
  invoke_callback-Settled op p d s = record {
    waiting = s.waiting;
    running = tt;
    done = All-append IsDone p.finished (op ∷ []) s.done (d, tt);
    called =
        ap (λ x. if op.on_complete then x ++ call op ∷ [] else x) s.called
        ∙ sym (calls-append p.finished op);
  }

  start_operation-Settled :
      (now : ℕ) (op : QueuedOperation P R) (p : Processor P R)
      → Unanswered pending op
      → Settled p
      → Settled (start_operation now op p)
  unfolding start_operation
  start_operation-Settled now op p u s =
      if_both Settled (has_key op.operation_type p.handlers) _ _
        (record {
          waiting = s.waiting;
          running = record { in_status = refl; no_result = u.no_result; no_error = u.no_error };
          done = s.done;
          called = s.called;
        })
        (invoke_callback-Settled _ p (u.no_result, tt, tt) s)

  pub take_next-Settled :
      (now : ℕ) (current : Option (QueuedOperation P R)) (queue : List (QueuedOperation P R))
      (p : Processor P R)
      → All (Unanswered pending) queue
      → Settled p
      → Settled (take_next now current queue p)
  unfolding take_next
  take_next-Settled now none [] p w s = s
  take_next-Settled now none (op ∷ queue) p w s =
      start_operation-Settled now op (record p { queue = queue }) w.0
        (record { waiting = w.1; running = s.running; done = s.done; called = s.called })
  take_next-Settled now (some running) queue p w s = s

  pub finish_operation-Settled :
      (now : ℕ) (answer : Answer R) (current : Option (QueuedOperation P R)) (p : Processor P R)
      → CurrentOf current
      → Settled p
      → Settled (finish_operation now answer current p)
  unfolding finish_operation
  finish_operation-Settled now answer none p u s = s
  finish_operation-Settled now (returns result) (some op) p u s =
      invoke_callback-Settled _ p (tt, u.no_error, tt) s
  finish_operation-Settled now (raises error) (some op) p u s =
      invoke_callback-Settled _ p (u.no_result, tt, tt) s

  pub queue_operation-Settled :
      (now : ℕ) (id type user : String) (payload : P) (callback : Bool) (p : Processor P R)
      → Settled p
      → Settled (queue_operation now id type user payload callback p).1
  unfolding queue_operation
  queue_operation-Settled now id type user payload callback p s =
      if_both (λ (r : QueueResult × Processor P R). Settled r.1) (not (has_key type p.handlers)) _ _
        s
        (record {
          waiting =
              All-append (Unanswered pending) p.queue
                (new_operation now id type user payload callback ∷ []) s.waiting
                (record { in_status = refl; no_result = refl; no_error = refl }, tt);
          running = s.running;
          done = s.done;
          called = s.called;
        })
