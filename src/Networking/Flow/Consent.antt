-- ===== src/Networking/Flow/Consent.antt =====
-- Histories of method calls on `AtomicNetworkingState`, and what a state tells of its history.
use Prim.Native.String.{String}
use franklink.Prelude.{
  ℕ, ◌+◌, ◌≡◌, refl, ap, sym, Bool, true, false, List, [], ◌∷◌, Option, arith, length,
  if◌then◌else◌,
}
use franklink.Networking.Fault.{Result, ok, raised, invalid_transition, ◌>>=◌}
use franklink.Networking.Flow.{
  FlowState, idle, matching, pending_initiator_approval, pending_target_response, ready_for_group,
  group_created, cancelled, failed, NetworkingState, state_in, valid_transitions, fresh,
  transition_to, start_matching, with_match, with_multi_match, initiator_confirmed, target_accepted,
  mark_created, cancel, fail, reset,
}

-- A call of a transition method, with its arguments and the time.
pub data Call (D : Type 0) : Type 0 where
  starts : ℕ → String → Call D
  matches : ℕ → String → String → D → Option String → Call D
  multi_matches : ℕ → List String → List String → List D → Option String → Call D
  confirms : ℕ → Call D
  accepts : ℕ → Call D
  creates : ℕ → String → Call D
  cancels : ℕ → Option String → Call D
  fails : ℕ → String → Call D
  resets : ℕ → Call D

module _ {D : Type 0} where
  unfoldable pub apply : Call D → NetworkingState D → Result (NetworkingState D)
  apply (starts now user) s = start_matching now user s
  apply (matches now request target details purpose) s =
      with_match now request target details purpose s
  apply (multi_matches now requests targets details purpose) s =
      with_multi_match now requests targets details purpose s
  apply (confirms now) s = initiator_confirmed now s
  apply (accepts now) s = target_accepted now s
  apply (creates now guid) s = mark_created now guid s
  apply (cancels now reason) s = cancel now reason s
  apply (fails now error) s = fail now error s
  apply (resets now) s = reset now s

  -- The state after a history of calls, the newest call first.
  unfoldable pub after : ℕ → Option String → List (Call D) → Result (NetworkingState D)
  unfolding fresh
  after now user [] = ok (fresh now user)
  after now user (call ∷ calls) = after now user calls >>= apply call

  abbrev target : Call D → FlowState
  target (starts now user) = matching
  target (matches now request t details purpose) = pending_initiator_approval
  target (multi_matches now requests targets details purpose) = pending_initiator_approval
  target (confirms now) = pending_target_response
  target (accepts now) = ready_for_group
  target (creates now guid) = group_created
  target (cancels now reason) = cancelled
  target (fails now error) = failed
  target (resets now) = idle

  abbrev pub Moved : FlowState → NetworkingState D → NetworkingState D → Type 0
  Moved f s t =
      (t.flow_state ≡ f)
      × (t.version ≡ s.version + 1)
      × (state_in f (valid_transitions s.flow_state) ≡ true)

  guard-ok :
      (b : Bool) (x t : NetworkingState D)
      → (if b then ok x else raised invalid_transition) ≡ ok t
      → (b ≡ true) × (x ≡ t)
  guard-ok true x t h = (refl, cc)
  guard-ok false x t h = cc

  pub transition_to-Moved :
      (now : ℕ) (f : FlowState) (s updates t : NetworkingState D)
      → transition_to now f s updates ≡ ok t
      → Moved f s t
  unfolding transition_to
  transition_to-Moved now f s updates t h =
      let g = guard-ok (state_in f (valid_transitions s.flow_state)) _ t h in
      (
        sym (ap (λ (u : NetworkingState D). u.flow_state) g.1),
        sym (ap (λ (u : NetworkingState D). u.version) g.1),
        g.0,
      )

  apply-Moved :
      (call : Call D) (s t : NetworkingState D) → apply call s ≡ ok t → Moved (target call) s t
  unfolding apply start_matching with_match with_multi_match initiator_confirmed target_accepted
      mark_created cancel fail reset
  apply-Moved (starts now user) s t h = transition_to-Moved now matching s _ t h
  apply-Moved (matches now request user details purpose) s t h =
      transition_to-Moved now pending_initiator_approval s _ t h
  apply-Moved (multi_matches now requests users details purpose) s t h =
      transition_to-Moved now pending_initiator_approval s _ t h
  apply-Moved (confirms now) s t h = transition_to-Moved now pending_target_response s _ t h
  apply-Moved (accepts now) s t h = transition_to-Moved now ready_for_group s _ t h
  apply-Moved (creates now guid) s t h = transition_to-Moved now group_created s _ t h
  apply-Moved (cancels now reason) s t h = transition_to-Moved now cancelled s _ t h
  apply-Moved (fails now error) s t h = transition_to-Moved now failed s _ t h
  apply-Moved (resets now) s t h = transition_to-Moved now idle s _ t h

  -- What a flow state tells of the newest calls.
  abbrev pub Shape : FlowState → List (Call D) → Type 0
  Shape idle calls = Unit
  Shape cancelled calls = Unit
  Shape failed calls = Unit
  Shape matching (starts now user ∷ calls) = Unit
  Shape pending_initiator_approval (matches now request user details purpose ∷ calls) =
      Shape matching calls
  Shape pending_initiator_approval (multi_matches now requests users details purpose ∷ calls) =
      Shape matching calls
  Shape pending_target_response (confirms now ∷ calls) = Shape pending_initiator_approval calls
  Shape ready_for_group (accepts now ∷ calls) = Shape pending_target_response calls
  Shape group_created (creates now guid ∷ calls) = Shape ready_for_group calls
  Shape _ calls = ⊥

  Shape-cons :
      (f : FlowState) (call : Call D) (calls : List (Call D))
      → state_in (target call) (valid_transitions f) ≡ true
      → Shape f calls
      → Shape (target call) (call ∷ calls)
  unfolding state_in valid_transitions
  Shape-cons f (starts now user) calls e h = tt
  Shape-cons matching (matches now request user details purpose) calls e h = h
  Shape-cons _ (matches now request user details purpose) calls e h = cc
  Shape-cons matching (multi_matches now requests users details purpose) calls e h = h
  Shape-cons _ (multi_matches now requests users details purpose) calls e h = cc
  Shape-cons pending_initiator_approval (confirms now) calls e h = h
  Shape-cons _ (confirms now) calls e h = cc
  Shape-cons pending_target_response (accepts now) calls e h = h
  Shape-cons _ (accepts now) calls e h = cc
  Shape-cons ready_for_group (creates now guid) calls e h = h
  Shape-cons _ (creates now guid) calls e h = cc
  Shape-cons f (cancels now reason) calls e h = tt
  Shape-cons f (fails now error) calls e h = tt
  Shape-cons f (resets now) calls e h = tt

  bind-ok :
      (m : Result (NetworkingState D)) (f : NetworkingState D → Result (NetworkingState D))
      (t : NetworkingState D)
      → (m >>= f) ≡ ok t
      → (s : NetworkingState D) × (m ≡ ok s) × (f s ≡ ok t)
  bind-ok (ok s) f t h = (s, refl, h)
  bind-ok (raised e) f t h = cc

  -- A state that a history of calls leads to determines its newest calls: in `group_created` they
  -- are `group_created`, `target_accepted`, `initiator_confirmed`, a match and `start_matching`,
  -- and likewise for the states on the way there. The version counts the calls.
  pub after-Shape :
      (now : ℕ) (user : Option String) (calls : List (Call D)) (s : NetworkingState D)
      → after now user calls ≡ ok s
      → Shape s.flow_state calls × (s.version ≡ length calls)
  unfolding after
  after-Shape now user [] s h =
      let at_start : s.flow_state ≡ idle = ground arith in (rw at_start tt, ground arith)
  after-Shape now user (call ∷ calls) t h =
      let (s, before, last) = bind-ok (after now user calls) (apply call) t h in
      let moved = apply-Moved call s t last in
      let ih = after-Shape now user calls s before in
      (rw moved.0 (Shape-cons s.flow_state call calls moved.2 ih.0), omega (arith, ih.1, moved.1))
