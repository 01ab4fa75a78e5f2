-- ===== src/Networking/Flow/Laws.antt =====
-- Terminal states and the reset.
use franklink.Prelude.{ℕ, ◌+◌, ◌≡◌, ◌≢◌, refl, true, false, [], ◌∷◌, arith}
use franklink.Networking.Fault.{ok, raised, invalid_transition}
use franklink.Networking.Flow.{
  FlowState, idle, group_created, cancelled, failed, state_in, valid_transitions, NetworkingState,
  fresh, transition_to, reset, is_terminal,
}

terminal_to_idle :
    (f : FlowState)
    → state_in f (group_created ∷ cancelled ∷ failed ∷ []) ≡ true
    → valid_transitions f ≡ idle ∷ []
unfolding state_in valid_transitions
terminal_to_idle idle h = cc
terminal_to_idle f h = ground arith

only_idle : (f : FlowState) → f ≢ idle → state_in f (idle ∷ []) ≡ false
unfolding state_in
only_idle idle h = absurd (h refl)
only_idle f h = refl

-- From a terminal state `reset` succeeds and leaves a fresh idle state of the same user, with the
-- next version and the old initiator; a transition to any other state is refused.
pub reset-is_terminal :
    {D : Type 0} (now : ℕ) (s : NetworkingState D)
    → is_terminal s ≡ true
    → (reset now s
        ≡ ok (record (fresh now s.user_id) {
          initiator_id = s.initiator_id;
          version = s.version + 1;
        }))
      × ((f : FlowState) (updates : NetworkingState D)
          → f ≢ idle
          → transition_to now f s updates ≡ raised invalid_transition)
unfolding is_terminal reset transition_to fresh
reset-is_terminal now s h =
    let only = terminal_to_idle s.flow_state h in
    (rw (only, state_in) refl, λ f updates ne. rw (only, only_idle f ne))
