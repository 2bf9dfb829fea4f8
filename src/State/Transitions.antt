-- ===== src/State/Transitions.antt =====
-- The transition relation of crates/debug-session/src/state.rs and what can be reached by it.
use teledap.Prelude.{◌≡◌, arith, contains}
use teledap.State.{SessionState, state_eq, can_transition_to, valid_predecessors}

-- The list of predecessors that error messages show agrees with the transition test.
pub can_transition_to-valid_predecessors :
    (s t : SessionState) → contains s (valid_predecessors t) ≡ can_transition_to s t
unfolding can_transition_to valid_predecessors
can_transition_to-valid_predecessors s t = ground arith
