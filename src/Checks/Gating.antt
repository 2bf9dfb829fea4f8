-- ===== src/Checks/Gating.antt =====
-- crates/debug-session/src/state.rs and gating.rs at concrete inputs.
use teledap.Prelude.{◌≡◌, refl, [], ◌∷◌, string_eq}
use teledap.Dict
use teledap.State.{disconnected, state_eq}
use teledap.Gating.{
  is_allowed, allowed_states, operations_for_state, describe_requirements, all_operations,
  gating_table,
}

disconnected_operations : operations_for_state disconnected ≡ "start" ∷ []
unfolding operations_for_state all_operations is_allowed allowed_states gating_table Dict.get
disconnected_operations = refl

describe_continue : describe_requirements "continue" ≡ "`continue` requires state(s): Halted"
unfolding describe_requirements allowed_states gating_table Dict.get
describe_continue = refl

describe_unknown : describe_requirements "fly" ≡ "`fly` is not a recognized operation"
unfolding describe_requirements allowed_states gating_table Dict.get
describe_unknown = refl
