-- ===== src/Session/Refused.antt =====
-- An operation that the gate refuses.
use teledap.Prelude.{◌≡◌, false, Option, List, String, err}
use teledap.Dap.Json.{Json}
use teledap.Dap.Types.{Breakpoint}
use teledap.Gating.{is_allowed, allowed_states}
use teledap.Session.{DebugSession, invalid_state, gate}
use teledap.Session.Events.{Event}
use teledap.Session.Operations
use teledap.Session.Commands.{Command, shutdown, name_of, perform}

gate_refused :
    {Caps : Type 0} (op : String) (s : DebugSession Caps)
    → is_allowed op s.state ≡ false
    → gate op s ≡ (s, err (invalid_state op s.state (allowed_states op)))
unfolding gate
gate_refused op s h = rw h

-- A command in a state in which its operation is not allowed fails with the operation's name, the
-- state and the allowed states, sends nothing to the adapter and changes nothing of the session.
pub perform_refused :
    (breakpoint_of : Json → Option Breakpoint) {Caps : Type 0} (c : Command Caps)
    (meanwhile : List Event) (s : DebugSession Caps)
    → is_allowed (name_of c) s.state ≡ false
    → perform breakpoint_of c meanwhile s
      ≡ (s, err (invalid_state (name_of c) s.state (allowed_states (name_of c))))
unfolding perform name_of Operations.start Operations.initialize Operations.launch Operations.attach
    Operations.configuration_done Operations.shutdown Operations.continue_execution
    Operations.step_over Operations.step_out Operations.step_in Operations.pause
    Operations.set_breakpoints Operations.set_function_breakpoints Operations.get_threads
    Operations.get_stack_trace Operations.get_scopes Operations.get_variables Operations.evaluate
    Operations.set_variable
perform_refused breakpoint_of shutdown m s h = rw (gate_refused "shutdown" s h)
perform_refused breakpoint_of c m s h = rw (gate_refused (name_of c) s h)
