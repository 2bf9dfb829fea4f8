-- ===== src/Session/Sequential.antt =====
-- The operations of a session where no event comes between: the abstract state machine.
use teledap.Prelude.{◌≡◌, true, Option, [], arith, ok, err}
use teledap.Dict
use teledap.Dap.Json.{Json}
use teledap.Dap.Types.{Breakpoint}
use teledap.State.{
  SessionState, state_eq, disconnected, connected, initialized, running, can_transition_to,
}
use teledap.Gating.{is_allowed, allowed_states, gating_table}
use teledap.Session.{DebugSession, gate, transition_to}
use teledap.Session.Events.{handle_events, clear_halt, disconnect}
use teledap.Session.Operations
use teledap.Session.Operations.{Reply, await, await_adapter, resume, from_client}
use teledap.Session.Commands.{
  Command, start, initialize, launch, attach, configuration_done, shutdown, continue_execution,
  step_over, step_out, step_in, pause, set_breakpoints, set_function_breakpoints, get_threads,
  get_stack_trace, get_scopes, get_variables, evaluate, set_variable, name_of, perform, no_value,
}

-- The client's reply to a command.
unfoldable pub reply_of : {Caps : Type 0} → Command Caps → Reply (Unit {0})
reply_of (start _ r) = r
reply_of (initialize _ r) = no_value r
reply_of (launch _ r) = r
reply_of (attach _ r) = r
reply_of (configuration_done r) = r
reply_of shutdown = ok tt
reply_of (continue_execution _ _ r) = no_value r
reply_of (step_over _ _ r) = r
reply_of (step_out _ _ r) = r
reply_of (step_in _ _ _ r) = r
reply_of (pause _ r) = r
reply_of (set_breakpoints _ r) = no_value r
reply_of (set_function_breakpoints _ r) = no_value r
reply_of (get_threads r) = no_value r
reply_of (get_stack_trace _ _ _ r) = no_value r
reply_of (get_scopes _ r) = no_value r
reply_of (get_variables _ _ _ _ r) = no_value r
reply_of (evaluate _ r) = no_value r
reply_of (set_variable _ r) = no_value r

-- The state to which a successful command leads.
unfoldable pub goal : {Caps : Type 0} → Command Caps → SessionState → SessionState
goal (start _ _) t = connected
goal (initialize _ _) t = initialized
goal (configuration_done _) t = running
goal shutdown t = disconnected
goal (continue_execution _ _ _) t = running
goal (step_over _ _ _) t = running
goal (step_out _ _ _) t = running
goal (step_in _ _ _ _) t = running
goal _ t = t

-- The abstract machine: a reply takes the state to the command's goal, an error leaves it.
abbrev pub next : {A : Type 0} → Reply A → SessionState → SessionState → SessionState
next (ok a) target t = target
next (err e) target t = t

-- Where no event comes between, a command that is allowed leads to its goal and succeeds if the
-- client's reply is good, and otherwise leaves the state and fails with the client's error.
pub perform_sequential :
    (breakpoint_of : Json → Option Breakpoint) {Caps : Type 0} (c : Command Caps)
    (s : DebugSession Caps)
    → is_allowed (name_of c) s.state ≡ true
    → ((perform breakpoint_of c [] s).0.state ≡ next (reply_of c) (goal c s.state) s.state)
      × ((perform breakpoint_of c [] s).1 ≡ from_client (reply_of c))
unfolding perform goal reply_of name_of transition_to await await_adapter resume handle_events
    clear_halt disconnect Operations.start Operations.initialize Operations.launch Operations.attach
    Operations.configuration_done Operations.shutdown Operations.continue_execution
    Operations.step_over Operations.step_out Operations.step_in Operations.pause
    Operations.set_breakpoints Operations.set_function_breakpoints Operations.get_threads
    Operations.get_stack_trace Operations.get_scopes Operations.get_variables Operations.evaluate
    Operations.set_variable is_allowed allowed_states gating_table Dict.get can_transition_to gate
perform_sequential breakpoint_of shutdown s h = ground arith
perform_sequential breakpoint_of c s h = ground arith
