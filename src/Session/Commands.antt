-- ===== src/Session/Commands.antt =====
-- Every operation of a session as one step: a command is a call with its arguments and the client's
-- reply to it. An answer that the session only passes on is a JSON value.
use teledap.Prelude.{ℕ, Bool, Option, List, String, Result, ok, err}
use teledap.Dap.Json.{Json}
use teledap.Dap.Types.{FunctionBreakpoint, Breakpoint, Thread, Variable}
use teledap.Session.{Exec}
use teledap.Session.Calls.{AdapterConfig, SetBreakpointsArguments}
use teledap.Session.Events.{Event}
use teledap.Session.Operations
use teledap.Session.Operations.{Reply}

pub data Command (Caps : Type 0) : Type 0 where
  start : AdapterConfig → Reply (Unit {0}) → Command Caps
  initialize : Json → Reply Caps → Command Caps
  launch attach : Json → Reply (Unit {0}) → Command Caps
  configuration_done : Reply (Unit {0}) → Command Caps
  shutdown : Command Caps
  continue_execution : ℕ → Option Bool → Reply Json → Command Caps
  step_over step_out : ℕ → Option Bool → Reply (Unit {0}) → Command Caps
  step_in : ℕ → Option Bool → Option ℕ → Reply (Unit {0}) → Command Caps
  pause : ℕ → Reply (Unit {0}) → Command Caps
  set_breakpoints : SetBreakpointsArguments → Reply (List Breakpoint) → Command Caps
  set_function_breakpoints : List FunctionBreakpoint → Reply (List Breakpoint) → Command Caps
  get_threads : Reply (List Thread) → Command Caps
  get_stack_trace : ℕ → Option ℕ → Option ℕ → Reply Json → Command Caps
  get_scopes : ℕ → Reply Json → Command Caps
  get_variables : ℕ → Option String → Option ℕ → Option ℕ → Reply (List Variable) → Command Caps
  evaluate set_variable : Json → Reply Json → Command Caps

-- The name under which the operation is gated.
unfoldable pub name_of : {Caps : Type 0} → Command Caps → String
name_of (start _ _) = "start"
name_of (initialize _ _) = "initialize"
name_of (launch _ _) = "launch"
name_of (attach _ _) = "attach"
name_of (configuration_done _) = "configuration_done"
name_of shutdown = "shutdown"
name_of (continue_execution _ _ _) = "continue"
name_of (step_over _ _ _) = "step_over"
name_of (step_out _ _ _) = "step_out"
name_of (step_in _ _ _ _) = "step_in"
name_of (pause _ _) = "pause"
name_of (set_breakpoints _ _) = "set_breakpoints"
name_of (set_function_breakpoints _ _) = "set_function_breakpoints"
name_of (get_threads _) = "get_threads"
name_of (get_stack_trace _ _ _ _) = "get_stack_trace"
name_of (get_scopes _ _) = "get_scopes"
name_of (get_variables _ _ _ _ _) = "get_variables"
name_of (evaluate _ _) = "evaluate"
name_of (set_variable _ _) = "set_variable"

abbrev pub no_value : {E A : Type 0} → Result E A → Result E (Unit {0})
no_value (ok a) = ok tt
no_value (err e) = err e

abbrev pub discard : {Caps A : Type 0} → Exec Caps A → Exec Caps (Unit {0})
discard m s = let (s', r) = m s in (s', no_value r)

module _ (breakpoint_of : Json → Option Breakpoint) {Caps : Type 0} where
  unfoldable pub perform : Command Caps → List Event → Exec Caps (Unit {0})
  perform (start c r) m = Operations.start breakpoint_of c r m
  perform (initialize a r) m = discard (Operations.initialize breakpoint_of a r m)
  perform (launch a r) m = Operations.launch breakpoint_of a r m
  perform (attach a r) m = Operations.attach breakpoint_of a r m
  perform (configuration_done r) m = Operations.configuration_done breakpoint_of r m
  perform shutdown m = Operations.shutdown breakpoint_of m
  perform (continue_execution t o r) m =
      discard (Operations.continue_execution breakpoint_of t o r m)
  perform (step_over t o r) m = Operations.step_over breakpoint_of t o r m
  perform (step_out t o r) m = Operations.step_out breakpoint_of t o r m
  perform (step_in t o i r) m = Operations.step_in breakpoint_of t o i r m
  perform (pause t r) m = Operations.pause breakpoint_of t r m
  perform (set_breakpoints a r) m = discard (Operations.set_breakpoints breakpoint_of a r m)
  perform (set_function_breakpoints b r) m =
      discard (Operations.set_function_breakpoints breakpoint_of b r m)
  perform (get_threads r) m = discard (Operations.get_threads breakpoint_of r m)
  perform (get_stack_trace t f l r) m = discard (Operations.get_stack_trace breakpoint_of t f l r m)
  perform (get_scopes f r) m = discard (Operations.get_scopes breakpoint_of f r m)
  perform (get_variables v f a n r) m = discard (Operations.get_variables breakpoint_of v f a n r m)
  perform (evaluate a r) m = discard (Operations.evaluate breakpoint_of a r m)
  perform (set_variable a r) m = discard (Operations.set_variable breakpoint_of a r m)
