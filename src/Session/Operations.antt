-- ===== src/Session/Operations.antt =====
-- The operations of crates/debug-session/src/session.rs. Each takes the client's reply, and the
-- events that the event task handles while the operation waits for it (`meanwhile`).
use teledap.Prelude.{ℕ, Bool, true, Option, none, some, List, [], ◌∷◌, String, Result, ok, err}
use teledap.Dap.Json.{Json}
use teledap.Dap.Types.{FunctionBreakpoint, Breakpoint, Thread, Variable}
use teledap.State.{connected, initialized, running}
use teledap.Breakpoints
use teledap.Session.{
  DebugSessionError, dap_client, Exec, ◌>>=◌, ◌>>◌, pure, modify, gate, transition_to,
}
use teledap.Session.Calls.{
  AdapterKind, codelldb, gdb, AdapterConfig, DapClientError, SetBreakpointsArguments, Arguments,
  no_arguments, raw, thread_arguments, step_in_arguments, pause_arguments,
  set_breakpoints_arguments, function_breakpoints_arguments, stack_trace_arguments,
  scopes_arguments, variables_arguments, ClientCall, start_adapter, shutdown_adapter, request,
  request_nb,
}
use teledap.Session.Events.{Event, clear_halt, disconnect, handle_events, or_value}

abbrev pub Reply : Type 0 → Type 0
Reply A = Result DapClientError A

-- `?` on a client's reply
abbrev pub from_client : {A : Type 0} → Reply A → Result DebugSessionError A
from_client (ok a) = ok a
from_client (err e) = err (dap_client e)

-- Which call a request is: codelldb, and an adapter that is not known, is not waited for.
abbrev pub adapter_request : Option AdapterKind → String → Arguments → ClientCall
adapter_request (some gdb) command args = request command args
adapter_request (some codelldb) command args = request_nb command args
adapter_request none command args = request_nb command args

module _ (breakpoint_of : Json → Option Breakpoint) {Caps : Type 0} where
  -- A call of the client up to its reply.
  unfoldable pub await : {A : Type 0} → ClientCall → Reply A → List Event → Exec Caps A
  await c reply meanwhile s =
      (handle_events breakpoint_of meanwhile (record s { calls = c ∷ s.calls }), from_client reply)

  unfoldable pub start : AdapterConfig → Reply (Unit {0}) → List Event → Exec Caps (Unit {0})
  start config reply meanwhile = do
    gate "start"
    await (start_adapter config) reply meanwhile
    modify (λ s. record s { adapter_kind = some config.kind })
    transition_to connected "start"

  unfoldable pub initialize : Json → Reply Caps → List Event → Exec Caps Caps
  initialize args reply meanwhile = do
    gate "initialize"
    caps ← await (request "initialize" (raw args)) reply meanwhile
    modify (λ s. record s { capabilities = some caps })
    transition_to initialized "initialize"
    pure caps

  -- A call whose kind depends on the adapter.
  unfoldable pub await_adapter :
      String → Arguments → Reply (Unit {0}) → List Event → Exec Caps (Unit {0})
  unfolding await
  await_adapter command args reply meanwhile s =
      await (adapter_request s.adapter_kind command args) reply meanwhile s

  unfoldable pub launch : Json → Reply (Unit {0}) → List Event → Exec Caps (Unit {0})
  launch args reply meanwhile = do gate "launch"; await_adapter "launch" (raw args) reply meanwhile

  unfoldable pub attach : Json → Reply (Unit {0}) → List Event → Exec Caps (Unit {0})
  attach args reply meanwhile = do
    gate "attach"
    await (request "attach" (raw args)) reply meanwhile

  unfoldable pub configuration_done : Reply (Unit {0}) → List Event → Exec Caps (Unit {0})
  configuration_done reply meanwhile = do
    gate "configuration_done"
    await_adapter "configurationDone" no_arguments reply meanwhile
    modify (λ s. record s { is_configured = true })
    transition_to running "configuration_done"

  -- The client's `shutdown` never fails.
  unfoldable pub shutdown : List Event → Exec Caps (Unit {0})
  shutdown meanwhile = do
    gate "shutdown"
    await {A = Unit {0}} shutdown_adapter (ok tt) meanwhile
    disconnect "shutdown" tt

  -- What `continue` and the steps share behind their gate.
  unfoldable pub resume : {R : Type 0} → String → ClientCall → Reply R → List Event → Exec Caps R
  resume reason c reply meanwhile = do
    result ← await c reply meanwhile
    clear_halt
    transition_to running reason
    pure result

  unfoldable pub continue_execution :
      {R : Type 0} → ℕ → Option Bool → Reply R → List Event → Exec Caps R
  unfolding resume
  continue_execution thread_id single_thread reply meanwhile = do
    gate "continue"
    resume "continue" (request "continue" (thread_arguments thread_id single_thread)) reply
        meanwhile

  unfoldable pub step_over : ℕ → Option Bool → Reply (Unit {0}) → List Event → Exec Caps (Unit {0})
  unfolding resume
  step_over thread_id single_thread reply meanwhile = do
    gate "step_over"
    resume "step_over" (request "next" (thread_arguments thread_id single_thread)) reply meanwhile

  unfoldable pub step_in :
      ℕ → Option Bool → Option ℕ → Reply (Unit {0}) → List Event → Exec Caps (Unit {0})
  unfolding resume
  step_in thread_id single_thread target_id reply meanwhile = do
    gate "step_in"
    resume "step_in" (request "stepIn" (step_in_arguments thread_id single_thread target_id)) reply
        meanwhile

  unfoldable pub step_out : ℕ → Option Bool → Reply (Unit {0}) → List Event → Exec Caps (Unit {0})
  unfolding resume
  step_out thread_id single_thread reply meanwhile = do
    gate "step_out"
    resume "step_out" (request "stepOut" (thread_arguments thread_id single_thread)) reply meanwhile

  unfoldable pub pause : ℕ → Reply (Unit {0}) → List Event → Exec Caps (Unit {0})
  pause thread_id reply meanwhile = do
    gate "pause"
    await (request "pause" (pause_arguments thread_id)) reply meanwhile

  -- A response is its list of breakpoints.
  unfoldable pub set_breakpoints :
      SetBreakpointsArguments → Reply (List Breakpoint) → List Event → Exec Caps (List Breakpoint)
  set_breakpoints args reply meanwhile = do
    gate "set_breakpoints"
    response ← await (request "setBreakpoints" (set_breakpoints_arguments args)) reply meanwhile
    modify (λ s. record s {
      breakpoint_cache =
          Breakpoints.update_source_breakpoints s.breakpoint_cache (or_value args.source.path "")
            (or_value args.breakpoints []) response;
    })
    pure response

  unfoldable pub set_function_breakpoints :
      List FunctionBreakpoint → Reply (List Breakpoint) → List Event → Exec Caps (List Breakpoint)
  set_function_breakpoints breakpoints reply meanwhile = do
    gate "set_function_breakpoints"
    response ←
        await (request "setFunctionBreakpoints" (function_breakpoints_arguments breakpoints)) reply
          meanwhile
    modify (λ s. record s {
      breakpoint_cache =
          Breakpoints.update_function_breakpoints s.breakpoint_cache breakpoints response;
    })
    pure response

  unfoldable pub get_threads : Reply (List Thread) → List Event → Exec Caps (List Thread)
  get_threads reply meanwhile = do
    gate "get_threads"
    await (request "threads" no_arguments) reply meanwhile

  unfoldable pub get_stack_trace :
      {R : Type 0} → ℕ → Option ℕ → Option ℕ → Reply R → List Event → Exec Caps R
  get_stack_trace thread_id start_frame levels reply meanwhile = do
    gate "get_stack_trace"
    await (request "stackTrace" (stack_trace_arguments thread_id start_frame levels)) reply
        meanwhile

  unfoldable pub get_scopes : {R : Type 0} → ℕ → Reply R → List Event → Exec Caps R
  get_scopes frame_id reply meanwhile = do
    gate "get_scopes"
    await (request "scopes" (scopes_arguments frame_id)) reply meanwhile

  unfoldable pub get_variables :
      ℕ
      → Option String
      → Option ℕ
      → Option ℕ
      → Reply (List Variable)
      → List Event
      → Exec Caps (List Variable)
  get_variables variables_reference filter first count reply meanwhile = do
    gate "get_variables"
    await (request "variables" (variables_arguments variables_reference filter first count)) reply
        meanwhile

  unfoldable pub evaluate : {R : Type 0} → Json → Reply R → List Event → Exec Caps R
  evaluate args reply meanwhile = do
    gate "evaluate"
    await (request "evaluate" (raw args)) reply meanwhile

  unfoldable pub set_variable : {R : Type 0} → Json → Reply R → List Event → Exec Caps R
  set_variable args reply meanwhile = do
    gate "set_variable"
    await (request "setVariable" (raw args)) reply meanwhile
