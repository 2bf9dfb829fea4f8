-- ===== src/Session/Calls.antt =====
-- What a session asks of its DAP client, and the client's errors
-- (crates/dap-client/src/client.rs and error.rs, crates/dap-types/src/requests.rs).
use teledap.Prelude.{ℕ, Bool, Option, List, String}
use teledap.Dap.Json.{Json}
use teledap.Dap.Types.{Source, SourceBreakpoint, FunctionBreakpoint}

pub data AdapterKind : Type 0 where
  codelldb gdb : AdapterKind

-- The payload of the IO and JSON errors is their text.
pub data DapClientError : Type 0 where
  spawn_failed process_exited not_connected dap_protocol timeout io json : String → DapClientError
  dap_request_failed : String → String → DapClientError

pub record AdapterConfig : Type 0 where
  pub path : String
  pub kind : AdapterKind
  pub args : List String

pub record SetBreakpointsArguments : Type 0 where
  pub source : Source
  pub breakpoints : Option (List SourceBreakpoint)
  pub lines : Option (List ℕ)
  pub source_modified : Option Bool

-- The arguments of a request. Those that the session passes on as it gets them are `raw`.
pub data Arguments : Type 0 where
  no_arguments : Arguments
  raw : Json → Arguments
  thread_arguments : ℕ → Option Bool → Arguments
  step_in_arguments : ℕ → Option Bool → Option ℕ → Arguments
  pause_arguments : ℕ → Arguments
  set_breakpoints_arguments : SetBreakpointsArguments → Arguments
  function_breakpoints_arguments : List FunctionBreakpoint → Arguments
  stack_trace_arguments : ℕ → Option ℕ → Option ℕ → Arguments
  scopes_arguments : ℕ → Arguments
  variables_arguments : ℕ → Option String → Option ℕ → Option ℕ → Arguments

-- `request` waits for the response, `request_nb` does not.
pub data ClientCall : Type 0 where
  start_adapter : AdapterConfig → ClientCall
  shutdown_adapter : ClientCall
  request request_nb : String → Arguments → ClientCall
