-- ===== src/Bridge.antt =====
-- crates/debug-bridge/src/registry.rs and error.rs: which tools a state offers, and the dispatch of a
-- tool call. The handler of a tool is an argument of the dispatch.
pub mod Tools
pub mod Registry
pub mod Routes
pub mod Execution
pub mod Inspect
pub mod BreakpointTools
pub mod Lifecycle
pub mod OpenOcdTools
pub mod PathTools
use teledap.Prelude.{
  ℕ, String, string_eq, Bool, true, false, not, Option, none, some, List, [], ◌∷◌, Result, ok, err,
  contains, retain, if◌then◌else◌,
}
use teledap.State.{SessionState}
use teledap.Gating.{is_allowed, describe_requirements, operations_for_state}
use teledap.Dap.Json.{Json}
use teledap.Session.{DebugSessionError, DebugSession}
use teledap.Trace.{Trace, trace, TraceSource, TraceDirection, entry_of}
use teledap.Bridge.Tools.{Tool, all_tools, tool_operation}

-- The error of JSON is its text.
pub data BridgeError : Type 0 where
  unknown_tool : String → BridgeError
  session : DebugSessionError → BridgeError
  invalid_params : String → String → BridgeError
  json internal : String → BridgeError

-- A tool call changes the session and returns or fails.
abbrev pub Handler : Type 0 → Type 0 → Type 0
Handler Caps R = DebugSession Caps → DebugSession Caps × Result BridgeError R

-- `.map(|op| ops.contains(op)).unwrap_or(true)`
abbrev pub offered : List String → Option String → Bool
offered ops none = true
offered ops (some op) = contains op ops

unfoldable pub list_tools_for_state : SessionState → List Tool
list_tools_for_state state =
    let ops = operations_for_state state in
    retain (λ t. offered ops (tool_operation t.name)) all_tools

-- The state gating of the dispatch: the error with which it ends, if it does.
abbrev pub refused : SessionState → Option String → Option BridgeError
refused state none = none
refused state (some op) =
    if is_allowed op state then none else some (internal (describe_requirements op))

unfoldable pub refusal : String → SessionState → Option BridgeError
refusal name state = refused state (tool_operation name)

-- The entry of a tool call, if there is a trace.
unfoldable pub trace_trigger : ℕ → String → Json → Option Trace → Option Trace
trace_trigger now name params none = none
trace_trigger now name params (some t) = some (
    trace t (
      entry_of now TraceSource.mcp_trigger TraceDirection.inbound name (some params) none none
        t.session_id))

abbrev pub route :
    {Caps R : Type 0}
    → String
    → Option (Handler Caps R)
    → DebugSession Caps
    → DebugSession Caps × Result BridgeError R
route name none s = (s, err (unknown_tool name))
route name (some h) s = h s

module _ {Caps R : Type 0} (handlers : String → Json → Option (Handler Caps R)) where
  abbrev pub pass :
      ℕ
      → String
      → Json
      → Option Trace
      → DebugSession Caps
      → Option BridgeError
      → Option Trace × (DebugSession Caps × Result BridgeError R)
  pass now name params t s (some e) = (t, (s, err e))
  pass now name params t s none =
      (trace_trigger now name params t, route name (handlers name params) s)

  unfoldable pub dispatch :
      ℕ
      → String
      → Json
      → Option Trace
      → DebugSession Caps
      → Option Trace × (DebugSession Caps × Result BridgeError R)
  dispatch now name params t s = pass now name params t s (refusal name s.state)
