-- ===== src/Bridge/Inspect/Context.antt =====
-- `assemble_context` of crates/debug-bridge/src/handlers/inspect.rs: the tree of threads, frames, scopes
-- and variables, from one call of the session after the other.
use teledap.Prelude.{
  ℕ, String, nat_eq, ◌&&◌, Option, none, some, List, [], ◌∷◌, Result, ok, err, ◌==◌, if◌then◌else◌,
  length, ltb, retain,
}
use teledap.Dap.Json.{
  Json, Items, null, num, str, arr, obj, nil, cons, end, field, as_u64, and_then, optional_field,
}
use teledap.Dap.Types.{Breakpoint, Thread, Variable, Source, StackFrame, Scope}
use teledap.Session.{DebugSession, DebugSessionError, cache_variables}
use teledap.Session.Events.{Event, or_value}
use teledap.Session.Operations as Operations
use teledap.Session.Operations.{Reply}
use teledap.Bridge.{BridgeError, Handler}
use BridgeError.{session, invalid_params}
use teledap.Bridge.Execution.{CallToolResult, to_json_error}
use teledap.Bridge.Inspect.{opt_num, opt_str}

pub record AssembleContextParams : Type 0 where
  pub thread_id : Option ℕ
  pub max_frames : Option ℕ
  pub max_depth : Option ℕ

unfoldable pub assemble_context_params : Json → Option AssembleContextParams
assemble_context_params params = and_then (optional_field as_u64 params "threadId") λ t.
    and_then (optional_field as_u64 params "maxFrames") λ f.
      and_then (optional_field as_u64 params "maxDepth")
        λ d. some (record { thread_id = t; max_frames = f; max_depth = d })

-- What the adapter answers, and which events are handled meanwhile. The first number counts the calls
-- that the session has made, so that equal requests can have different answers.
pub record Adapter : Type 0 where
  pub threads : ℕ → Reply (List Thread) × List Event
  pub frames : ℕ → ℕ → Reply (List StackFrame) × List Event
  pub scopes : ℕ → ℕ → Reply (List Scope) × List Event
  pub variables : ℕ → ℕ → Reply (List Variable) × List Event

abbrev pub add : Option Json → Items → Items
add none js = js
add (some j) js = cons j js

-- A loop that collects what its turns give; a turn that gives nothing is a `continue`.
unfoldable pub each : {A S : Type 0} → (A → S → S × Option Json) → List A → S → S × Items
each f [] s = (s, nil)
each f (a ∷ l) s = let (s', o) = f a s in let (s'', js) = each f l s' in (s'', add o js)

abbrev pub shown : (Variable → Json) → List Variable → Items
shown show [] = nil
shown show (v ∷ vs) = cons (show v) (shown show vs)

abbrev pub opt_children : (Variable → Json) → Option (List Variable) → Json
opt_children show none = null
opt_children show (some vs) = arr (shown show vs)

-- `show` is the serialization of a variable.
unfoldable pub variable_json : (Variable → Json) → Variable → Option (List Variable) → Json
variable_json show v children = obj (
    field "name" (str v.name) (
      field "value" (str v.value) (
        field "type" (opt_str v.var_type) (
          field "variablesReference" (num v.variables_reference)
            (field "children" (opt_children show children) end)))))

unfoldable pub scope_json : Scope → Items → Json
scope_json c variables = obj (
    field "name" (str c.name) (
      field "variablesReference" (num c.variables_reference) (
        field "namedVariables" (opt_num c.named_variables) (
          field "indexedVariables" (opt_num c.indexed_variables)
            (field "variables" (arr variables) end)))))

abbrev pub source_json : Option Source → Json
source_json none = null
source_json (some s) = obj (field "name" (opt_str s.name) (field "path" (opt_str s.path) end))

unfoldable pub frame_json : StackFrame → Items → Json
frame_json f scopes = obj (
    field "id" (num f.id) (
      field "name" (str f.name) (
        field "source" (source_json f.source) (
          field "line" (num f.line)
            (field "column" (num f.column) (field "scopes" (arr scopes) end))))))

unfoldable pub thread_json : Thread → Items → Json
thread_json t frames =
    obj (field "id" (num t.id) (field "name" (str t.name) (field "frames" (arr frames) end)))

unfoldable pub context_json : List Thread → Items → Json
context_json threads items =
    obj (field "threads" (arr items) (field "total_threads" (num (length threads)) end))

abbrev pub to_option : {E A : Type 0} → Result E A → Option A
to_option (ok a) = some a
to_option (err e) = none

abbrev pub chosen : Option ℕ → List Thread → List Thread
chosen none threads = threads
chosen (some tid) threads = retain (λ t. t.id == tid) threads

module _ (breakpoint_of : Json → Option Breakpoint) (adapter : Adapter) (show : Variable → Json)
    (clock : ℕ → ℕ) {Caps : Type 0} where
  abbrev pub fetch :
      ℕ
      → Option ℕ
      → DebugSession Caps
      → DebugSession Caps × Result DebugSessionError (List Variable)
  fetch reference count s =
      let (reply, meanwhile) = adapter.variables (length s.calls) reference in
      Operations.get_variables breakpoint_of reference none none count reply meanwhile s

  abbrev pub expanded :
      Variable
      → DebugSession Caps × Result DebugSessionError (List Variable)
      → DebugSession Caps × Option Json
  expanded v (s, r) = (s, some (variable_json show v (to_option r)))

  -- The children of the top level only.
  unfoldable pub variable_context :
      ℕ → Variable → DebugSession Caps → DebugSession Caps × Option Json
  variable_context max_depth v s =
      if ltb 0 v.variables_reference && ltb 1 max_depth
      then expanded v (fetch v.variables_reference (some 50) s)
      else (s, some (variable_json show v none))

  abbrev pub described : Scope → DebugSession Caps × Items → DebugSession Caps × Option Json
  described c (s, js) = (s, some (scope_json c js))

  -- The variables are cached before their children are fetched.
  abbrev pub listed :
      ℕ
      → StackFrame
      → Scope
      → DebugSession Caps × Result DebugSessionError (List Variable)
      → DebugSession Caps × Option Json
  listed max_depth frame c (s, err e) = (s, some (scope_json c nil))
  listed max_depth frame c (s, ok vs) = described c (
      each (variable_context max_depth) vs
        (cache_variables (clock (length s.calls)) vs (some frame.id) (some c.name) s))

  unfoldable pub scope_context :
      ℕ → StackFrame → Scope → DebugSession Caps → DebugSession Caps × Option Json
  unfolding variable_context
  scope_context max_depth frame c s =
      if ltb 0 c.variables_reference
      then listed max_depth frame c (fetch c.variables_reference none s)
      else (s, some (scope_json c nil))

  abbrev pub framed : StackFrame → DebugSession Caps × Items → DebugSession Caps × Option Json
  framed frame (s, js) = (s, some (frame_json frame js))

  abbrev pub scoped :
      ℕ
      → StackFrame
      → DebugSession Caps × Result DebugSessionError (List Scope)
      → DebugSession Caps × Option Json
  scoped max_depth frame (s, err e) = (s, none)
  scoped max_depth frame (s, ok scopes) =
      framed frame (each (scope_context max_depth frame) scopes s)

  unfoldable pub frame_context :
      ℕ → StackFrame → DebugSession Caps → DebugSession Caps × Option Json
  unfolding scope_context
  frame_context max_depth frame s =
      let (reply, meanwhile) = adapter.scopes (length s.calls) frame.id in
      scoped max_depth frame (Operations.get_scopes breakpoint_of frame.id reply meanwhile s)

  abbrev pub threaded : Thread → DebugSession Caps × Items → DebugSession Caps × Option Json
  threaded t (s, js) = (s, some (thread_json t js))

  abbrev pub stacked :
      ℕ
      → Thread
      → DebugSession Caps × Result DebugSessionError (List StackFrame)
      → DebugSession Caps × Option Json
  stacked max_depth t (s, err e) = (s, none)
  stacked max_depth t (s, ok frames) = threaded t (each (frame_context max_depth) frames s)

  unfoldable pub thread_context :
      ℕ → ℕ → Thread → DebugSession Caps → DebugSession Caps × Option Json
  unfolding frame_context
  thread_context max_frames max_depth t s =
      let (reply, meanwhile) = adapter.frames (length s.calls) t.id in
      stacked max_depth t
        (Operations.get_stack_trace breakpoint_of t.id none (some max_frames) reply meanwhile s)

  abbrev pub assembled :
      (Json → Result String String)
      → AssembleContextParams
      → DebugSession Caps × Result DebugSessionError (List Thread)
      → DebugSession Caps × Result BridgeError CallToolResult
  assembled pretty p (s, err e) = (s, err (session e))
  assembled pretty p (s, ok threads) =
      let targets = chosen p.thread_id threads in
      let (s', js) =
        each (thread_context (or_value p.max_frames 10) (or_value p.max_depth 2)) targets s in
      (s', to_json_error (pretty (context_json targets js)))

  abbrev pub assemble :
      (Json → Result String String)
      → String
      → Option AssembleContextParams
      → Handler Caps CallToolResult
  assemble pretty message none s = (s, err (invalid_params "assemble_context" message))
  assemble pretty message (some p) s =
      let (reply, meanwhile) = adapter.threads (length s.calls) in
      assembled pretty p (Operations.get_threads breakpoint_of reply meanwhile s)

  -- `explain` is the text of a deserialization error.
  unfoldable pub handle_assemble_context :
      (Json → Result String String) → (Json → String) → Json → Handler Caps CallToolResult
  unfolding thread_context each
  handle_assemble_context pretty explain params =
      assemble pretty (explain params) (assemble_context_params params)
