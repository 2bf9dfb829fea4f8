-- ===== src/Bridge/Inspect.antt =====
-- crates/debug-bridge/src/handlers/inspect.rs: the tools that look at the debuggee. `explain` is the
-- text of a deserialization error and each `pretty` is `serde_json::to_string_pretty` of its value. A
-- field that is given twice and arguments in an array are not modelled.
pub mod Context
pub mod Quiet
use teledap.Prelude.{
  ℕ, String, string_eq, Bool, false, Option, none, some, List, [], ◌∷◌, Result, ok, err, ◌==◌,
  if◌then◌else◌, length,
}
use teledap.Dap.Json.{
  Json, Items, Fields, null, num, str, arr, obj, nil, cons, end, field, get, as_str, as_u64,
  and_then, optional_field, required_field,
}
use teledap.Dap.Types.{Breakpoint, Thread, Variable}
use teledap.Cache
use teledap.Cache.{VariableHandleEntry}
use teledap.Session.{DebugSession, Exec, ◌>>=◌, ◌>>◌, pure, modify, cache_variables}
use teledap.Session.Events.{Event, or_value}
use teledap.Session.Operations as Operations
use teledap.Session.Operations.{Reply}
use teledap.Bridge.{BridgeError, Handler}
use teledap.Bridge.Execution.{CallToolResult, to_json_error, handle}

pub record StackTraceParams : Type 0 where
  pub thread_id : ℕ
  pub levels : Option ℕ
  pub start_frame : Option ℕ

unfoldable pub stack_trace_params : Json → Option StackTraceParams
stack_trace_params params = and_then (required_field as_u64 params "threadId") λ t.
    and_then (optional_field as_u64 params "levels") λ l.
      and_then (optional_field as_u64 params "startFrame")
        λ f. some (record { thread_id = t; levels = l; start_frame = f })

unfoldable pub scopes_params : Json → Option ℕ
scopes_params params = required_field as_u64 params "frameId"

pub record VariablesParams : Type 0 where
  pub variables_reference : ℕ
  pub filter : Option String
  pub first : Option ℕ
  pub count : Option ℕ

unfoldable pub variables_params : Json → Option VariablesParams
variables_params params = and_then (required_field as_u64 params "variablesReference") λ v.
    and_then (optional_field as_str params "filter") λ f.
      and_then (optional_field as_u64 params "start") λ s.
        and_then (optional_field as_u64 params "count")
          λ c. some (record { variables_reference = v; filter = f; first = s; count = c })

-- The filter that is sent, by its wire name.
unfoldable pub variable_filter : Option String → Option String
variable_filter none = none
variable_filter (some f) = if f == "named" then some f else if f == "indexed" then some f else none

pub record EvaluateParams : Type 0 where
  pub expression : String
  pub frame_id : Option ℕ
  pub context : Option String

unfoldable pub evaluate_params : Json → Option EvaluateParams
evaluate_params params = and_then (required_field as_str params "expression") λ e.
    and_then (optional_field as_u64 params "frameId") λ f.
      and_then (optional_field as_str params "context")
        λ c. some (record { expression = e; frame_id = f; context = c })

-- The context that is sent, by its wire name.
unfoldable pub evaluate_context : Option String → Option String
evaluate_context none = none
evaluate_context (some c) =
    if c == "watch"
    then some c
    else if c == "repl"
    then some c
    else if c == "hover"
    then some c
    else if c == "clipboard"
    then some c
    else none

abbrev pub number_field : String → Option ℕ → Fields → Fields
number_field key none fs = fs
number_field key (some n) fs = field key (num n) fs

abbrev pub string_field : String → Option String → Fields → Fields
string_field key none fs = fs
string_field key (some s) fs = field key (str s) fs

-- `EvaluateArguments` on the wire.
unfoldable pub evaluate_arguments : EvaluateParams → Json
unfolding evaluate_context
evaluate_arguments p = obj (
    field "expression" (str p.expression)
      (number_field "frameId" p.frame_id (string_field "context" (evaluate_context p.context) end)))

pub record SetVariableParams : Type 0 where
  pub variables_reference : ℕ
  pub name : String
  pub value : String

unfoldable pub set_variable_params : Json → Option SetVariableParams
set_variable_params params = and_then (required_field as_u64 params "variablesReference") λ r.
    and_then (required_field as_str params "name") λ n.
      and_then (required_field as_str params "value")
        λ v. some (record { variables_reference = r; name = n; value = v })

-- `SetVariableArguments` on the wire.
unfoldable pub set_variable_arguments : SetVariableParams → Json
set_variable_arguments p = obj (
    field "variablesReference" (num p.variables_reference)
      (field "name" (str p.name) (field "value" (str p.value) end)))

pub record SearchVariablesParams : Type 0 where
  pub query : String
  pub limit : Option ℕ

unfoldable pub search_variables_params : Json → Option SearchVariablesParams
search_variables_params params =
    and_then (required_field as_str params "query") λ q.
      and_then (optional_field as_u64 params "limit") λ l. some (record { query = q; limit = l })

abbrev pub opt_num : Option ℕ → Json
opt_num none = null
opt_num (some n) = num n

abbrev pub opt_str : Option String → Json
opt_str none = null
opt_str (some s) = str s

-- What `search_variables` says of an entry.
unfoldable pub entry_json : VariableHandleEntry → Json
entry_json e = obj (
    field "name" (str e.name) (
      field "variablesReference" (num e.variables_reference) (
        field "type" (opt_str e.var_type) (
          field "namedVariables" (opt_num e.named_variables) (
            field "indexedVariables" (opt_num e.indexed_variables) (
              field "frameId" (opt_num e.frame_id)
                (field "scopeName" (opt_str e.scope_name) end)))))))

unfoldable pub entries_json : List VariableHandleEntry → Items
entries_json [] = nil
entries_json (e ∷ es) = cons (entry_json e) (entries_json es)

unfoldable pub search_json : String → List VariableHandleEntry → Json
unfolding entry_json entries_json
search_json query entries = obj (
    field "query" (str query)
      (field "count" (num (length entries)) (field "results" (arr (entries_json entries)) end)))

module _ (breakpoint_of : Json → Option Breakpoint) (explain : Json → String) {Caps : Type 0} where
  -- The only handler of these without arguments.
  unfoldable pub handle_get_threads :
      (List Thread → Result String String)
      → Json
      → Reply (List Thread)
      → List Event
      → Handler Caps CallToolResult
  handle_get_threads pretty params reply meanwhile =
      handle "get_threads" "" (some tt) (λ _. Operations.get_threads breakpoint_of reply meanwhile)
        (λ r. to_json_error (pretty r))

  unfoldable pub handle_get_stack_trace :
      {R : Type 0}
      → (R → Result String String)
      → Json
      → Reply R
      → List Event
      → Handler Caps CallToolResult
  handle_get_stack_trace pretty params reply meanwhile =
      handle "get_stack_trace" (explain params) (stack_trace_params params)
        (λ p.
          Operations.get_stack_trace breakpoint_of p.thread_id p.start_frame p.levels reply
            meanwhile)
        (λ r. to_json_error (pretty r))

  unfoldable pub handle_get_scopes :
      {R : Type 0}
      → (R → Result String String)
      → Json
      → Reply R
      → List Event
      → Handler Caps CallToolResult
  handle_get_scopes pretty params reply meanwhile =
      handle "get_scopes" (explain params) (scopes_params params)
        (λ f. Operations.get_scopes breakpoint_of f reply meanwhile) (λ r. to_json_error (pretty r))

  -- The variables are cached at the time `now`, whatever the state is by then.
  unfoldable pub fetch_variables :
      ℕ → VariablesParams → Reply (List Variable) → List Event → Exec Caps (List Variable)
  fetch_variables now p reply meanwhile = do
    variables ←
        Operations.get_variables breakpoint_of p.variables_reference (variable_filter p.filter)
          p.first p.count reply meanwhile
    modify (cache_variables now variables none none)
    pure variables

  unfoldable pub handle_get_variables :
      (List Variable → Result String String)
      → ℕ
      → Json
      → Reply (List Variable)
      → List Event
      → Handler Caps CallToolResult
  unfolding fetch_variables
  handle_get_variables pretty now params reply meanwhile =
      handle "get_variables" (explain params) (variables_params params)
        (λ p. fetch_variables now p reply meanwhile) (λ r. to_json_error (pretty r))

  unfoldable pub handle_evaluate :
      {R : Type 0}
      → (R → Result String String)
      → Json
      → Reply R
      → List Event
      → Handler Caps CallToolResult
  handle_evaluate pretty params reply meanwhile =
      handle "evaluate" (explain params) (evaluate_params params)
        (λ p. Operations.evaluate breakpoint_of (evaluate_arguments p) reply meanwhile)
        (λ r. to_json_error (pretty r))

  unfoldable pub handle_set_variable :
      {R : Type 0}
      → (R → Result String String)
      → Json
      → Reply R
      → List Event
      → Handler Caps CallToolResult
  handle_set_variable pretty params reply meanwhile =
      handle "set_variable" (explain params) (set_variable_params params)
        (λ p. Operations.set_variable breakpoint_of (set_variable_arguments p) reply meanwhile)
        (λ r. to_json_error (pretty r))

  -- `to_lowercase` is that of strings.
  unfoldable pub handle_search_variables :
      (Json → Result String String) → (String → String) → Json → Handler Caps CallToolResult
  handle_search_variables pretty to_lowercase params =
      handle "search_variables" (explain params) (search_variables_params params)
        (λ p s. (
          s,
          ok (
              search_json p.query
                (Cache.search to_lowercase s.variable_cache p.query (or_value p.limit 20))),
        ))
        (λ r. to_json_error (pretty r))
