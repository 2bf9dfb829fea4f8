-- ===== src/Bridge/Lifecycle.antt =====
-- crates/debug-bridge/src/handlers/lifecycle.rs: the tools that start, configure and end a session, and
-- `get_state`. `resolve` is the path mapper's `resolve`; the tools that change the path mapper are not
-- modelled.
pub mod Startup
use Prim.Native.String.{◌++◌ as ◌+++◌}
use teledap.Prelude.{
  ℕ, ◌≡◌, ◌≢◌, refl, ap, String, string_eq, option_eq, Bool, true, false, Option, none, some, List,
  [], ◌∷◌, Result, ok, err, ◌==◌, if◌then◌else◌,
}
use teledap.Dap.Json.{
  Json, Items, Fields, get, null, boolean, num, str, arr, obj, nil, cons, end, field, as_str,
  as_u64, as_bool, and_then, optional_field, required_field, optional_value,
}
use teledap.Dap.Types.{Breakpoint}
use teledap.State.{SessionState, display}
use teledap.Gating.{operations_for_state}
use teledap.Session.{DebugSession, DebugSessionError, Exec}
use teledap.Session.Calls.{AdapterKind, codelldb, gdb, AdapterConfig}
use teledap.Session.Events.{Event, or_value}
use teledap.Session.Operations as Operations
use teledap.Session.Operations.{Reply}
use teledap.Bridge.{BridgeError, Handler, list_tools_for_state}
use BridgeError.{session, invalid_params}
use teledap.Bridge.Tools.{Tool}
use teledap.Bridge.Execution.{CallToolResult, success, to_json_error, handle, reported}
use teledap.Bridge.BreakpointTools.{items_of, as_list, resolved}

-- The derived `Debug` of a kind.
abbrev pub debug_kind : AdapterKind → String
debug_kind codelldb = "Codelldb"
debug_kind gdb = "Gdb"

-- A field under its name or its alias; both at once is an error.
abbrev pub aliased : Option Json → Option Json → Option Json
aliased (some a) none = some a
aliased none (some b) = some b
aliased _ _ = none

pub record StartParams : Type 0 where
  pub adapter_path : String
  pub adapter_kind : Option String
  pub adapter_args : Option (List String)

unfoldable pub start_params : Json → Option StartParams
unfolding items_of
start_params params = and_then (aliased (get params "adapterPath") (get params "codelldbPath")) λ v.
    and_then (as_str v) λ p. and_then (optional_field as_str params "adapterKind") λ k.
      and_then (optional_field (as_list as_str) params "adapterArgs")
        λ a. some (record { adapter_path = p; adapter_kind = k; adapter_args = a })

unfoldable pub kind_named : Option String → AdapterKind
kind_named none = codelldb
kind_named (some k) = if k == "gdb" then gdb else codelldb

unfoldable pub config_of : StartParams → AdapterConfig
unfolding kind_named
config_of p = record {
  path = p.adapter_path;
  kind = kind_named p.adapter_kind;
  args = or_value p.adapter_args [];
}

unfoldable pub initialize_params : Json → Option (Option String)
initialize_params params = optional_field as_str params "adapterId"

abbrev pub default_id : Option AdapterKind → String
default_id (some gdb) = "gdb"
default_id (some codelldb) = "lldb"
default_id none = "lldb"

abbrev yes : Json
yes = boolean true

abbrev no : Json
no = boolean false

-- `InitializeRequestArguments` on the wire.
unfoldable pub initialize_arguments : String → Json
initialize_arguments adapter_id = obj (
    field "clientID" (str "teledap") (
      field "clientName" (str "TeleDAP") (
        field "adapterID" (str adapter_id) (
          field "locale" (str "en-US") (
            field "linesStartAt1" yes (
              field "columnsStartAt1" yes (
                field "pathFormat" (str "path") (
                  field "supportsVariableType" yes (
                    field "supportsVariablePaging" no (
                      field "supportsRunInTerminalRequest" no (
                        field "supportsMemoryReferences" yes (
                          field "supportsProgressReporting" yes (
                            field "supportsInvalidatedEvent" yes
                              (field "supportsMemoryEvent" yes end))))))))))))))

pub record LaunchParams : Type 0 where
  pub program : String
  pub args : Option (List String)
  pub env : Option Json
  pub stop_on_entry : Option Bool
  pub gdb_remote : Option String

unfoldable pub launch_params : Json → Option LaunchParams
unfolding items_of
launch_params params = and_then (required_field as_str params "program") λ p.
    and_then (optional_field (as_list as_str) params "args") λ a.
      and_then (optional_field (λ v. some v) params "env") λ e.
        and_then (optional_field as_bool params "stopOnEntry") λ s.
          and_then (optional_field as_str params "gdbRemote")
            λ r. some (record { program = p; args = a; env = e; stop_on_entry = s; gdb_remote = r })

abbrev pub strings : List String → Items
strings [] = nil
strings (s ∷ l) = cons (str s) (strings l)

-- How an adapter is told of a remote target.
abbrev pub remote_fields : Option AdapterKind → Option String → Fields → Fields
remote_fields kind none fs = fs
remote_fields (some gdb) (some remote) fs = field "target" (str ("remote " +++ remote)) fs
remote_fields _ (some remote) fs =
    field "processCreateCommands" (arr (cons (str ("gdb-remote " +++ remote)) nil)) fs

abbrev pub args_field : Option (List String) → Fields → Fields
args_field none fs = fs
args_field (some l) fs = field "args" (arr (strings l)) fs

abbrev pub env_field : Option Json → Fields → Fields
env_field none fs = fs
env_field (some e) fs = field "env" e fs

-- `launch_extra`, to which the arguments of the request are flattened.
unfoldable pub launch_extra : (String → Option String) → Option AdapterKind → LaunchParams → Json
launch_extra resolve kind p = obj (
    field "program" (str (resolved resolve p.program)) (
      field "stopOnEntry" (boolean (or_value p.stop_on_entry false))
        (remote_fields kind p.gdb_remote (args_field p.args (env_field p.env end)))))

pub record AttachParams : Type 0 where
  pub pid : Option ℕ
  pub extra : Option Json

unfoldable pub attach_params : Json → Option AttachParams
attach_params params = and_then (optional_field as_u64 params "pid") λ p.
    and_then (optional_field (λ v. some v) params "extra") λ e. some (record { pid = p; extra = e })

abbrev pub pid_object : Option ℕ → Json
pid_object none = obj end
pid_object (some pid) = obj (field "pid" (num pid) end)

-- The arguments of the request, if `extra` is an object; flattening anything else fails when the
-- request is written.
unfoldable pub attach_extra : AttachParams → Json
attach_extra p = or_value p.extra (pid_object p.pid)

unfoldable pub get_state_params : Json → Option (Option String)
get_state_params params = optional_field as_str params "detail"

abbrev pub tool_names : List Tool → List String
tool_names [] = []
tool_names (t ∷ ts) = t.name ∷ tool_names ts

-- `caps` is the JSON of the capabilities.
unfoldable pub state_json : SessionState → Option Json → Json
state_json state caps = obj (
    field "state" (str (display state)) (
      field "available_operations" (arr (strings (operations_for_state state))) (
        field "available_tools" (arr (strings (tool_names (list_tools_for_state state))))
          (capabilities caps))))
  where
    capabilities : Option Json → Fields
    capabilities none = end
    capabilities (some j) = field "capabilities" j end

abbrev pub ok_result : String → Result BridgeError CallToolResult
ok_result msg = ok (success msg)

module _ {Caps A : Type 0} where
  -- A report that reads the state when the operation has ended.
  abbrev pub reported_after :
      (DebugSession Caps → A → Result BridgeError CallToolResult)
      → DebugSession Caps × Result DebugSessionError A
      → DebugSession Caps × Result BridgeError CallToolResult
  reported_after f (s, ok a) = (s, f s a)
  reported_after f (s, err e) = (s, err (session e))

module _ (breakpoint_of : Json → Option Breakpoint) (explain : Json → String) {Caps : Type 0} where
  abbrev pub started :
      String → Option StartParams → Reply (Unit {0}) → List Event → Handler Caps CallToolResult
  started message none reply meanwhile s = (s, err (invalid_params "start" message))
  started message (some p) reply meanwhile s =
      reported_after
        (λ t _. ok_result (
          "Debug adapter process started (kind: "
          +++ debug_kind (kind_named p.adapter_kind)
          +++ "). State: "
          +++ display t.state))
        (Operations.start breakpoint_of (config_of p) reply meanwhile s)

  unfoldable pub handle_start : Json → Reply (Unit {0}) → List Event → Handler Caps CallToolResult
  handle_start params reply meanwhile =
      started (explain params) (start_params params) reply meanwhile

  unfoldable pub handle_initialize :
      (Caps → Result String String) → Json → Reply Caps → List Event → Handler Caps CallToolResult
  handle_initialize pretty params reply meanwhile s =
      handle "initialize" (explain params) (initialize_params params)
        (λ id.
          Operations.initialize breakpoint_of
            (initialize_arguments (or_value id (default_id s.adapter_kind))) reply meanwhile)
        (λ caps. to_json_error (pretty caps)) s

  abbrev pub launching :
      (String → Option String)
      → String
      → Option LaunchParams
      → Reply (Unit {0})
      → List Event
      → Handler Caps CallToolResult
  launching resolve message none reply meanwhile s = (s, err (invalid_params "launch" message))
  launching resolve message (some p) reply meanwhile s =
      reported
        (λ _.
          ok_result
            ("Launch command sent for: " +++ p.program +++ ". Waiting for initialized event."))
        (Operations.launch breakpoint_of (launch_extra resolve s.adapter_kind p) reply meanwhile s)

  unfoldable pub handle_launch :
      (String → Option String) → Json → Reply (Unit {0}) → List Event → Handler Caps CallToolResult
  handle_launch resolve params reply meanwhile =
      launching resolve (explain params) (launch_params params) reply meanwhile

  unfoldable pub handle_attach : Json → Reply (Unit {0}) → List Event → Handler Caps CallToolResult
  handle_attach params reply meanwhile =
      handle "attach" (explain params) (attach_params params)
        (λ p. Operations.attach breakpoint_of (attach_extra p) reply meanwhile)
        (λ _. ok_result "Attach command sent.")

  unfoldable pub handle_configuration_done :
      Json → Reply (Unit {0}) → List Event → Handler Caps CallToolResult
  handle_configuration_done params reply meanwhile s =
      reported_after (λ t _. ok_result ("Configuration done. State: " +++ display t.state))
        (Operations.configuration_done breakpoint_of reply meanwhile s)

  unfoldable pub handle_shutdown : Json → List Event → Handler Caps CallToolResult
  handle_shutdown params meanwhile s =
      reported (λ _. ok_result "Session shut down. Debug adapter process terminated.")
        (Operations.shutdown breakpoint_of meanwhile s)

  -- The capabilities are left out of the simple answer.
  unfoldable pub handle_get_state :
      (Option Caps → Json) → (Json → Result String String) → Json → Handler Caps CallToolResult
  handle_get_state caps_json pretty params =
      handle "get_state" (explain params) (get_state_params params)
        (λ detail s. (
          s,
          ok (
              state_json s.state
                (if detail == some "simple" then none else some (caps_json s.capabilities))),
        ))
        (λ info. to_json_error (pretty info))
