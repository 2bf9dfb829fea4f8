-- ===== src/Mcp/Router.antt =====
-- src/mcp_router.rs and the loop of src/server.rs: the routing of messages. `to_value` is
-- `serde_json::to_value` of a structure whose JSON is given, `describe` is the text of an error,
-- `version` is the version of the package, and the handlers of the tools are arguments.
use Prim.Native.String.{◌++◌ as ◌+++◌}
use teledap.Prelude.{
  ℕ, String, string_eq, Bool, true, false, not, ◌&&◌, Option, none, some, List, [], ◌∷◌, Result, ok,
  err, ◌==◌, if◌then◌else◌,
}
use teledap.Dap.Json.{
  Json, Fields, null, boolean, num, str, arr, obj, nil, cons, end, field, get, and_then, as_str,
  required_field, optional_field,
}
use teledap.Session.{DebugSession}
use teledap.Session.Events.{or_value}
use teledap.Trace.{Trace}
use teledap.Bridge.{BridgeError, Handler, list_tools_for_state, dispatch}
use teledap.Bridge.Tools.{Tool}
use teledap.Bridge.Execution.{CallToolResult}
use teledap.Mcp.{
  IncomingMessage, McpError, ErrorCode, code_parse_error, code_internal_error,
  code_method_not_found, code_value, request, notification,
}

-- A message to the client.
pub data JsonRpcMessage : Type 0 where
  response : ℕ → Json → JsonRpcMessage
  error : Option ℕ → ErrorCode → String → JsonRpcMessage
  notify : String → Option Json → JsonRpcMessage

abbrev pub id_value : Option ℕ → Json
id_value none = null
id_value (some id) = num id

abbrev pub params_field : Option Json → Fields
params_field none = end
params_field (some p) = field "params" p end

-- The serialization of a message.
unfoldable pub to_json : JsonRpcMessage → Json
to_json (response id result) =
    obj (field "jsonrpc" (str "2.0") (field "id" (num id) (field "result" result end)))
to_json (error id code message) = obj (
    field "jsonrpc" (str "2.0") (
      field "id" (id_value id) (
        field "error" (obj (field "code" (code_value code) (field "message" (str message) end)))
          end)))
to_json (notify method params) =
    obj (field "jsonrpc" (str "2.0") (field "method" (str method) (params_field params)))

-- What the router works on: whether its client has been through the handshake, the session, the
-- session's locator of liblldb, and the trace.
pub record World (Caps : Type 0) : Type 0 where
  pub initialized : Bool
  pub session : DebugSession Caps
  pub lib_lldb_path : Option String
  pub trace : Trace

-- The field of `InitializeParams` that the router reads. All its fields are checked.
abbrev pub implementation_info : Json → Option Json
implementation_info v =
    and_then (required_field as_str v "name")
      λ _. and_then (required_field as_str v "version") λ _. some v

unfoldable pub initialize_params : Json → Option (Option String)
initialize_params p = and_then (required_field as_str p "protocolVersion") λ _.
    and_then (get p "capabilities") λ _.
      and_then (required_field implementation_info p "clientInfo")
        λ _. optional_field as_str p "liblldbPath"

unfoldable pub initialize_result : String → Json
initialize_result version = obj (
    field "protocolVersion" (str "2025-11-25") (
      field "capabilities" (obj (field "tools" (obj (field "listChanged" (boolean true) end)) end))
        (field "serverInfo" (obj (field "name" (str "teleDAP") (field "version" (str version) end)))
          end)))

-- `is_error` is left out when it is false.
abbrev pub error_field : Bool → Fields
error_field true = field "isError" (boolean true) end
error_field false = end

unfoldable pub result_value : CallToolResult → Json
result_value r = obj (
    field "content"
      (arr (cons (obj (field "type" (str "text") (field "text" (str r.text) end))) nil))
      (error_field r.is_error))

-- `to_tool_result`
unfoldable pub to_tool_result : (BridgeError → String) → BridgeError → CallToolResult
to_tool_result describe e = record { text = describe e; is_error = true }

abbrev pub answered : ℕ → Result String Json → JsonRpcMessage
answered id (ok v) = response id v
answered id (err e) = error (some id) code_internal_error e

-- The result of a tool call, an error as a result that says so.
abbrev pub tool_answer :
    (Json → Result String Json)
    → (BridgeError → String)
    → ℕ
    → Result BridgeError CallToolResult
    → JsonRpcMessage
tool_answer to_value describe id (ok result) = answered id (to_value (result_value result))
tool_answer to_value describe id (err e) =
    answered id (to_value (result_value (to_tool_result describe e)))

module _ (to_value : Json → Result String Json) (tools_value : List Tool → Json)
    (describe : BridgeError → String) (version : String) {Caps : Type 0} where
  abbrev pub set_path : Option (Option String) → World Caps → World Caps
  set_path none w = w
  set_path (some path) w = record w { lib_lldb_path = path }

  unfoldable pub handle_initialize : Option Json → World Caps → World Caps × Result String Json
  unfolding initialize_params initialize_result
  handle_initialize params w =
      (set_path (and_then params initialize_params) w, to_value (initialize_result version))

  abbrev pub greeted : ℕ → World Caps × Result String Json → World Caps × JsonRpcMessage
  greeted id (w, ok result) = (record w { initialized = true }, response id result)
  greeted id (w, err e) = (w, error (some id) code_internal_error e)

  abbrev pub called :
      ℕ
      → World Caps
      → Option Trace × (DebugSession Caps × Result BridgeError CallToolResult)
      → World Caps × JsonRpcMessage
  called id w (t, (s, r)) =
      (record w { session = s; trace = or_value t w.trace }, tool_answer to_value describe id r)

  module _ (handlers : String → Json → Option (Handler Caps CallToolResult)) (now : ℕ) where
    abbrev pub call_named : ℕ → Json → World Caps → Option String → World Caps × JsonRpcMessage
    call_named id params w none =
        (w, error (some id) code_internal_error "Missing 'name' field in tools/call params")
    call_named id params w (some name) = called id w (
        dispatch handlers now name (or_value (get params "arguments") null) (some w.trace)
          w.session)

    unfoldable pub handle_tool_call : ℕ → Option Json → World Caps → World Caps × JsonRpcMessage
    unfolding result_value to_tool_result
    handle_tool_call id none w =
        (w, error (some id) code_internal_error "Missing params in tools/call")
    handle_tool_call id (some params) w =
        call_named id params w (and_then (get params "name") as_str)

    -- The match on the method.
    unfoldable pub route : ℕ → String → Option Json → World Caps → World Caps × JsonRpcMessage
    unfolding handle_initialize handle_tool_call
    route id method params w =
        if method == "initialize"
        then greeted id (handle_initialize params w)
        else if method == "tools/list"
        then (w, response id (tools_value (list_tools_for_state w.session.state)))
        else if method == "tools/call"
        then handle_tool_call id params w
        else (w, error (some id) code_method_not_found ("Unknown method: " +++ method))

    abbrev pub some_answer : World Caps × JsonRpcMessage → World Caps × Option JsonRpcMessage
    some_answer (w, m) = (w, some m)

    -- `none` is no answer.
    unfoldable pub handle_message :
        IncomingMessage → World Caps → World Caps × Option JsonRpcMessage
    unfolding route
    handle_message (request id method params) w =
        if not w.initialized && not (method == "initialize")
        then (w, some (error (some id) code_internal_error "Server not initialized"))
        else some_answer (route id method params w)
    handle_message (notification method params) w = (w, none)

abbrev pub sent : Option JsonRpcMessage → List JsonRpcMessage → List JsonRpcMessage
sent none l = l
sent (some m) l = m ∷ l

-- A turn of the loop: what was read, the time, and the handlers with the replies that they get.
pub record Turn (Caps : Type 0) : Type 0 where
  pub input : Result McpError IncomingMessage
  pub now : ℕ
  pub handlers : String → Json → Option (Handler Caps CallToolResult)

module _ (to_value : Json → Result String Json) (tools_value : List Tool → Json)
    (describe : BridgeError → String) (explain : McpError → String) (version : String)
    {Caps : Type 0} where
  abbrev pub handle_input :
      Result McpError IncomingMessage → Turn Caps → World Caps → World Caps × Option JsonRpcMessage
  handle_input (err e) t w = (w, some (error none code_parse_error (explain e)))
  handle_input (ok m) t w =
      handle_message to_value tools_value describe version t.handlers t.now m w

  -- The loop, with what it sends to the client.
  unfoldable pub serve : List (Turn Caps) → World Caps → World Caps × List JsonRpcMessage
  unfolding handle_message
  serve [] w = (w, [])
  serve (t ∷ ts) w =
      let (w', m) = handle_input t.input t w in let (w'', l) = serve ts w' in (w'', sent m l)
