-- ===== src/Checks/Mcp.antt =====
-- Tests of the router and instances of its theorems.
use teledap.Prelude.{
  String, string_eq, Bool, false, ◌≡◌, refl, none, some, Option, List, [], ◌∷◌, arith, Result, ok,
  err,
}
use teledap.Dict
use teledap.Dap.Json.{Json, null, str, obj, end, field}
use teledap.State.{state_eq}
use teledap.Session
use teledap.Trace.{Trace}
use teledap.Bridge.{BridgeError, Handler, dispatch, refusal, unknown_tool}
use teledap.Bridge.Tools.{Tool, tool_operation, operation_table}
use teledap.Bridge.Execution.{CallToolResult}
use teledap.Mcp.{IncomingMessage, McpError, request, notification, protocol}
use teledap.Mcp.Messages.{message_json, read_all, messages_in, read_all-messages_in}
use teledap.Mcp.Router.{World, Turn, serve}
use teledap.Mcp.Answers.{ids, serve-expected_ids}
use teledap.Mcp.Handshake.{serve_closed}

abbrev pub value : Json → Result String Json
value j = ok j

abbrev pub tools : List Tool → Json
tools l = null

abbrev pub text : BridgeError → String
text e = "error"

abbrev pub words : McpError → String
words e = "Protocol error"

abbrev pub no_handlers : String → Json → Option (Handler (Unit {0}) CallToolResult)
no_handlers name params = none

abbrev pub blank : Trace
blank = record { channel = []; ring = []; file = none; session_id = "s" }

abbrev pub world : Bool → World (Unit {0})
world greeted = record {
  initialized = greeted;
  session = Session.new false;
  lib_lldb_path = none;
  trace = blank;
}

abbrev turn : Result McpError IncomingMessage → Turn (Unit {0})
turn i = record { input = i; now = 0; handlers = no_handlers }

-- A call before the handshake, something unreadable, and a notification.
abbrev too_early : List (Turn (Unit {0}))
too_early =
    turn (ok (request 1 "tools/call" (some null)))
    ∷ turn (err (protocol "Parse error: EOF"))
    ∷ turn (ok (notification "notifications/initialized" none))
    ∷ []

serve-expected_ids_example :
    ids (serve value tools text words "1.0" too_early (world false)).1 ≡ some 1 ∷ none ∷ []
serve-expected_ids_example = serve-expected_ids value tools text words "1.0" too_early (world false)

serve_closed_example : (serve value tools text words "1.0" too_early (world false)).0 ≡ world false
serve_closed_example =
    serve_closed value tools text words "1.0" too_early (world false) refl
      (refl, (refl, (refl, tt)))

abbrev call_params : Json
call_params = obj (field "name" (str "no_such_tool") end)

no_such_tool :
    (dispatch no_handlers 0 "no_such_tool" null (some blank) (Session.new false)).1.1
    ≡ err (unknown_tool "no_such_tool")
unfolding dispatch refusal tool_operation operation_table Dict.get
no_such_tool = refl

abbrev greeting : IncomingMessage
greeting = request 3 "initialize" (some null)

abbrev reader : String → Result String Json
reader s = ok (message_json greeting)

abbrev no_trim : String → String
no_trim s = s

read_all-messages_in_example :
    read_all reader no_trim 3 (ok "" ∷ ok "{}" ∷ [])
    ≡ some (messages_in reader no_trim (ok "" ∷ ok "{}" ∷ []))
read_all-messages_in_example =
    read_all-messages_in reader no_trim 3 (ok "" ∷ ok "{}" ∷ []) (omega arith)
