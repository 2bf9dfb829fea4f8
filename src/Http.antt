-- ===== src/Http.antt =====
-- src/http_server.rs: the clients that share a session over HTTP and server-sent events. `to_string` is
-- `serde_json::to_string` of a message, the ids of clients are those that `Uuid::new_v4` has made, and
-- the other arguments are those of the router. The routing of a message holds the map of the clients
-- locked, so nothing connects, is sent to or is broadcast to meanwhile.
pub mod Delivery
pub mod Isolation
pub mod Conversation
pub mod Broadcaster
pub mod Histories
use Prim.Native.String.{◌++◌ as ◌+++◌}
use teledap.Prelude.{
  ℕ, String, string_eq, Bool, true, false, not, Option, none, some, List, [], ◌∷◌, ◌++◌, Result, ok,
  err, ◌==◌, if◌then◌else◌,
}
use teledap.Dict.{Dict, get, insert, remove}
use teledap.Dap.Json.{Json}
use teledap.State.{SessionState, state_eq}
use teledap.Session.{DebugSession}
use teledap.Trace.{Trace}
use teledap.Bridge.{BridgeError, Handler}
use teledap.Bridge.Tools.{Tool}
use teledap.Bridge.Execution.{CallToolResult}
use teledap.Mcp.{IncomingMessage, McpError, code_parse_error}
use teledap.Mcp.Router.{JsonRpcMessage, error, notify, World, handle_message}

-- The channel to a client, by whether its receiver is still there and what it has been sent, and the
-- client's own router, which keeps only whether there was a handshake.
pub record ClientConnection : Type 0 where
  pub is_open : Bool
  pub inbox : List String
  pub initialized : Bool

pub record SharedSession (Caps : Type 0) : Type 0 where
  pub session : DebugSession Caps
  pub lib_lldb_path : Option String
  pub trace : Trace
  pub clients : Dict String ClientConnection

pub data StatusCode : Type 0 where
  accepted not_found : StatusCode

module _ {Caps : Type 0} where
  unfoldable pub new : DebugSession Caps → Option String → Trace → SharedSession Caps
  new session path trace = record {
    session = session;
    lib_lldb_path = path;
    trace = trace;
    clients = [];
  }

  unfoldable pub register_client : String → SharedSession Caps → SharedSession Caps
  register_client id s = record s {
    clients = insert s.clients id (record { is_open = true; inbox = []; initialized = false });
  }

  -- A new stream, for an id that is new, and the address that it begins with.
  unfoldable pub sse_handler : String → SharedSession Caps → SharedSession Caps × String
  unfolding register_client
  sse_handler session_id s = (register_client session_id s, "/message?session_id=" +++ session_id)

  abbrev pub hung_up : String → SharedSession Caps → Option ClientConnection → SharedSession Caps
  hung_up id s none = s
  hung_up id s (some conn) = record s {
    clients = insert s.clients id (record conn { is_open = false });
  }

  -- A client leaves: its stream drops the receiver.
  unfoldable pub leave : String → SharedSession Caps → SharedSession Caps
  leave id s = hung_up id s (get s.clients id)

-- `sender.send`, where the receiver is there.
abbrev pub push : String → ClientConnection → ClientConnection
push json conn = record conn { inbox = conn.inbox ++ json ∷ [] }

-- The loop over the clients: what they are then, and those that are dead.
unfoldable pub send_all :
    String → Dict String ClientConnection → Dict String ClientConnection × List String
send_all json [] = ([], [])
send_all json ((id, conn) ∷ l) =
    let (rest, dead) = send_all json l in
    if conn.is_open then ((id, push json conn) ∷ rest, dead) else ((id, conn) ∷ rest, id ∷ dead)

unfoldable pub remove_all :
    Dict String ClientConnection → List String → Dict String ClientConnection
remove_all l [] = l
remove_all l (id ∷ dead) = remove_all (remove l id) dead

module _ (to_string : JsonRpcMessage → Result String String) {Caps : Type 0} where
  abbrev pub broadcast_text : Result String String → SharedSession Caps → SharedSession Caps
  broadcast_text (err e) s = s
  broadcast_text (ok json) s =
      let (clients, dead) = send_all json s.clients in
      record s { clients = remove_all clients dead }

  unfoldable pub broadcast_all : JsonRpcMessage → SharedSession Caps → SharedSession Caps
  unfolding send_all remove_all
  broadcast_all msg s = broadcast_text (to_string msg) s

  abbrev pub send_text :
      String
      → Result String String
      → SharedSession Caps
      → Option ClientConnection
      → SharedSession Caps
  send_text session_id (err e) s o = s
  send_text session_id (ok json) s none = s
  send_text session_id (ok json) s (some conn) = record s {
    clients =
        if conn.is_open
        then insert s.clients session_id (push json conn)
        else remove s.clients session_id;
  }

  unfoldable pub send_to : String → JsonRpcMessage → SharedSession Caps → SharedSession Caps
  send_to session_id msg s = send_text session_id (to_string msg) s (get s.clients session_id)

  abbrev pub answer : String → Option JsonRpcMessage → SharedSession Caps → SharedSession Caps
  answer session_id none s = s
  answer session_id (some msg) s = send_to session_id msg s

-- What a router sees of the shared session, and what it leaves.
abbrev pub world_of : {Caps : Type 0} → SharedSession Caps → ClientConnection → World Caps
world_of s conn = record {
  initialized = conn.initialized;
  session = s.session;
  lib_lldb_path = s.lib_lldb_path;
  trace = s.trace;
}

abbrev pub put_back :
    {Caps : Type 0}
    → String
    → ClientConnection
    → World Caps
    → SharedSession Caps
    → SharedSession Caps
put_back session_id conn w s = record s {
  session = w.session;
  lib_lldb_path = w.lib_lldb_path;
  trace = w.trace;
  clients = insert s.clients session_id (record conn { initialized = w.initialized });
}

-- The body of a POST as `parse_incoming` reads it, the time, and the handlers with their replies.
pub record Post (Caps : Type 0) : Type 0 where
  pub body : String
  pub now : ℕ
  pub handlers : String → Json → Option (Handler Caps CallToolResult)

module _ (to_string : JsonRpcMessage → Result String String)
    (parse_incoming : String → Result McpError IncomingMessage)
    (to_value : Json → Result String Json) (tools_value : List Tool → Json)
    (describe : BridgeError → String) (explain : McpError → String) (version : String)
    {Caps : Type 0} where
  abbrev pub routed :
      String
      → ClientConnection
      → SharedSession Caps
      → World Caps × Option JsonRpcMessage
      → SharedSession Caps × StatusCode
  routed session_id conn s (w, response) =
      (answer to_string session_id response (put_back session_id conn w s), accepted)

  abbrev pub route_to :
      String
      → IncomingMessage
      → Post Caps
      → SharedSession Caps
      → Option ClientConnection
      → SharedSession Caps × StatusCode
  route_to session_id msg p s none = (s, not_found)
  route_to session_id msg p s (some conn) =
      routed session_id conn s (
        handle_message to_value tools_value describe version p.handlers p.now msg (world_of s conn))

  abbrev pub received :
      String
      → Result McpError IncomingMessage
      → Post Caps
      → SharedSession Caps
      → SharedSession Caps × StatusCode
  received session_id (err e) p s =
      (send_to to_string session_id (error none code_parse_error (explain e)) s, accepted)
  received session_id (ok msg) p s = route_to session_id msg p s (get s.clients session_id)

  unfoldable pub message_handler :
      String → Post Caps → SharedSession Caps → SharedSession Caps × StatusCode
  unfolding send_to
  message_handler session_id p s = received session_id (parse_incoming p.body) p s

module _ (to_string : JsonRpcMessage → Result String String) {Caps : Type 0} where
  -- A turn of the broadcaster, at the state that it reads, with the state that it read last.
  unfoldable pub on_changed :
      SessionState → SessionState × SharedSession Caps → SessionState × SharedSession Caps
  on_changed new_state (last_state, s) =
      if new_state == last_state
      then (last_state, s)
      else (new_state, broadcast_all to_string (notify "notifications/tools/list_changed" none) s)
