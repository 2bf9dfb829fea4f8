-- ===== src/Checks/Http.antt =====
-- Tests of the shared session over HTTP, after the test in src/http_server.rs, and instances of its
-- theorems.
use mathlib.Core.List.{map}
use teledap.Prelude.{
  ◌≡◌, ◌≢◌, refl, String, string_eq, eq_iff, true, false, none, List, [], ◌∷◌, ◌++◌, Result, ok,
  err, arith,
}
use teledap.Dict.{get, insert}
use teledap.State.{SessionState, state_eq}
use SessionState.{disconnected, connected}
use teledap.Session
use teledap.Mcp.{IncomingMessage, McpError, request, protocol}
use teledap.Mcp.Router.{JsonRpcMessage, serve}
use teledap.Http
use teledap.Http.{
  ClientConnection, SharedSession, Post, broadcast_all, register_client, send_all, remove_all,
  message_handler, accepted, not_found, leave,
}
use teledap.Http.Delivery.{broadcast_all-delivered}
use teledap.Http.Conversation.{Sees, posts, turn, posts-serve}
use teledap.Http.Histories.{Action, connect, depart, post, read, run, Told, run-spared}
use teledap.Checks.Mcp.{value, tools, text, words, no_handlers, blank, world}

-- The texts of the messages do not matter here.
abbrev print : JsonRpcMessage → String
print m = "message"

abbrev write : JsonRpcMessage → Result String String
write m = ok (print m)

abbrev parse : String → Result McpError IncomingMessage
parse body = ok (request 1 "tools/list" none)

abbrev broken : String → Result McpError IncomingMessage
broken body = err (protocol "Parse error: EOF")

-- Two clients, of which the second has left.
abbrev shared : SharedSession (Unit {0})
shared = record {
  session = Session.new false;
  lib_lldb_path = none;
  trace = blank;
  clients =
      ("a", record { is_open = true; inbox = []; initialized = true })
      ∷ ("b", record { is_open = false; inbox = []; initialized = false })
      ∷ [];
}

abbrev posted : Post (Unit {0})
posted = record { body = "{}"; now = 0; handlers = no_handlers }

a_not_b : ◌≢◌ {A = String} "a" "b"
a_not_b = ground (arith, eq_iff "a" "b")

b_not_a : ◌≢◌ {A = String} "b" "a"
b_not_a = ground (arith, eq_iff "b" "a")

connected_two :
    (register_client {Caps = Unit {0}} "b"
      (register_client "a" (Http.new (Session.new false) none blank))).clients
    ≡ ("a", record { is_open = true; inbox = []; initialized = false })
      ∷ ("b", record { is_open = true; inbox = []; initialized = false })
      ∷ []
unfolding register_client Http.new insert
connected_two = refl

left_b :
    (leave {Caps = Unit {0}} "b"
      (register_client "b" (Http.new (Session.new false) none blank))).clients
    ≡ ("b", record { is_open = false; inbox = []; initialized = false }) ∷ []
unfolding leave register_client Http.new insert get
left_b = refl

-- A message that cannot be read is "accepted", also from no known client.
unreadable_unknown :
    message_handler write broken value tools text words "1.0" "c" posted shared ≡ (shared, accepted)
unfolding message_handler get
unreadable_unknown = refl

broadcast_all-delivered_example :
    get (broadcast_all write (JsonRpcMessage.notify "test" none) shared).clients "b" ≡ none
unfolding get
broadcast_all-delivered_example =
    broadcast_all-delivered write (JsonRpcMessage.notify "test" none) "message" shared "b" refl
      ((b_not_a, tt), (tt, tt))

posts-serve_example :
    let (w', ms) =
      serve value tools text words "1.0"
        (map (turn write parse value tools text words "1.0") (posted ∷ posted ∷ []))
        (world true) in
    Sees "a"
      ([] ++ map print ms)
      w'
      (posts write parse value tools text words "1.0" "a" (posted ∷ posted ∷ []) shared)
unfolding get
posts-serve_example =
    posts-serve write print (λ m. refl) parse value tools text words "1.0" "a"
      (posted ∷ posted ∷ []) [] (world true) shared (refl, refl, refl, refl)

-- The other client comes back and posts, and the broadcaster reads the state twice.
abbrev doings : List (Action (Unit {0}))
doings = connect "b" ∷ post "b" posted ∷ read connected ∷ depart "b" ∷ read connected ∷ []

run-spared_example :
    Told "a" connected
      ("message" ∷ [])
      true
      (run write parse value tools text words "1.0" doings (disconnected, shared))
unfolding get
run-spared_example =
    run-spared write parse value tools text words "1.0" "message" refl doings disconnected shared
      "a" [] true (b_not_a, (b_not_a, (tt, (b_not_a, (tt, tt))))) ((b_not_a, tt), (tt, tt)) refl
