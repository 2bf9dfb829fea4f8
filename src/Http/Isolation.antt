-- ===== src/Http/Isolation.antt =====
-- What a message of one client does to the others (src/http_server.rs).
use teledap.Prelude.{
  ◌≡◌, ◌≢◌, refl, ap, ◌∙◌, String, string_eq, Option, none, some, List, Result, ok, err, if_intro,
}
use teledap.Dict.{Dict, get, insert, remove, get-insert_ne, get-remove_ne}
use teledap.Dap.Json.{Json}
use teledap.Bridge.{BridgeError}
use teledap.Bridge.Tools.{Tool}
use teledap.Mcp.{IncomingMessage, McpError, code_parse_error}
use teledap.Mcp.Router.{JsonRpcMessage, error, handle_message}
use teledap.Http.{
  ClientConnection, SharedSession, StatusCode, accepted, not_found, Post, push, send_text, send_to,
  answer, put_back, world_of, received, message_handler,
}

-- What an insertion and a removal under one key keep.
abbrev pub Kept : (Dict String ClientConnection → Type 0) → String → Type 0
Kept P id =
    ((l : Dict String ClientConnection) (conn : ClientConnection) → P l → P (insert l id conn))
    × ((l : Dict String ClientConnection) → P l → P (remove l id))

module _ (P : Dict String ClientConnection → Type 0) (id : String) (kept : Kept P id)
    (to_string : JsonRpcMessage → Result String String) {Caps : Type 0} where
  send_text-Kept :
      (r : Result String String) (s : SharedSession Caps) (o : Option ClientConnection)
      → P s.clients
      → P (send_text to_string id r s o).clients
  send_text-Kept (err e) s o h = h
  send_text-Kept (ok json) s none h = h
  send_text-Kept (ok json) s (some conn) h =
      if_intro P conn.is_open (kept.0 s.clients (push json conn) h) (kept.1 s.clients h)

  send_to-Kept :
      (msg : JsonRpcMessage) (s : SharedSession Caps)
      → P s.clients
      → P (send_to to_string id msg s).clients
  unfolding send_to
  send_to-Kept msg s h = send_text-Kept (to_string msg) s (get s.clients id) h

  answer-Kept :
      (o : Option JsonRpcMessage) (s : SharedSession Caps)
      → P s.clients
      → P (answer to_string id o s).clients
  answer-Kept none s h = h
  answer-Kept (some msg) s h = send_to-Kept msg s h

abbrev pub status_unknown : Result McpError IncomingMessage → StatusCode
status_unknown (err e) = accepted
status_unknown (ok msg) = not_found

module _ (to_string : JsonRpcMessage → Result String String)
    (parse_incoming : String → Result McpError IncomingMessage)
    (to_value : Json → Result String Json) (tools_value : List Tool → Json)
    (describe : BridgeError → String) (explain : McpError → String) (version : String)
    {Caps : Type 0} where
  received-Kept :
      (P : Dict String ClientConnection → Type 0) (id : String)
      (m : Result McpError IncomingMessage) (p : Post Caps) (s : SharedSession Caps)
      (o : Option ClientConnection)
      → Kept P id
      → get s.clients id ≡ o
      → P s.clients
      → P
          (received to_string parse_incoming to_value tools_value describe explain version id m p
            s).0.clients
  received-Kept P id (err e) p s o kept f h =
      send_to-Kept P id kept to_string (error none code_parse_error (explain e)) s h
  received-Kept P id (ok msg) p s none kept f h = rw f h
  received-Kept P id (ok msg) p s (some conn) kept f h =
      let r =
        handle_message to_value tools_value describe version p.handlers p.now msg
          (world_of s conn) in
      rw f (
        answer-Kept P id kept to_string r.1 (put_back id conn r.0 s)
          (kept.0 s.clients (record conn { initialized = r.0.initialized }) h))

  pub message_handler-Kept :
      (P : Dict String ClientConnection → Type 0) (id : String) (p : Post Caps)
      (s : SharedSession Caps)
      → Kept P id
      → P s.clients
      → P
          (message_handler to_string parse_incoming to_value tools_value describe explain version id
            p s).0.clients
  unfolding message_handler
  message_handler-Kept P id p s kept h =
      received-Kept P id (parse_incoming p.body) p s (get s.clients id) kept refl h

  -- A message that one client posts leaves every other client as it was: what it has been sent, whether
  -- it is still there, and its handshake.
  pub message_handler-others :
      (id j : String) (p : Post Caps) (s : SharedSession Caps)
      → id ≢ j
      → get
          (message_handler to_string parse_incoming to_value tools_value describe explain version id
            p s).0.clients
          j
        ≡ get s.clients j
  message_handler-others id j p s h =
      message_handler-Kept (λ l. get l j ≡ get s.clients j) id p s
        (λ l conn e. get-insert_ne l id j conn h ∙ e, λ l e. get-remove_ne l id j h ∙ e) refl

  send_text-none :
      (id : String) (r : Result String String) (s : SharedSession Caps)
      → send_text to_string id r s none ≡ s
  send_text-none id (err e) s = refl
  send_text-none id (ok json) s = refl

  received-unknown :
      (id : String) (m : Result McpError IncomingMessage) (p : Post Caps) (s : SharedSession Caps)
      → get s.clients id ≡ none
      → received to_string parse_incoming to_value tools_value describe explain version id m p s
        ≡ (s, status_unknown m)
  unfolding send_to
  received-unknown id (err e) p s f =
      let msg = error none code_parse_error (explain e) in
      ap (λ (t : SharedSession Caps). (t, accepted))
        (ap (send_text to_string id (to_string msg) s) f ∙ send_text-none id (to_string msg) s)
  received-unknown id (ok msg) p s f = rw f

  received-known :
      (id : String) (m : Result McpError IncomingMessage) (p : Post Caps) (s : SharedSession Caps)
      (conn : ClientConnection)
      → get s.clients id ≡ some conn
      → (received to_string parse_incoming to_value tools_value describe explain version id m p s).1
        ≡ accepted
  received-known id (err e) p s conn f = refl
  received-known id (ok msg) p s conn f = rw f

  -- A message from no known client changes nothing and is answered with "not found", but one that cannot
  -- be read with "accepted", as every message of a known client is.
  pub message_handler_status :
      (id : String) (p : Post Caps) (s : SharedSession Caps)
      → (get s.clients id ≡ none
          → message_handler to_string parse_incoming to_value tools_value describe explain version
              id p s
            ≡ (s, status_unknown (parse_incoming p.body)))
        × ((conn : ClientConnection)
            → get s.clients id ≡ some conn
            → (message_handler to_string parse_incoming to_value tools_value describe explain
                version id p s).1
              ≡ accepted)
  unfolding message_handler
  message_handler_status id p s = (
    received-unknown id (parse_incoming p.body) p s,
    λ conn. received-known id (parse_incoming p.body) p s conn,
  )
