-- ===== src/Http/Conversation.antt =====
-- A client of src/http_server.rs gets what the loop of src/server.rs would send it.
use mathlib.Core.List.{map}
use teledap.Prelude.{
  ◌≡◌, refl, ap, ◌∙◌, String, string_eq, true, Option, none, some, List, [], ◌∷◌, ◌++◌,
  append_assoc, append-nil, Result, ok, err,
}
use teledap.Dict.{get, get-insert_self}
use teledap.Dap.Json.{Json}
use teledap.Bridge.{BridgeError}
use teledap.Bridge.Tools.{Tool}
use teledap.Mcp.{IncomingMessage, McpError, code_parse_error}
use teledap.Mcp.Router.{
  JsonRpcMessage, error, World, handle_message, Turn, handle_input, serve, sent,
}
use teledap.Http.{
  ClientConnection, SharedSession, Post, push, send_to, answer, put_back, world_of, routed,
  received, message_handler,
}

-- A client whose stream is open, what it has been sent, and what its router sees.
abbrev pub Sees : {Caps : Type 0} → String → List String → World Caps → SharedSession Caps → Type 0
Sees id inbox w s =
    get s.clients id ≡ some (record { is_open = true; inbox = inbox; initialized = w.initialized })
    × (s.session ≡ w.session)
    × (s.lib_lldb_path ≡ w.lib_lldb_path)
    × (s.trace ≡ w.trace)

map-sent :
    (print : JsonRpcMessage → String) (inbox : List String) (o : Option JsonRpcMessage)
    (l : List JsonRpcMessage)
    → (inbox ++ map print (sent o [])) ++ map print l ≡ inbox ++ map print (sent o l)
map-sent print inbox none l = ap (λ t. t ++ map print l) (append-nil inbox)
map-sent print inbox (some m) l = append_assoc inbox (print m ∷ []) (map print l)

module _ (to_string : JsonRpcMessage → Result String String) (print : JsonRpcMessage → String)
    (prints : (m : JsonRpcMessage) → to_string m ≡ ok (print m)) {Caps : Type 0} where
  send_to-Sees :
      (id : String) (msg : JsonRpcMessage) (inbox : List String) (w : World Caps)
      (s : SharedSession Caps)
      → Sees id inbox w s
      → Sees id (inbox ++ print msg ∷ []) w (send_to to_string id msg s)
  unfolding send_to
  send_to-Sees id msg inbox w s (g, a, b, t) =
      let conn : ClientConnection = record {
        is_open = true;
        inbox = inbox;
        initialized = w.initialized;
      } in
      rw (prints msg, g) (get-insert_self s.clients id (push (print msg) conn), a, b, t)

  answer-Sees :
      (id : String) (o : Option JsonRpcMessage) (inbox : List String) (w : World Caps)
      (s : SharedSession Caps)
      → Sees id inbox w s
      → Sees id (inbox ++ map print (sent o [])) w (answer to_string id o s)
  answer-Sees id none inbox w s h = rw (append-nil inbox) h
  answer-Sees id (some msg) inbox w s h = send_to-Sees id msg inbox w s h

module _ (to_string : JsonRpcMessage → Result String String)
    (parse_incoming : String → Result McpError IncomingMessage)
    (to_value : Json → Result String Json) (tools_value : List Tool → Json)
    (describe : BridgeError → String) (explain : McpError → String) (version : String)
    {Caps : Type 0} where
  -- The messages that a client posts, one after the other.
  unfoldable pub posts : String → List (Post Caps) → SharedSession Caps → SharedSession Caps
  unfolding message_handler
  posts id [] s = s
  posts id (p ∷ ps) s =
      posts id ps
        (message_handler to_string parse_incoming to_value tools_value describe explain version id p
          s).0

  -- The same as turns of the loop.
  abbrev pub turn : Post Caps → Turn Caps
  turn p = record { input = parse_incoming p.body; now = p.now; handlers = p.handlers }

module _ (to_string : JsonRpcMessage → Result String String) (print : JsonRpcMessage → String)
    (prints : (m : JsonRpcMessage) → to_string m ≡ ok (print m))
    (parse_incoming : String → Result McpError IncomingMessage)
    (to_value : Json → Result String Json) (tools_value : List Tool → Json)
    (describe : BridgeError → String) (explain : McpError → String) (version : String)
    {Caps : Type 0} where
  routed-Sees :
      (id : String) (conn : ClientConnection) (inbox : List String) (s : SharedSession Caps)
      (r : World Caps × Option JsonRpcMessage)
      → conn.is_open ≡ true
      → conn.inbox ≡ inbox
      → Sees id
          (inbox ++ map print (sent r.1 []))
          r.0
          (routed to_string parse_incoming to_value tools_value describe explain version id conn s
            r).0
  routed-Sees id conn inbox s (w, o) e f =
      answer-Sees to_string print prints id o inbox w (put_back id conn w s) (
        get-insert_self s.clients id (record conn { initialized = w.initialized })
            ∙ (λ i. some (record { is_open = e i; inbox = f i; initialized = w.initialized })),
        refl,
        refl,
        refl,
      )

  received-Sees :
      (id : String) (m : Result McpError IncomingMessage) (p : Post Caps) (inbox : List String)
      (w : World Caps) (s : SharedSession Caps)
      → Sees id inbox w s
      → let (w', o) =
          handle_input to_value tools_value describe explain version m
            (turn to_string parse_incoming to_value tools_value describe explain version p)
            w in
        Sees id
          (inbox ++ map print (sent o []))
          w'
          (received to_string parse_incoming to_value tools_value describe explain version id m p
            s).0
  received-Sees id (err e) p inbox w s h =
      send_to-Sees to_string print prints id (error none code_parse_error (explain e)) inbox w s h
  received-Sees id (ok msg) p inbox w s (g, a, b, t) =
      let conn : ClientConnection = record {
        is_open = true;
        inbox = inbox;
        initialized = w.initialized;
      } in
      let world : world_of s conn ≡ w = λ i. record {
        initialized = w.initialized;
        session = a i;
        lib_lldb_path = b i;
        trace = t i;
      } in
      rw (g, world)
        (routed-Sees id conn inbox s
          (handle_message to_value tools_value describe version p.handlers p.now msg w) refl refl)

  -- However a client comes to post its messages, as long as its stream is open and no one else acts
  -- meanwhile, it is sent the very answers that the loop of the server gives to these messages over its
  -- standard output, and the session, the locator of liblldb, the trace and its handshake end as they do
  -- there.
  pub posts-serve :
      (id : String) (ps : List (Post Caps)) (inbox : List String) (w : World Caps)
      (s : SharedSession Caps)
      → Sees id inbox w s
      → let (w', ms) =
          serve to_value tools_value describe explain version
            (map (turn to_string parse_incoming to_value tools_value describe explain version) ps)
            w in
        Sees id
          (inbox ++ map print ms)
          w'
          (posts to_string parse_incoming to_value tools_value describe explain version id ps s)
  unfolding posts serve message_handler
  posts-serve id [] inbox w s h = rw (append-nil inbox) h
  posts-serve id (p ∷ ps) inbox w s h =
      let t = turn to_string parse_incoming to_value tools_value describe explain version p in
      let r = handle_input to_value tools_value describe explain version t.input t w in
      let s' =
        (received to_string parse_incoming to_value tools_value describe explain version id
          (parse_incoming p.body) p s).0 in
      let l =
        (serve to_value tools_value describe explain version
          (map (turn to_string parse_incoming to_value tools_value describe explain version) ps)
          r.0).1 in
      let rest =
        posts-serve id ps (inbox ++ map print (sent r.1 [])) r.0 s'
          (received-Sees id (parse_incoming p.body) p inbox w s h) in
      (
        rest.0
            ∙ ap
                (λ b. some (record {
                  is_open = true;
                  inbox = b;
                  initialized =
                      (serve to_value tools_value describe explain version
                        (map
                          (turn to_string parse_incoming to_value tools_value describe explain
                            version)
                          ps)
                        r.0).0.initialized;
                }))
                (map-sent print inbox r.1 l),
        rest.1,
        rest.2,
        rest.3,
      )
