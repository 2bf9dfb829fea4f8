-- ===== src/Mcp/Handshake.antt =====
-- What happens before and after the handshake of a client (src/mcp_router.rs).
use teledap.Prelude.{
  ℕ, ◌≡◌, refl, ap, ◌∙◌, String, string_eq, Bool, true, false, Option, some, List, [], ◌∷◌, Result,
  ok, err, ◌==◌, All,
}
use teledap.Dap.Json.{Json, null, get, and_then, as_str}
use teledap.Session.Events.{or_value}
use teledap.Bridge.{BridgeError, Handler, dispatch}
use teledap.Bridge.Tools.{Tool}
use teledap.Bridge.Execution.{CallToolResult}
use teledap.Mcp.{IncomingMessage, McpError, request, notification}
use teledap.Mcp.Router.{
  response, World, Turn, to_tool_result, result_value, handle_tool_call, route, handle_message,
  handle_input, serve,
}

-- A request of the handshake.
abbrev pub is_initialize : IncomingMessage → Bool
is_initialize (request id method params) = method == "initialize"
is_initialize (notification method params) = false

abbrev pub opens : Result McpError IncomingMessage → Bool
opens (ok m) = is_initialize m
opens (err e) = false

module _ (to_value : Json → Result String Json) (tools_value : List Tool → Json)
    (describe : BridgeError → String) (explain : McpError → String) (version : String)
    {Caps : Type 0} where
  handle_input_closed :
      (i : Result McpError IncomingMessage) (t : Turn Caps) (w : World Caps)
      → w.initialized ≡ false
      → opens i ≡ false
      → (handle_input to_value tools_value describe explain version i t w).0 ≡ w
  unfolding handle_message
  handle_input_closed (err e) t w c h = refl
  handle_input_closed (ok (notification method params)) t w c h = refl
  handle_input_closed (ok (request id method params)) t w c h = rw (c, h) refl

  -- Until a client sends an initialize request, nothing that it sends has an effect: not on the
  -- session, the locator of liblldb or the trace, and the client stays outside of the handshake.
  pub serve_closed :
      (ts : List (Turn Caps)) (w : World Caps)
      → w.initialized ≡ false
      → All (λ t. opens t.input ≡ false) ts
      → (serve to_value tools_value describe explain version ts w).0 ≡ w
  unfolding serve
  serve_closed [] w c h = refl
  serve_closed (t ∷ ts) w c (o, h) =
      let e = handle_input_closed t.input t w c o in
      ap (λ v. (serve to_value tools_value describe explain version ts v).0) e
      ∙ serve_closed ts w c h

  -- A tool call that fails, at the gate, in its arguments or in its handler, is answered after the
  -- handshake by a result that is marked as an error and has its text, not by an error of the
  -- protocol, and leaves the session as the dispatch leaves it.
  pub handle_message-to_tool_result :
      (handlers : String → Json → Option (Handler Caps CallToolResult)) (now id : ℕ) (params : Json)
      (name : String) (e : BridgeError) (w : World Caps)
      → w.initialized ≡ true
      → and_then (get params "name") as_str ≡ some name
      → let (t, (s, r)) =
          dispatch handlers now name
            (or_value (get params "arguments") null)
            (some w.trace)
            w.session in
        r ≡ err e
        → to_value (result_value (to_tool_result describe e))
          ≡ ok (result_value (to_tool_result describe e))
        → let (w', m) =
            handle_message to_value tools_value describe version handlers now
              (request id "tools/call" (some params))
              w in
          (m ≡ some (response id (result_value (to_tool_result describe e)))) × (w'.session ≡ s)
  unfolding handle_message route handle_tool_call
  handle_message-to_tool_result handlers now id params name e w c p f v =
      rw (c, p, f, v) (refl, refl)
