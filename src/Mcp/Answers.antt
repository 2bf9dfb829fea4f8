-- ===== src/Mcp/Answers.antt =====
-- Who gets an answer (src/mcp_router.rs, src/server.rs).
use teledap.Prelude.{
  ℕ, ◌≡◌, refl, ap, ◌∙◌, String, string_eq, not, ◌&&◌, Option, none, some, List, [], ◌∷◌, ◌++◌,
  Result, ok, err, ◌==◌, if_intro,
}
use teledap.Dap.Json.{Json, null, get, and_then, as_str}
use teledap.Session.Events.{or_value}
use teledap.Bridge.{BridgeError, Handler, dispatch}
use teledap.Bridge.Tools.{Tool}
use teledap.Bridge.Execution.{CallToolResult}
use teledap.Mcp.{IncomingMessage, McpError, request, notification}
use teledap.Mcp.Router.{
  JsonRpcMessage, response, error, notify, World, Turn, handle_initialize, greeted, tool_answer,
  to_tool_result, result_value, call_named, handle_tool_call, route, handle_message, handle_input,
  sent, serve, answered,
}

abbrev pub id_of : JsonRpcMessage → Option ℕ
id_of (response id result) = some id
id_of (error id code message) = id
id_of (notify method params) = none

answered-id : (id : ℕ) (r : Result String Json) → id_of (answered id r) ≡ some id
answered-id id (ok v) = refl
answered-id id (err e) = refl

tool_answer-id :
    (to_value : Json → Result String Json) (describe : BridgeError → String) (id : ℕ)
    (r : Result BridgeError CallToolResult)
    → id_of (tool_answer to_value describe id r) ≡ some id
tool_answer-id to_value describe id (ok result) = answered-id id (to_value (result_value result))
tool_answer-id to_value describe id (err e) =
    answered-id id (to_value (result_value (to_tool_result describe e)))

module _ (to_value : Json → Result String Json) (tools_value : List Tool → Json)
    (describe : BridgeError → String) (version : String) {Caps : Type 0} where
  greeted-id :
      (id : ℕ) (p : World Caps × Result String Json)
      → id_of (greeted to_value tools_value describe version id p).1 ≡ some id
  greeted-id id (w, ok v) = refl
  greeted-id id (w, err e) = refl

  module _ (handlers : String → Json → Option (Handler Caps CallToolResult)) (now : ℕ) where
    call_named-id :
        (id : ℕ) (params : Json) (w : World Caps) (o : Option String)
        → id_of (call_named to_value tools_value describe version handlers now id params w o).1
          ≡ some id
    call_named-id id params w none = refl
    call_named-id id params w (some name) =
        tool_answer-id to_value describe id
          (dispatch handlers now name (or_value (get params "arguments") null) (some w.trace)
            w.session).1.1

    handle_tool_call-id :
        (id : ℕ) (params : Option Json) (w : World Caps)
        → id_of (handle_tool_call to_value tools_value describe version handlers now id params w).1
          ≡ some id
    unfolding handle_tool_call
    handle_tool_call-id id none w = refl
    handle_tool_call-id id (some params) w =
        call_named-id id params w (and_then (get params "name") as_str)

    abbrev Names : ℕ → World Caps × JsonRpcMessage → Type 0
    Names id p = id_of p.1 ≡ some id

    route-id :
        (id : ℕ) (method : String) (params : Option Json) (w : World Caps)
        → Names id (route to_value tools_value describe version handlers now id method params w)
    unfolding route
    route-id id method params w =
        if_intro (Names id) (method == "initialize")
          (greeted-id id (handle_initialize to_value tools_value describe version params w))
          (if_intro (Names id) (method == "tools/list") refl
            (if_intro (Names id) (method == "tools/call") (handle_tool_call-id id params w) refl))

-- The id under which a message is to be answered: of a request its own, and no id for what cannot be
-- read. A notification is not answered.
abbrev pub expected : Result McpError IncomingMessage → List (Option ℕ)
expected (err e) = none ∷ []
expected (ok (request id method params)) = some id ∷ []
expected (ok (notification method params)) = []

abbrev pub expected_ids : {Caps : Type 0} → List (Turn Caps) → List (Option ℕ)
expected_ids [] = []
expected_ids (t ∷ ts) = expected t.input ++ expected_ids ts

abbrev pub ids : List JsonRpcMessage → List (Option ℕ)
ids [] = []
ids (m ∷ ms) = id_of m ∷ ids ms

ids-sent :
    (o : Option JsonRpcMessage) (l : List JsonRpcMessage)
    → ids (sent o l) ≡ ids (sent o []) ++ ids l
ids-sent none l = refl
ids-sent (some m) l = refl

module _ (to_value : Json → Result String Json) (tools_value : List Tool → Json)
    (describe : BridgeError → String) (explain : McpError → String) (version : String)
    {Caps : Type 0} where
  abbrev Sends : List (Option ℕ) → World Caps × Option JsonRpcMessage → Type 0
  Sends l p = ids (sent p.1 []) ≡ l

  handle_input-ids :
      (i : Result McpError IncomingMessage) (t : Turn Caps) (w : World Caps)
      → Sends (expected i) (handle_input to_value tools_value describe explain version i t w)
  unfolding handle_message
  handle_input-ids (err e) t w = refl
  handle_input-ids (ok (notification method params)) t w = refl
  handle_input-ids (ok (request id method params)) t w =
      if_intro (Sends (some id ∷ [])) (not w.initialized && not (method == "initialize")) refl (
        ap (λ o. o ∷ [])
          (route-id to_value tools_value describe version t.handlers t.now id method params w))

  -- The loop of the server answers every request exactly once, with its id, in the order in which the
  -- requests come, every input that cannot be read with an error without an id, and nothing else.
  pub serve-expected_ids :
      (ts : List (Turn Caps)) (w : World Caps)
      → ids (serve to_value tools_value describe explain version ts w).1 ≡ expected_ids ts
  unfolding serve
  serve-expected_ids [] w = refl
  serve-expected_ids (t ∷ ts) w =
      let p = handle_input to_value tools_value describe explain version t.input t w in
      let rest = (serve to_value tools_value describe explain version ts p.0).1 in
      ids-sent p.1 rest
      ∙ ap (λ l. l ++ ids rest) (handle_input-ids t.input t w)
      ∙ ap (λ l. expected t.input ++ l) (serve-expected_ids ts p.0)
