-- ===== src/Http/Histories.antt =====
-- Everything that happens to the clients of src/http_server.rs, in any order.
use teledap.Prelude.{
  subst, ◌≡◌, ◌≢◌, refl, sym, ap, ◌∙◌, String, string_eq, Bool, true, false, Option, none, some,
  List, [], ◌∷◌, ◌++◌, append-nil, append_assoc, Result, ok, ◌==◌, if◌then◌else◌, All,
}
use teledap.Dict.{get, get-insert_ne}
use teledap.Dict.Distinct.{IsDistinct, insert-IsDistinct, remove-IsDistinct}
use teledap.Dap.Json.{Json}
use teledap.State.{SessionState, state_eq}
use teledap.Session.{DebugSession}
use teledap.Bridge.{BridgeError}
use teledap.Bridge.Tools.{Tool}
use teledap.Mcp.{IncomingMessage, McpError}
use teledap.Mcp.Router.{JsonRpcMessage, notify}
use teledap.Http.{
  ClientConnection, SharedSession, Post, hung_up, leave, sse_handler, message_handler, on_changed,
}
use teledap.Http.Isolation.{message_handler-others, message_handler-Kept}
use teledap.Http.Broadcaster.{changes, last_of, replicate, on_changed-open, replicate-changes}

-- The event loop and other tasks move the session; the broadcaster reads its state when it may.
pub data Action (Caps : Type 0) : Type 0 where
  connect depart : String → Action Caps
  post : String → Post Caps → Action Caps
  move : (DebugSession Caps → DebugSession Caps) → Action Caps
  read : SessionState → Action Caps

module _ (to_string : JsonRpcMessage → Result String String)
    (parse_incoming : String → Result McpError IncomingMessage)
    (to_value : Json → Result String Json) (tools_value : List Tool → Json)
    (describe : BridgeError → String) (explain : McpError → String) (version : String)
    {Caps : Type 0} where
  unfoldable pub step :
      Action Caps → SessionState × SharedSession Caps → SessionState × SharedSession Caps
  unfolding sse_handler leave message_handler on_changed
  step (connect id) (last, s) = (last, (sse_handler id s).0)
  step (depart id) (last, s) = (last, leave id s)
  step (post id p) (last, s) = (
    last,
    (message_handler to_string parse_incoming to_value tools_value describe explain version id p
        s).0,
  )
  step (move f) (last, s) = (last, record s { session = f s.session })
  step (read state) r = on_changed to_string state r

  unfoldable pub run :
      List (Action Caps) → SessionState × SharedSession Caps → SessionState × SharedSession Caps
  unfolding step
  run [] r = r
  run (a ∷ actions) r = run actions (step a r)

-- The states that the broadcaster reads.
abbrev pub readings : {Caps : Type 0} → List (Action Caps) → List SessionState
readings [] = []
readings (connect id ∷ actions) = readings actions
readings (depart id ∷ actions) = readings actions
readings (post id p ∷ actions) = readings actions
readings (move f ∷ actions) = readings actions
readings (read state ∷ actions) = state ∷ readings actions

-- An action that is not the client's own.
abbrev pub Spares : {Caps : Type 0} → String → Action Caps → Type 0
Spares id (connect k) = k ≢ id
Spares id (depart k) = k ≢ id
Spares id (post k p) = k ≢ id
Spares id (move f) = Unit
Spares id (read state) = Unit

-- The state that the broadcaster read last, and a client whose stream is open with what it was sent.
abbrev pub Told :
    {Caps : Type 0}
    → String
    → SessionState
    → List String
    → Bool
    → SessionState × SharedSession Caps
    → Type 0
Told id last inbox initialized r =
    (r.0 ≡ last)
    × (get r.1.clients id
        ≡ some (record { is_open = true; inbox = inbox; initialized = initialized }))

hung_up-IsDistinct :
    {Caps : Type 0} (id : String) (s : SharedSession Caps) (o : Option ClientConnection)
    → IsDistinct s.clients
    → IsDistinct (hung_up id s o).clients
hung_up-IsDistinct id s none h = h
hung_up-IsDistinct id s (some conn) h =
    insert-IsDistinct s.clients id (record conn { is_open = false }) h

hung_up-others :
    {Caps : Type 0} (k id : String) (s : SharedSession Caps) (o : Option ClientConnection)
    → k ≢ id
    → get (hung_up k s o).clients id ≡ get s.clients id
hung_up-others k id s none n = refl
hung_up-others k id s (some conn) n =
    get-insert_ne s.clients k id (record conn { is_open = false }) n

module _ (to_string : JsonRpcMessage → Result String String)
    (parse_incoming : String → Result McpError IncomingMessage)
    (to_value : Json → Result String Json) (tools_value : List Tool → Json)
    (describe : BridgeError → String) (explain : McpError → String) (version : String)
    (json : String) (written : to_string (notify "notifications/tools/list_changed" none) ≡ ok json)
    {Caps : Type 0} where
  -- A client whose stream stays open, and that neither posts nor connects again, is told of the change of
  -- the tools as often as the state has changed from one reading of the broadcaster to the next, and is
  -- sent nothing else, whatever the others post, whoever comes and goes and however the session moves.
  -- The broadcaster remembers the state that it read last.
  pub run-spared :
      (actions : List (Action Caps)) (last : SessionState) (s : SharedSession Caps) (id : String)
      (inbox : List String) (initialized : Bool)
      → All (Spares id) actions
      → IsDistinct s.clients
      → get s.clients id
        ≡ some (record { is_open = true; inbox = inbox; initialized = initialized })
      → Told id
          (last_of last (readings actions))
          (inbox ++ replicate (changes last (readings actions)) json)
          initialized
          (run to_string parse_incoming to_value tools_value describe explain version actions
            (last, s))
  unfolding run step
  run-spared [] last s id inbox initialized a d g = (refl, rw (append-nil inbox) g)
  run-spared (connect k ∷ actions) last s id inbox initialized (n, a) d g =
      let conn : ClientConnection = record { is_open = true; inbox = []; initialized = false } in
      run-spared actions last (sse_handler k s).0 id inbox initialized a
        (unfold sse_handler in insert-IsDistinct s.clients k conn d)
        (unfold sse_handler in get-insert_ne s.clients k id conn n ∙ g)
  run-spared (depart k ∷ actions) last s id inbox initialized (n, a) d g =
      run-spared actions last (leave k s) id inbox initialized a
        (unfold leave in hung_up-IsDistinct k s (get s.clients k) d)
        (unfold leave in hung_up-others k id s (get s.clients k) n ∙ g)
  run-spared (post k p ∷ actions) last s id inbox initialized (n, a) d g =
      let s' =
        (message_handler to_string parse_incoming to_value tools_value describe explain version k p
          s).0 in
      run-spared actions last s' id inbox initialized a
        (message_handler-Kept to_string parse_incoming to_value tools_value describe explain version
          IsDistinct k p s
          (λ l conn h. insert-IsDistinct l k conn h, λ l h. remove-IsDistinct l k h) d)
        (message_handler-others to_string parse_incoming to_value tools_value describe explain
            version k id p s n
          ∙ g)
  run-spared (move f ∷ actions) last s id inbox initialized (_, a) d g =
      run-spared actions last (record s { session = f s.session }) id inbox initialized a d g
  run-spared (read state ∷ actions) last s id inbox initialized (_, a) d g =
      let (s', e, d', g') =
        on_changed-open to_string json written state last s id inbox initialized d g in
      let told : List String = if state == last then [] else json ∷ [] in
      let (r, t) = run-spared actions state s' id (inbox ++ told) initialized a d' g' in
      let behind : (inbox ++ told) ++ replicate (changes state (readings actions)) json
          ≡ inbox ++ replicate (changes last (state ∷ readings actions)) json =
        append_assoc inbox told (replicate (changes state (readings actions)) json)
        ∙ ap (λ b. inbox ++ b) (sym (replicate-changes state last (readings actions) json)) in
      subst
        (λ x.
          Told id (last_of state (readings actions))
            (inbox ++ replicate (changes last (state ∷ readings actions)) json) initialized
            (run to_string parse_incoming to_value tools_value describe explain version actions x))
        (sym e)
        (
          r,
          t
              ∙ ap (λ b. some (record { is_open = true; inbox = b; initialized = initialized }))
                  behind,
        )
