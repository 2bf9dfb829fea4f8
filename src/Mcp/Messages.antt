-- ===== src/Mcp/Messages.antt =====
-- The reading of messages by crates/mcp-protocol/src/transport.rs.
use mathlib.Core.Option.{map}
use teledap.Prelude.{
  ℕ, zero, suc, ◌<◌, ◌≡◌, refl, String, string_eq, Option, none, some, List, [], ◌∷◌, Result, ok,
  err, ◌==◌, if◌then◌else◌, length, arith, Bool-cases, inl, inr,
}
use teledap.Dap.Json.{Json, Fields, num, str, obj, end, field, get_field}
use teledap.Mcp.{
  IncomingMessage, request, notification, McpError, io, message_of, next_message, parse_incoming,
}

abbrev params_of : Option Json → Fields
params_of none = end
params_of (some p) = field "params" p end

-- A message as a client writes it.
unfoldable pub message_json : IncomingMessage → Json
message_json (request id method params) = obj (
    field "jsonrpc" (str "2.0")
      (field "id" (num id) (field "method" (str method) (params_of params))))
message_json (notification method params) =
    obj (field "jsonrpc" (str "2.0") (field "method" (str method) (params_of params)))

-- Every message that a client writes by the protocol is read as what it is, with its id, its method and
-- its parameters.
pub message_of-message_json : (m : IncomingMessage) → message_of (message_json m) ≡ ok m
unfolding message_of message_json get_field
message_of-message_json (request id method none) = refl
message_of-message_json (request id method (some p)) = refl
message_of-message_json (notification method none) = refl
message_of-message_json (notification method (some p)) = refl

module _ (from_str : String → Result String Json) (trim : String → String) where
  abbrev continue :
      (List (Result String String) → Option (List (Result McpError IncomingMessage)))
      → List (Result String String) × Option (Result McpError IncomingMessage)
      → Option (List (Result McpError IncomingMessage))
  continue more (rest, none) = some []
  continue more (rest, some m) = map (λ ms. m ∷ ms) (more rest)

  -- What the loop of the server reads until `next_message` returns `None`, on fuel.
  unfoldable pub read_all :
      ℕ → List (Result String String) → Option (List (Result McpError IncomingMessage))
  read_all zero input = none
  read_all (suc fuel) input = continue (read_all fuel) (next_message from_str trim input)

  -- The messages of the lines that are not blank, and the errors of reading.
  unfoldable pub messages_in : List (Result String String) → List (Result McpError IncomingMessage)
  messages_in [] = []
  messages_in (err e ∷ input) = err (io e) ∷ messages_in input
  messages_in (ok line ∷ input) =
      let rest = messages_in input in
      if trim line == "" then rest else parse_incoming from_str (trim line) ∷ rest

  -- The loop of the server reads one message per line that is not blank, each as it is parsed alone,
  -- and ends at the end of the input, if it has a turn for every line and one more.
  pub read_all-messages_in :
      (fuel : ℕ) (input : List (Result String String))
      → length input < fuel
      → read_all fuel input ≡ some (messages_in input)
  unfolding read_all messages_in next_message
  read_all-messages_in zero input h = absurd (omega (arith, h))
  read_all-messages_in (suc fuel) [] h = refl
  read_all-messages_in (suc fuel) (err e ∷ input) h =
      rw (read_all-messages_in fuel input (omega (arith, h))) refl
  read_all-messages_in (suc fuel) (ok line ∷ input) h = elim (Bool-cases (trim line == "")) [
    | inl p ↦ rw p (read_all-messages_in (suc fuel) input (omega (arith, h)))
    | inr p ↦ rw (p, read_all-messages_in fuel input (omega (arith, h))) refl
  ]
