-- ===== src/Mcp.antt =====
-- crates/mcp-protocol/src/types.rs, transport.rs and error.rs: the messages of the protocol and their
-- reading from lines. `serde_json::from_str` and `str::trim` are arguments.
pub mod Messages
pub mod Router
pub mod Answers
pub mod Handshake
use Prim.Native.String.{◌++◌ as ◌+++◌}
use teledap.Prelude.{
  ℕ, String, string_eq, Bool, true, false, Option, none, some, List, [], ◌∷◌, Result, ok, err, ◌==◌,
  if◌then◌else◌,
}
use teledap.Dap.Json.{
  Json, Fields, null, num, other_num, str, obj, end, field, get_field, and_then, as_str,
}

pub data IncomingMessage : Type 0 where
  request : ℕ → String → Option Json → IncomingMessage
  notification : String → Option Json → IncomingMessage

-- The errors of IO and JSON are their texts.
pub data McpError : Type 0 where
  io json protocol : String → McpError
  stdin_closed : McpError

unfoldable pub parse_error : String → McpError
parse_error msg = protocol ("Parse error: " +++ msg)

unfoldable pub invalid_request : String → McpError
invalid_request msg = protocol ("Invalid request: " +++ msg)

-- The codes of the protocol that the program sends, by their names.
pub data ErrorCode : Type 0 where
  code_parse_error code_invalid_request code_method_not_found code_invalid_params
        code_internal_error :
      ErrorCode

-- A code as a JSON number.
unfoldable pub code_value : ErrorCode → Json
code_value code_parse_error = other_num "-32700"
code_value code_invalid_request = other_num "-32600"
code_value code_method_not_found = other_num "-32601"
code_value code_invalid_params = other_num "-32602"
code_value code_internal_error = other_num "-32603"

-- The match on the id, behind the method and the parameters.
abbrev pub with_id : String → Option Json → Option Json → Result McpError IncomingMessage
with_id method params none = ok (notification method params)
with_id method params (some null) = ok (notification method params)
with_id method params (some (num id)) = ok (request id method params)
with_id method params (some _) = err (invalid_request "only numeric (u64) ids are supported")

abbrev pub with_method : Fields → Option String → Result McpError IncomingMessage
with_method fs none = err (invalid_request "missing 'method' field")
with_method fs (some method) = with_id method (get_field fs "params") (get_field fs "id")

-- `parse_incoming` from the JSON value on.
unfoldable pub message_of : Json → Result McpError IncomingMessage
message_of (obj fs) = with_method fs (and_then (get_field fs "method") as_str)
message_of _ = err (invalid_request "message is not a JSON object")

abbrev pub parsed : Result String Json → Result McpError IncomingMessage
parsed (err e) = err (parse_error e)
parsed (ok v) = message_of v

module _ (from_str : String → Result String Json) where
  unfoldable pub parse_incoming : String → Result McpError IncomingMessage
  unfolding message_of
  parse_incoming line = parsed (from_str line)

  -- What `read_line` yields, up to the end of the input, and what is left of it.
  unfoldable pub next_message :
      (String → String)
      → List (Result String String)
      → List (Result String String) × Option (Result McpError IncomingMessage)
  unfolding parse_incoming
  next_message trim [] = ([], none)
  next_message trim (err e ∷ input) = (input, some (err (io e)))
  next_message trim (ok line ∷ input) =
      let rest = next_message trim input in
      if trim line == "" then rest else (input, some (parse_incoming (trim line)))
