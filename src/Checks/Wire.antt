-- ===== src/Checks/Wire.antt =====
-- An instance of the theorem about what the client writes.
use teledap.Prelude.{
  ℕ, String, nat_eq, ◌==◌, ◌≡◌, refl, none, some, List, [], ◌∷◌, ◌++◌, arith, Result, ok, err,
  if◌then◌else◌,
}
use teledap.Dict.{get, insert}
use teledap.Dap.Json.{null}
use teledap.Dap.Base.{ProtocolMessage}
use teledap.Codec.{encode, encode_to_bytes, frame}
use teledap.Codec.Stream.{Decodes}
use teledap.Client
use teledap.Client.Send
use teledap.Client.Reader
use teledap.Client.Actions.{Codecs, step, run}
use teledap.Client.Wire.{sent_requests, run-Decodes}
use teledap.Checks.Client.{text, body, two_calls}

abbrev threads : ProtocolMessage
threads = ProtocolMessage.request (record { seq = 1; command = "threads"; arguments = some null })

abbrev scopes : ProtocolMessage
scopes = ProtocolMessage.request (record { seq = 2; command = "scopes"; arguments = some null })

-- A message as its number, which is enough for these two.
abbrev write_number : ProtocolMessage → Result String (List ℕ)
write_number (ProtocolMessage.request r) = ok (r.seq ∷ [])
write_number (ProtocolMessage.response r) = err "response"
write_number (ProtocolMessage.event e) = err "event"

abbrev read_number : List ℕ → Result String ProtocolMessage
read_number [] = err "EOF"
read_number (n ∷ s) = if n == 1 then ok threads else ok scopes

abbrev numbers : Codecs
numbers = record { Body = Unit {0}; to_vec = write_number; to_string = text; from_value = body }

-- The second request is written first.
written : sent_requests numbers two_calls (Client.new 100 none) [] ≡ scopes ∷ threads ∷ []
unfolding sent_requests step Client.new Client.start Client.launch Client.is_running Send.begin
    Send.register Send.write Send.write_message Reader.receive Reader.on_message get insert
    encode_to_bytes encode
written = refl

in_pipe :
    (run numbers two_calls (Client.new 100 none)).stdin ≡ some (frame (2 ∷ []) ++ frame (1 ∷ []))
unfolding run step Client.new Client.start Client.launch Client.is_running Send.begin Send.register
    Send.write Send.write_message Reader.receive Reader.on_message get insert encode_to_bytes encode
    frame
in_pipe = refl

run-Decodes_example :
    Decodes read_number 100
      (frame (2 ∷ []) ++ frame (1 ∷ []))
      (sent_requests numbers two_calls (Client.new 100 none) [])
      []
run-Decodes_example =
    run-Decodes numbers read_number 100 100 none two_calls (frame (2 ∷ []) ++ frame (1 ∷ []))
      (omega arith) (tt, (tt, (tt, (tt, (refl, (tt, (refl, (tt, tt)))))))) in_pipe
      (rw written ((2 ∷ [], refl, omega arith, refl), ((1 ∷ [], refl, omega arith, refl), tt)))
