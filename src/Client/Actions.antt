-- ===== src/Client/Actions.antt =====
-- The steps of the calls, the readers and the clients of crates/dap-client/src/client.rs, and histories
-- of them in any order.
use teledap.Prelude.{ℕ, String, Option, List, [], ◌∷◌, Result}
use teledap.Dap.Json.{Json}
use teledap.Dap.Base.{ProtocolMessage}
use teledap.Session.Calls.{AdapterConfig}
use teledap.Trace.{ℤ}
use teledap.Client
use teledap.Client.{DapClient, Spawn}
use teledap.Client.Send
use teledap.Client.Send.{WriteResult}
use teledap.Client.Reader
use teledap.Client.Reader.{Incoming}

-- What the client is linked with: `serde_json::to_vec`, the text of a value and the deserializer of a
-- response's body.
pub record Codecs : Type 1 where
  pub Body : Type 0
  pub to_vec : ProtocolMessage → Result String (List ℕ)
  pub to_string : Json → String
  pub from_value : Json → Result String Body

-- The numbers are times, the durations are those of the calls, and a call is given by its name.
pub data Action : Type 0 where
  start : ℕ → AdapterConfig → Spawn → Action
  set_lib_lldb_path : Option String → Action
  begin : ℕ → String → Result String Json → Action
  register : ℕ → Action
  write : WriteResult → ℕ → Action
  finish : ℕ → ℤ → ℕ → Action
  send_request_nb : WriteResult → String → Result String Json → Action
  receive : ℕ → Incoming → Action
  recv_event drain_events close : Action

module _ (codecs : Codecs) where
  unfoldable pub step : Action → DapClient → DapClient
  step (start now config spawn) c = (Client.start now config spawn c).0
  step (set_lib_lldb_path path) c = Client.set_lib_lldb_path path c
  step (begin now command arguments) c = (Send.begin now command arguments c).0
  step (register id) c = Send.register id c
  step (write w id) c = (Send.write codecs.to_vec w id c).0
  step (finish now elapsed id) c =
      (Reader.finish codecs.from_value codecs.to_string now elapsed id c).0
  step (send_request_nb w command arguments) c =
      (Send.send_request_nb codecs.to_vec w command arguments c).0
  step (receive now m) c = Reader.receive codecs.to_string now m c
  step recv_event c = (Reader.recv_event c).0
  step drain_events c = Reader.drain_events c
  step close c = Reader.close c

  unfoldable pub run : List Action → DapClient → DapClient
  run [] c = c
  run (a ∷ rest) c = run rest (step a c)
