-- ===== src/Dap/Base.antt =====
-- crates/dap-types/src/base.rs: the messages of the base protocol.
use teledap.Prelude.{ℕ, String, Bool, Option}
use teledap.Dap.Json.{Json}

pub record Request : Type 0 where
  pub seq : ℕ
  pub command : String
  pub arguments : Option Json

pub record Response : Type 0 where
  pub seq : ℕ
  pub request_seq : ℕ
  pub success : Bool
  pub command : String
  pub message : Option String
  pub body : Option Json

pub record Event : Type 0 where
  pub seq : ℕ
  pub event : String
  pub body : Option Json

pub data ProtocolMessage : Type 0 where
  request : Request → ProtocolMessage
  response : Response → ProtocolMessage
  event : Event → ProtocolMessage
