-- ===== src/Dap.antt =====
-- crates/dap-types: the messages and records that the session and the client read.
pub mod Json
pub mod Base
pub mod Types
