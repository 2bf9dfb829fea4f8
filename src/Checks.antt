-- ===== src/Checks.antt =====
-- Tests of the definitions at inputs of the repository's own tests, and the theorems at concrete
-- inputs.
mod Gating
mod Cache
mod Breakpoints
pub mod Session
pub mod Trace
pub mod Bridge
pub mod Codec
pub mod Client
pub mod OpenOcd
pub mod Mcp
pub mod Tools
pub mod Startup
mod Races
mod Expansion
mod Paths
mod Http
mod Wire
mod Cli
