-- ===== src/Lib.antt =====
-- A verification library for teledap: a server that lets an agent drive a debug adapter
-- (codelldb or gdb, over the Debug Adapter Protocol) through tools. The server holds one debug
-- session; a tool call becomes an operation of the session, which is gated by the session's
-- state, sends requests through the DAP client and moves the state; the adapter's events come
-- in on a task of their own and move the state too.
--
-- State models crates/debug-session/src/state.rs, the five session states and the halt state.
-- Gating models gating.rs beside it: which operation is allowed in which state. Cache and
-- Breakpoints model cache.rs and breakpoints.rs, the session's caches of variable handles and
-- of breakpoints, as the values behind their locks. Session models session.rs and error.rs:
-- `Session` the state, the gate and `transition_to`, `Session.Calls` the requests that go to
-- the DAP client, `Session.Bodies` the body of a `stopped` event, `Session.Events`
-- `handle_event` and the event loop of src/server.rs, `Session.Operations` the operations,
-- `Session.Commands` all of them as one step. Dap has the JSON values and the types of
-- crates/dap-types that the session reads. Expansion models variables.rs and context.rs beside
-- session.rs: the limits on expanded variables and the chain from threads to variables.
-- PathMapper models mapping.rs beside them, over Paths, the paths of Rust's standard library on
-- Unix that it uses. Dict is the hash map as an association list with its keys in order of
-- first insertion: the order in which a HashMap is walked is not modelled, except in
-- `PathMapper.resolve` and `reverse`, where it decides and is that of the list.
--
-- Codec models crates/dap-codec/src/lib.rs, the framing on the wire: `Codec` the decoder and
-- the encoder, `Codec.Text` and `Codec.Decimal` what they use of Rust's strings and numbers.
-- Trace models crates/dap-trace: the entries, the channel, and the task that fills the ring
-- buffer and the file. Client models crates/dap-client/src/client.rs over Dap.Base, the
-- messages of crates/dap-types/src/base.rs: `Client` the state and `start`, `Client.Send` the
-- steps of a request up to its writing, `Client.Reader` the reader task, the end of a request,
-- the events and the end of `shutdown`, `Client.Actions` all of them as one step, so that a
-- history is a list of steps of calls, readers and callers in any order. A call is named by the
-- count of numbers that were taken before it. `Client.Sequential` puts the steps of one request
-- together, and `Client.Wire` logs the requests of a history. OpenOcd models
-- crates/openocd-client/src/client.rs: the life cycle, the buffer of output lines and
-- `send_command`, with the lines that arrive up to each wake-up as an argument.
--
-- Bridge models crates/debug-bridge: `Bridge.Tools` tools.rs, the tools with their schemas,
-- `Bridge` registry.rs, the dispatch, and the files of handlers/: `Bridge.Execution`
-- execution.rs, `Bridge.Inspect` inspect.rs with `assemble_context` in
-- `Bridge.Inspect.Context`, `Bridge.BreakpointTools` breakpoint.rs, `Bridge.Lifecycle`
-- lifecycle.rs, with the two tools that fill the path mapper in `Bridge.PathTools`, and
-- `Bridge.OpenOcdTools` openocd.rs. A handler reads its arguments, calls operations of Session
-- or OpenOcd and makes a report. The schema builders and the result type are those of
-- crates/mcp-protocol/src/types.rs.
--
-- Mcp models crates/mcp-protocol/src/transport.rs, the reading of lines and messages, and
-- `Mcp.Router` src/mcp_router.rs with the loop of src/server.rs: a turn of the loop has a
-- message and the handlers with the replies that they get. `Mcp.Messages` reads a whole input
-- on fuel, one more than its lines, which is a turn for every line and one for the end.
--
-- Http models src/http_server.rs: `Http` the clients with their streams, the handlers of the
-- two routes and the broadcaster of tool changes, `Http.Histories` all of them in any order; a
-- message is routed while the map of the clients is locked, and so is one step. Cli models
-- src/cli.rs: what it makes of its arguments, `Cli.Loop` the event loop and the end, and
-- `Cli.Run` all of `run`.
--
-- The events that the command line gets are a list. Behind it the event loop
-- and the wait for `initialized` go on waiting, as they do in the program, where the client
-- keeps the channel open; an argument says instead that the channel is closed, which the code
-- has an arm for. The watch channel of the session's state stores a value only while it has a
-- receiver.
--
-- An operation is a function from a session to a result and a session: a step that fails keeps
-- what it changed before. While an operation waits for its response the event task may run; the
-- events that it handles in that time are an argument of the operation (`meanwhile`), as the
-- response is, so that a schedule is a list of commands and events. Where an operation does not
-- wait for the adapter, only events between two operations are modelled: the locks are held for
-- no longer than one update. Times are natural numbers from a clock that is an argument. The
-- functions recurse on lists and are total. Printing a number takes fuel, one more than the
-- number, which has no more digits than that.
--
-- Parameters: the JSON library in the codec, the client and the router, the deserializer of the
-- `breakpoint` event's body, the case and trimming functions of strings where they are used,
-- the results of processes, pipes and files, the path mapper in the tools, the texts of errors
-- and the printing of JSON in the tool handlers and the router, and the handlers in the
-- dispatch are arguments of what uses them. A capability record and the answers that the
-- session only passes on are opaque.
--
-- Not modelled: the status of OpenOCD; the listener and the set-up of the HTTP server; the
-- parsing of the arguments and the choice of the mode, and the log of the command line; what a
-- receiver of the session's state has seen; two overlapping starts of an adapter, and tool
-- calls that overlap; the requests and events of crates/dap-types that the session does not
-- read, which are declarations for a serializer.
pub mod Breakpoints
pub mod Bridge
pub mod Cache
pub mod Checks
pub mod Cli
pub mod Client
pub mod Codec
pub mod Dap
pub mod Dict
pub mod Expansion
pub mod Gating
pub mod Http
pub mod Mcp
pub mod OpenOcd
pub mod PathMapper
pub mod Paths
pub mod Prelude
pub mod Session
pub mod State
pub mod Trace
