-- ===== src/Client.antt =====
-- crates/dap-client/src/client.rs: the client of a debug adapter. Its calls, its reader tasks and the
-- adapter run side by side, so `send_request` is cut into the steps between which others can come:
-- `begin`, `register`, `write` and `finish`. The JSON library and the results of the operating system
-- are arguments. Two overlapping calls of `start` are not modelled.
pub mod Send
pub mod Reader
pub mod Actions
pub mod Routing
pub mod Histories
pub mod Live
pub mod Open
pub mod Hangs
pub mod Sequential
pub mod Replies
pub mod Answer
pub mod Wire
use mathlib.Core.Option.{map}
use teledap.Prelude.{
  ℕ, suc, ◌+◌, ◌-◌, ◌%◌, ◌^◌, String, Bool, true, false, Option, none, some, List, [], ◌∷◌, ◌++◌,
  Result, ok, err, arith, leb, if◌then◌else◌, take, nat_eq,
}
use teledap.Dict.{Dict, get, insert, remove}
use Prim.Native.String.{◌++◌ as ◌+++◌}
use teledap.Dap.Json.{Json, null, str, obj, field, end, and_then}
use teledap.Dap.Base.{Request, Response, Event, ProtocolMessage}
use teledap.Codec.{encode_to_bytes}
use teledap.Session.Calls.{AdapterKind, codelldb, gdb, AdapterConfig, DapClientError}
use DapClientError.{
  spawn_failed, process_exited, not_connected, dap_protocol, io, json, dap_request_failed,
}
use teledap.Session.Events.{or_value}
use teledap.Trace.{Trace, ℤ, trace_request, trace_response, trace_event, trace_internal}

-- The oneshot channel of a call: its sender is there and has not sent, has
-- sent, or was dropped without sending.
pub data Channel : Type 0 where
  empty closed : Channel
  answered : Response → Channel

-- How far a call of `send_request` has come.
pub data Stage : Type 0 where
  begun registered waiting returned : Stage

pub record Call : Type 0 where
  pub request : Request
  pub stage : Stage
  pub channel : Channel

-- `child` says whether there is a child, `stdin` is the bytes that were written to the adapter, and
-- `events` is the event channel, first sent first. The senders in `pending_requests` are named by
-- their calls. `readers` counts the reader tasks that run; `calls` are the calls of `send_request`, and
-- `allocated` counts the numbers that were taken from `seq`: the call that takes a number is named by
-- the count before it.
pub record DapClient : Type 0 where
  pub child : Bool
  pub stdin : Option (List ℕ)
  pub seq : ℕ
  pub pending_requests : Dict ℕ ℕ
  pub events : List Event
  pub max_frame_size : ℕ
  pub trace : Option Trace
  pub adapter_kind : Option AdapterKind
  pub lib_lldb_path : Option String
  pub readers : ℕ
  pub calls : Dict ℕ Call
  pub allocated : ℕ

-- `new` and `with_trace`
unfoldable pub new : ℕ → Option Trace → DapClient
new max_frame_size trace = record {
  child = false;
  stdin = none;
  seq = 1;
  pending_requests = [];
  events = [];
  max_frame_size = max_frame_size;
  trace = trace;
  adapter_kind = none;
  lib_lldb_path = none;
  readers = 0;
  calls = [];
  allocated = 0;
}

-- What a step of a call ends with: it waits, its task panics, or it returns.
pub data Outcome (A : Type 0) : Type 0 where
  waits panics : Outcome A
  returns : Result DapClientError A → Outcome A

abbrev pub stage_is : Stage → Stage → Bool
stage_is begun begun = true
stage_is registered registered = true
stage_is waiting waiting = true
stage_is returned returned = true
stage_is _ _ = false

-- The call, if it is at the stage.
abbrev pub enabled : Stage → Option Call → Option Call
enabled stage none = none
enabled stage (some k) = if stage_is k.stage stage then some k else none

-- `spawn` and the three pipes.
pub data Spawn : Type 0 where
  not_spawned : String → Spawn
  no_stdout no_stdin no_stderr spawned : Spawn

-- The `PATH` that the child gets, if it is set. `parent` is `Path::parent` as a string and `path` is
-- the `PATH` of the client.
unfoldable pub path_env : (String → Option String) → String → String → DapClient → Option String
path_env parent separator path c =
    and_then c.lib_lldb_path (λ p. map (λ d. d +++ separator +++ path) (parent p))

unfoldable pub set_lib_lldb_path : Option String → DapClient → DapClient
set_lib_lldb_path path c = record c { lib_lldb_path = path }

unfoldable pub is_running : DapClient → Bool
is_running c = c.child

-- The name of a kind as its derived `Debug` writes it.
abbrev pub debug_kind : AdapterKind → String
debug_kind codelldb = "Codelldb"
debug_kind gdb = "Gdb"

abbrev started_payload : AdapterConfig → Json
started_payload config =
    obj (field "path" (str config.path) (field "kind" (str (debug_kind config.kind)) end))

-- A reader task is spawned once all pipes are there.
unfoldable pub launch :
    ℕ → AdapterConfig → Spawn → DapClient → DapClient × Result DapClientError (Unit {0})
launch now config (not_spawned e) c =
    (c, err (spawn_failed ("Failed to spawn '" +++ config.path +++ "': " +++ e)))
launch now config no_stdout c = (c, err (spawn_failed "adapter stdout is not available"))
launch now config no_stdin c = (c, err (spawn_failed "adapter stdin is not available"))
launch now config no_stderr c = (c, err (spawn_failed "adapter stderr is not available"))
launch now config spawned c = (
  record c {
    readers = suc c.readers;
    stdin = some [];
    child = true;
    adapter_kind = some config.kind;
    trace = map (trace_internal now "adapter_started" (some (started_payload config))) c.trace;
  },
  ok tt,
)

unfoldable pub start :
    ℕ → AdapterConfig → Spawn → DapClient → DapClient × Result DapClientError (Unit {0})
unfolding launch
start now config spawn c =
    if is_running c
    then (c, err (spawn_failed "adapter is already running"))
    else launch now config spawn c
