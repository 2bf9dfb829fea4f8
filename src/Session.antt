-- ===== src/Session.antt =====
-- crates/debug-session/src/session.rs: the state of a debug session, the gate before every operation
-- and the transition behind it. The debug adapter's replies are arguments of the operations, and
-- what the session asks of its client is recorded in `calls`.
pub mod Calls
pub mod Bodies
pub mod Events
pub mod Operations
pub mod Commands
pub mod Stable
pub mod Refused
pub mod Reachable
pub mod Sequential
pub mod Races
pub mod Halts
use teledap.Prelude.{
  ℕ, Bool, true, false, ◌&&◌, ◌||◌, Option, none, some, List, [], ◌∷◌, ◌++◌, String, Result, ok,
  err, PartialEq, ◌==◌, if◌then◌else◌,
}
use teledap.Dap.Types.{Variable}
use teledap.State
use teledap.State.{
  SessionState, state_eq, disconnected, connected, initialized, running, halted, HaltState, no_halt,
  can_transition_to, valid_predecessors,
}
use teledap.Gating.{is_allowed, allowed_states}
use teledap.Cache
use teledap.Cache.{VariableHandleCache, VariableHandleEntry}
use teledap.Breakpoints
use teledap.Breakpoints.{BreakpointCache}
use Calls.{AdapterKind, ClientCall, DapClientError}

-- crates/debug-session/src/error.rs
pub data DebugSessionError : Type 0 where
  dap_client : DapClientError → DebugSessionError
  invalid_state : String → SessionState → List SessionState → DebugSessionError
  stale_context : Option String → DebugSessionError
  expansion_depth_exceeded : ℕ → DebugSessionError
  timeout : String → DebugSessionError

-- One `state_transition` entry of the trace.
pub record Transition : Type 0 where
  pub source : SessionState
  pub target : SessionState
  pub reason : String

-- `watched` says whether the watch channel has a receiver, and `broadcasts` is what the channel has
-- stored, the last value first, from its initial value on; `trace` is the transitions handed to the
-- trace, the last first, if tracing is on. The path mapper is a component of its own.
pub record DebugSession (Caps : Type 0) : Type 0 where
  pub calls : List ClientCall
  pub state : SessionState
  pub halt_state : HaltState
  pub capabilities : Option Caps
  pub is_configured : Bool
  pub trace : Option (List Transition)
  pub watched : Bool
  pub broadcasts : List SessionState
  pub variable_cache : VariableHandleCache
  pub breakpoint_cache : BreakpointCache
  pub adapter_kind : Option AdapterKind

-- An operation changes the session and returns or fails; what it changed before a failure stays.
abbrev pub Exec : Type 0 → Type 0 → Type 0
Exec Caps A = DebugSession Caps → DebugSession Caps × Result DebugSessionError A

-- The test for invalidating the variable cache.
abbrev pub leaves_halted : SessionState → SessionState → Bool
leaves_halted from target = from == halted && (target == running || target == disconnected)

abbrev pub record_transition : Transition → Option (List Transition) → Option (List Transition)
record_transition t none = none
record_transition t (some l) = some (t ∷ l)

-- The entries that `cache_variables` makes.
abbrev pub entry_of : ℕ → Option ℕ → Option String → Variable → VariableHandleEntry
entry_of now frame_id scope_name v = record {
  variables_reference = v.variables_reference;
  name = v.name;
  frame_id = frame_id;
  scope_name = scope_name;
  var_type = v.var_type;
  named_variables = v.named_variables;
  indexed_variables = v.indexed_variables;
  captured_at = now;
}

abbrev pub entries_of : ℕ → Option ℕ → Option String → List Variable → List VariableHandleEntry
entries_of now frame_id scope_name [] = []
entries_of now frame_id scope_name (v ∷ vs) =
    entry_of now frame_id scope_name v ∷ entries_of now frame_id scope_name vs

-- `watch::Sender::send`, which fails and stores nothing if there is no receiver.
abbrev pub send : Bool → SessionState → List SessionState → List SessionState
send true target l = target ∷ l
send false target l = l

module _ {Caps : Type 0} where
  -- `trace` says whether a trace handle is given.
  unfoldable pub new : Bool → DebugSession Caps
  new tracing = record {
    calls = [];
    state = disconnected;
    halt_state = no_halt;
    capabilities = none;
    is_configured = false;
    trace = if tracing then some [] else none;
    watched = false;
    broadcasts = disconnected ∷ [];
    variable_cache = Cache.new;
    breakpoint_cache = Breakpoints.new;
    adapter_kind = none;
  }

  abbrev pub continue :
      {A B : Type 0} → Result DebugSessionError A → (A → Exec Caps B) → Exec Caps B
  continue (ok a) f s = f a s
  continue (err e) f s = (s, err e)

  infixl 5 ◌>>=◌ ◌>>◌
  abbrev pub ◌>>=◌ : {A B : Type 0} → Exec Caps A → (A → Exec Caps B) → Exec Caps B
  ◌>>=◌ m f s = let (s', r) = m s in continue r f s'

  abbrev pub ◌>>◌ : {A B : Type 0} → Exec Caps A → Exec Caps B → Exec Caps B
  m >> k = m >>= λ _. k

  abbrev pub pure : {A : Type 0} → A → Exec Caps A
  pure a s = (s, ok a)

  abbrev pub modify : (DebugSession Caps → DebugSession Caps) → Exec Caps (Unit {0})
  modify f s = (f s, ok tt)

  -- `state_watcher`, which gives the channel a receiver.
  unfoldable pub state_watcher : DebugSession Caps → DebugSession Caps
  state_watcher s = record s { watched = true }

  unfoldable pub gate : String → Exec Caps SessionState
  gate operation s =
      if is_allowed operation s.state
      then (s, ok s.state)
      else (s, err (invalid_state operation s.state (allowed_states operation)))

  unfoldable pub transition_to : SessionState → String → Exec Caps (Unit {0})
  transition_to target reason s =
      if can_transition_to s.state target
      then (
        record s {
          state = target;
          variable_cache =
              if leaves_halted s.state target
              then Cache.invalidate s.variable_cache
              else s.variable_cache;
          trace =
              record_transition (record { source = s.state; target = target; reason = reason })
                s.trace;
          broadcasts = send s.watched target s.broadcasts;
        },
        ok tt,
      )
      else (s, err (invalid_state reason s.state (valid_predecessors target)))

  -- `now` is the time at which the entries are made.
  unfoldable pub cache_variables :
      ℕ → List Variable → Option ℕ → Option String → DebugSession Caps → DebugSession Caps
  cache_variables now variables frame_id scope_name s = record s {
    variable_cache =
        Cache.insert_batch s.variable_cache (entries_of now frame_id scope_name variables);
  }
