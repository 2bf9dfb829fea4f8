-- ===== src/Session/Events.antt =====
-- `handle_event` of crates/debug-session/src/session.rs, and the event loop of src/server.rs.
use teledap.Prelude.{
  ℕ, Bool, true, false, not, Option, none, some, List, [], ◌∷◌, String, nat_eq, string_eq, ok, ◌==◌,
  if◌then◌else◌, retain,
}
use teledap.Dap.Json
use teledap.Dap.Json.{
  Json, null, boolean, num, str, arr, obj, Items, nil, cons, as_str, as_u64, as_bool, and_then,
  optional_field, required_field,
}
pub use teledap.Dap.Base.{Event}
use teledap.Dap.Types.{Breakpoint}
use teledap.State
use teledap.State.{
  SessionState, state_eq, disconnected, connected, initialized, running, halted, HaltState,
}
use teledap.Breakpoints
use teledap.Session.{DebugSession, Exec, ◌>>◌, pure, modify, transition_to}
use teledap.Session.Bodies.{StoppedEventBody, stopped_body, debug_reason, unknown_stop}
use teledap.Session.Calls.{ClientCall, shutdown_adapter}

abbrev pub or_value {ℓ} : {A : Type ℓ} → Option A → A → A
or_value none d = d
or_value (some a) d = a

-- `HashSet::insert` into an empty set
abbrev pub just_thread : Option ℕ → List ℕ
just_thread none = []
just_thread (some tid) = tid ∷ []

-- What the `stopped` handler makes of the halt state, which it clears first.
unfoldable pub halt_of : StoppedEventBody → HaltState
unfolding debug_reason
halt_of body = record {
  stopped_threads = just_thread body.thread_id;
  all_threads_stopped = or_value body.all_threads_stopped false;
  last_stop_reason = some (debug_reason body.reason);
  hit_breakpoint_ids = or_value body.hit_breakpoint_ids [];
}

-- The arms of the match on the event's name.
pub data EventKind : Type 0 where
  initialized_event stopped_event continued_event terminated_event exited_event : EventKind
  breakpoint_event thread_event passthrough : EventKind

unfoldable pub kind_of : String → EventKind
kind_of name =
    if name == "initialized"
    then initialized_event
    else if name == "stopped"
    then stopped_event
    else if name == "continued"
    then continued_event
    else if name == "terminated"
    then terminated_event
    else if name == "exited"
    then exited_event
    else if name == "breakpoint"
    then breakpoint_event
    else if name == "thread"
    then thread_event
    else passthrough

-- The thread that a `thread` event names as exited, under the keys that the handler reads.
unfoldable pub exited_thread : Json → Option ℕ
exited_thread body =
    and_then (and_then (Json.get body "reason") as_str)
      λ reason. if reason == "exited" then and_then (Json.get body "thread_id") as_u64 else none

-- `HashSet::remove`
unfoldable pub forget_thread : Option ℕ → HaltState → HaltState
forget_thread none h = h
forget_thread (some tid) h = record h {
  stopped_threads = retain (λ t. not (t == tid)) h.stopped_threads;
}

module _ {Caps : Type 0} where
  abbrev pub call : ClientCall → Exec Caps (Unit {0})
  call c = modify (λ s. record s { calls = c ∷ s.calls })

  unfoldable pub on_initialized : Exec Caps Bool
  on_initialized s =
      if s.state == initialized
      then (s, ok true)
      else (transition_to initialized "event:initialized" >> pure true) s

  unfoldable pub on_stopped : StoppedEventBody → Exec Caps Bool
  unfolding halt_of
  on_stopped body = do
    modify (λ s. record s { halt_state = halt_of body })
    transition_to halted "event:stopped"
    pure true

  unfoldable pub clear_halt : Exec Caps (Unit {0})
  clear_halt = modify (λ s. record s { halt_state = State.clear s.halt_state })

  unfoldable pub unless_running : Exec Caps Bool
  unless_running s =
      if s.state == running
      then (s, ok true)
      else (transition_to running "event:continued" >> pure true) s

  unfoldable pub on_continued : Exec Caps Bool
  unfolding clear_halt unless_running
  on_continued = do clear_halt; unless_running

  unfoldable pub clear_breakpoints : Exec Caps (Unit {0})
  clear_breakpoints =
      modify (λ s. record s { breakpoint_cache = Breakpoints.clear s.breakpoint_cache })

  -- The end of `shutdown` and of the `terminated` and `exited` handlers.
  unfoldable pub disconnect : {A : Type 0} → String → A → Exec Caps A
  unfolding clear_breakpoints
  disconnect reason a s =
      if s.state == disconnected
      then (s, ok a)
      else (do transition_to disconnected reason; clear_breakpoints; pure a) s

  unfoldable pub on_ended : String → Exec Caps Bool
  unfolding disconnect
  on_ended reason = do call shutdown_adapter; disconnect reason true

  unfoldable pub on_thread : Json → Exec Caps Bool
  on_thread body = do
    modify (λ s. record s { halt_state = forget_thread (exited_thread body) s.halt_state })
    pure false

  -- A body that cannot be read stands for a breakpoint without an id, which changes nothing.
  unfoldable pub on_breakpoint : Option Breakpoint → Exec Caps Bool
  on_breakpoint none = pure false
  on_breakpoint (some b) = do
    modify (λ s. record s { breakpoint_cache = (Breakpoints.update_by_id s.breakpoint_cache b).0 })
    pure false

-- `breakpoint_of` is the derived deserializer of `BreakpointEventBody` with its `breakpoint` field.
module _ (breakpoint_of : Json → Option Breakpoint) {Caps : Type 0} where
  unfoldable pub on_event : EventKind → Json → Exec Caps Bool
  on_event initialized_event body = on_initialized
  on_event stopped_event body = on_stopped (or_value (stopped_body body) unknown_stop)
  on_event continued_event body = on_continued
  on_event terminated_event body = on_ended "event:terminated"
  on_event exited_event body = on_ended "event:exited"
  on_event breakpoint_event body = on_breakpoint (breakpoint_of body)
  on_event thread_event body = on_thread body
  on_event passthrough body = pure false

  unfoldable pub handle_event : Event → Exec Caps Bool
  handle_event e = on_event (kind_of e.event) (or_value e.body null)

  -- The loop of the event task: an event that fails is logged, and the loop goes on.
  unfoldable pub handle_events : List Event → DebugSession Caps → DebugSession Caps
  handle_events [] s = s
  handle_events (e ∷ events) s = handle_events events (handle_event e s).0
