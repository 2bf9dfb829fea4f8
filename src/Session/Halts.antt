-- ===== src/Session/Halts.antt =====
-- What the handlers of crates/debug-session/src/session.rs make of single events.
use teledap.Prelude.{
  ℕ, ◌≡◌, ◌≢◌, ◌⊎◌, true, false, ◌||◌, Option, some, [], String, arith, ok, err, nat_eq, string_eq,
  ◌==◌,
}
use teledap.Dap.Json
use teledap.Dap.Json.{Json, null, num, str, obj, Fields, end, field, and_then, as_str, as_u64}
use teledap.Dap.Types.{Breakpoint}
use teledap.State.{
  state_eq, disconnected, running, halted, can_transition_to, valid_predecessors, is_thread_stopped,
}
use teledap.Cache
use teledap.Breakpoints
use teledap.Session.{DebugSession, invalid_state, transition_to}
use teledap.Session.Events
use teledap.Session.Bodies.{StoppedEventBody, stopped_body, unknown_stop}
use teledap.Session.Events.{
  Event, EventKind, initialized_event, stopped_event, continued_event, terminated_event,
  exited_event, breakpoint_event, thread_event, passthrough, halt_of, just_thread, or_value,
  kind_of, on_event, handle_event, handle_events, disconnect, clear_halt, clear_breakpoints,
  unless_running, exited_thread, forget_thread, on_thread,
}

-- The body of a `stopped` event as the handler takes it.
abbrev pub stop_of : Event → StoppedEventBody
stop_of e = or_value (stopped_body (or_value e.body null)) unknown_stop

module _ (breakpoint_of : Json → Option Breakpoint) {Caps : Type 0} where
  -- A `stopped` event halts a running session, with the event's halt information; its thread counts
  -- as stopped, and every thread does if the event says so.
  pub stopped_halts :
      (e : Event) (s : DebugSession Caps) (tid other : ℕ)
      → kind_of e.event ≡ stopped_event
      → s.state ≡ running
      → (stop_of e).thread_id ≡ some tid
      → let s' = (handle_event breakpoint_of e s).0 in
        ((handle_event breakpoint_of e s).1 ≡ ok true)
        × (s'.state ≡ halted)
        × (is_thread_stopped s'.halt_state tid ≡ true)
        × (is_thread_stopped s'.halt_state other
            ≡ (or_value (stop_of e).all_threads_stopped false || tid == other))
  unfolding handle_event on_event Events.on_stopped halt_of transition_to can_transition_to
      is_thread_stopped
  stopped_halts e s tid other k h t = ground arith

  -- A `terminated` or an `exited` event disconnects a session in any state, and if it was connected
  -- no breakpoint is left in its cache.
  pub ended_disconnects :
      (e : Event) (s : DebugSession Caps)
      → (kind_of e.event ≡ terminated_event) ⊎ (kind_of e.event ≡ exited_event)
      → let s' = (handle_event breakpoint_of e s).0 in
        ((handle_event breakpoint_of e s).1 ≡ ok true)
        × (s'.state ≡ disconnected)
        × (s.state ≢ disconnected → Breakpoints.list s'.breakpoint_cache ≡ [])
        × (s.state ≡ halted → s'.variable_cache ≡ Cache.invalidate s.variable_cache)
  unfolding handle_event on_event Events.on_ended disconnect clear_breakpoints transition_to
      can_transition_to Breakpoints.list Breakpoints.clear Breakpoints.concat
  ended_disconnects e s h = ground arith

  -- A second `stopped` event while the session is halted fails, and yet its halt information takes
  -- the place of the first's.
  pub stopped_again :
      (e : Event) (s : DebugSession Caps)
      → kind_of e.event ≡ stopped_event
      → s.state ≡ halted
      → handle_event breakpoint_of e s ≡ (
        record s { halt_state = halt_of (stop_of e) },
        err (invalid_state "event:stopped" halted (valid_predecessors halted)),
      )
  unfolding handle_event on_event Events.on_stopped transition_to can_transition_to
  stopped_again e s k h = ground arith

-- What serializing a `ThreadEventBody` gives: its keys are in camel case.
unfoldable pub thread_body : String → ℕ → Json
thread_body reason thread_id =
    obj (field "reason" (str reason) (field "threadId" (num thread_id) end))

-- A `thread` event with the body that crates/dap-types/src/events.rs describes changes nothing,
-- whatever its reason and thread: the handler looks for the thread under another key.
pub thread_event_ignored :
    (breakpoint_of : Json → Option Breakpoint) {Caps : Type 0} (seq : ℕ) (reason : String)
    (thread_id : ℕ) (s : DebugSession Caps)
    → handle_event breakpoint_of
        (record { seq = seq; event = "thread"; body = some (thread_body reason thread_id) })
        s
      ≡ (s, ok false)
unfolding handle_event on_event kind_of on_thread exited_thread forget_thread thread_body Json.get
thread_event_ignored breakpoint_of seq reason thread_id s = ground arith
