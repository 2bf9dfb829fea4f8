-- ===== src/Cli/Loop.antt =====
-- The event loop of src/cli.rs: a stop is looked at and the debuggee goes on. No other task handles
-- events while an operation waits. The texts that are logged are not modelled.
use teledap.Prelude.{
  true, ℕ, string_eq, Bool, false, not, ◌&&◌, Option, none, some, List, [], ◌∷◌, Result, ok, err,
  ◌==◌, if◌then◌else◌, ltb, nat_eq,
}
use teledap.Dap.Json.{Json, and_then}
use teledap.Dap.Types.{Thread, StackFrame, Scope, Variable, Breakpoint}
use teledap.State.{state_eq, disconnected}
use teledap.Session.{DebugSession, DebugSessionError}
use teledap.Session.Bodies.{stopped_body}
use teledap.Session.Events.{Event, or_value, handle_event}
use teledap.Session.Operations.{
  Reply, get_threads, get_stack_trace, get_scopes, get_variables, continue_execution, shutdown,
}

-- What the adapter answers after a stop.
pub record Answers : Type 1 where
  pub R : Type 0
  pub threads : Reply (List Thread)
  pub frames : Reply (List StackFrame)
  pub scopes : Reply (List Scope)
  pub variables : ℕ → Reply (List Variable)
  pub continued : Reply R

-- An event and what follows it.
pub record Turn : Type 1 where
  pub event : Event
  pub answers : Answers

abbrev pub stopped_thread : Event → Option ℕ
stopped_thread e = and_then (and_then e.body stopped_body) (λ b. b.thread_id)

module _ (breakpoint_of : Json → Option Breakpoint) {Caps : Type 0} where
  -- The variables of a scope, if it is the local one.
  unfoldable pub show_scope : Answers → Scope → DebugSession Caps → DebugSession Caps
  show_scope a scope s =
      if scope.name == "Local" && ltb 0 scope.variables_reference
      then (get_variables breakpoint_of scope.variables_reference none none none
          (a.variables scope.variables_reference) [] s).0
      else s

  unfoldable pub show_scopes : Answers → List Scope → DebugSession Caps → DebugSession Caps
  unfolding show_scope
  show_scopes a [] s = s
  show_scopes a (scope ∷ scopes) s = show_scopes a scopes (show_scope a scope s)

  abbrev pub scopes_shown :
      Answers → DebugSession Caps × Result DebugSessionError (List Scope) → DebugSession Caps
  scopes_shown a (s, ok scopes) = show_scopes a scopes s
  scopes_shown a (s, err e) = s

  -- The scopes of the top frame.
  unfoldable pub show_top : Answers → List StackFrame → DebugSession Caps → DebugSession Caps
  unfolding show_scopes
  show_top a [] s = s
  show_top a (frame ∷ frames) s = scopes_shown a (get_scopes breakpoint_of frame.id a.scopes [] s)

  abbrev pub frames_shown :
      Answers
      → ℕ
      → DebugSession Caps × Result DebugSessionError (List StackFrame)
      → DebugSession Caps
  frames_shown a thread_id (s, err e) = s
  frames_shown a thread_id (s, ok frames) =
      (continue_execution breakpoint_of thread_id none a.continued [] (show_top a frames s)).0

  abbrev pub threads_shown :
      Answers
      → Option ℕ
      → DebugSession Caps × Result DebugSessionError (List Thread)
      → DebugSession Caps
  threads_shown a tid (s, err e) = s
  threads_shown a tid (s, ok []) = s
  threads_shown a tid (s, ok (thread ∷ threads)) =
      let thread_id = or_value tid thread.id in
      frames_shown a thread_id
        (get_stack_trace breakpoint_of thread_id none (some 10) a.frames [] s)

  -- The arm of "stopped".
  unfoldable pub on_stopped : Event → Answers → DebugSession Caps → DebugSession Caps
  unfolding show_top
  on_stopped e a s = threads_shown a (stopped_thread e) (get_threads breakpoint_of a.threads [] s)

  -- The match on the event's name, and whether the loop goes on.
  abbrev pub after :
      Turn → DebugSession Caps × Result DebugSessionError Bool → DebugSession Caps × Bool
  after t (s, err e) = (s, false)
  after t (s, ok handled) =
      if t.event.event == "stopped"
      then (let s' = on_stopped t.event t.answers s in (s', not (s'.state == disconnected)))
      else if t.event.event == "terminated"
      then (s, false)
      else if t.event.event == "exited"
      then (s, false)
      else (s, not (s.state == disconnected))

  -- The loop over the events that come, and whether it is left. Behind them it is left if the channel
  -- is `closed`, and waits if it is open, as that of the client always is.
  unfoldable pub event_loop : Bool → List Turn → DebugSession Caps → DebugSession Caps × Bool
  unfolding on_stopped
  event_loop closed [] s = (s, closed)
  event_loop closed (t ∷ turns) s =
      let r = after t (handle_event breakpoint_of t.event s) in
      let rest = event_loop closed turns r.0 in if r.1 then rest else (r.0, true)

  -- The end of `run`, which is also that of `cleanup_session` in src/server.rs, where events may come
  -- while the adapter shuts down.
  unfoldable pub cleanup : List Event → DebugSession Caps → DebugSession Caps
  cleanup meanwhile s =
      if s.state == disconnected then s else (shutdown breakpoint_of meanwhile s).0
