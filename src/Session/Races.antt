-- ===== src/Session/Races.antt =====
-- Events that the event task handles while an operation waits for the adapter's reply
-- (crates/debug-session/src/session.rs, src/server.rs): responses and events take different channels,
-- so an event can overtake the response that the adapter sent before it.
use teledap.Prelude.{
  ℕ, ◌≡◌, Bool, true, false, Option, none, some, List, [], ◌∷◌, ◌++◌, append-nil, arith, ok, err,
  nat_eq, string_eq,
}
use teledap.Dict
use teledap.Dap.Json.{Json}
use teledap.Dap.Types.{Breakpoint, Variable}
use teledap.State
use teledap.State.{
  SessionState, state_eq, disconnected, connected, initialized, running, halted, HaltState, no_halt,
  can_transition_to, valid_predecessors,
}
use teledap.Gating.{is_allowed, allowed_states, gating_table}
use teledap.Cache
use teledap.Breakpoints
use teledap.Session.{DebugSession, invalid_state, gate, transition_to, cache_variables}
use teledap.Session.Events
use teledap.Session.Events.{
  Event, initialized_event, stopped_event, continued_event, terminated_event, exited_event, halt_of,
  or_value, kind_of, on_event, handle_event, handle_events, disconnect, clear_halt,
  clear_breakpoints, unless_running,
}
use teledap.Session.Operations
use teledap.Session.Operations.{await, await_adapter, resume}
use teledap.Session.Halts.{stop_of}
use teledap.Session.Calls.{SetBreakpointsArguments}

module _ (breakpoint_of : Json → Option Breakpoint) {Caps : Type 0} where
  -- If the `stopped` event that ends a step is handled after the step has returned, the session is
  -- halted with the event's halt information; if it is handled while the step still waits for its
  -- response, the session ends up running with no halt information, and the step succeeds.
  pub stop_overtakes_step :
      (e : Event) (s : DebugSession Caps) (thread_id : ℕ) (single : Option Bool)
      → kind_of e.event ≡ stopped_event
      → s.state ≡ halted
      → let step = Operations.step_over breakpoint_of thread_id single (ok tt) in
        ((handle_event breakpoint_of e (step [] s).0).0.state ≡ halted)
        × ((handle_event breakpoint_of e (step [] s).0).0.halt_state ≡ halt_of (stop_of e))
        × ((step (e ∷ []) s).0.state ≡ running)
        × ((step (e ∷ []) s).0.halt_state ≡ no_halt)
        × ((step (e ∷ []) s).1 ≡ ok tt)
  unfolding Operations.step_over resume await handle_events handle_event on_event Events.on_stopped
      clear_halt State.clear transition_to can_transition_to gate is_allowed allowed_states
      gating_table Dict.get
  stop_overtakes_step e s thread_id single k h = ground arith

  -- The same race at the start of the debuggee: a stop that is handled while `configuration_done`
  -- waits leaves a session that runs, with the halt information of the stop.
  pub stop_overtakes_configuration_done :
      (e : Event) (s : DebugSession Caps)
      → kind_of e.event ≡ stopped_event
      → s.state ≡ initialized
      → let (s', r) = Operations.configuration_done breakpoint_of (ok tt) (e ∷ []) s in
        (s'.state ≡ running) × (s'.halt_state ≡ halt_of (stop_of e)) × (r ≡ ok tt)
  unfolding Operations.configuration_done await_adapter await handle_events handle_event on_event
      Events.on_stopped transition_to can_transition_to gate is_allowed allowed_states gating_table
      Dict.get
  stop_overtakes_configuration_done e s k h = ground arith

  -- If the debuggee continues while `get_variables` waits, the caller's caching of the answer puts
  -- its handles into the cache of a running session, behind the invalidation.
  pub cached_while_running :
      (e : Event) (s : DebugSession Caps) (v now : ℕ) (answer : List Variable)
      → kind_of e.event ≡ continued_event
      → s.state ≡ halted
      → let (s', r) =
          Operations.get_variables breakpoint_of v none none none (ok answer) (e ∷ []) s in
        (r ≡ ok answer)
        × (s'.state ≡ running)
        × (s'.variable_cache.valid ≡ false)
        × ((cache_variables now answer none none s').state ≡ running)
        × ((cache_variables now answer none none s').variable_cache.valid ≡ true)
  unfolding Operations.get_variables await handle_events handle_event on_event Events.on_continued
      unless_running clear_halt transition_to can_transition_to gate is_allowed allowed_states
      gating_table Dict.get cache_variables Cache.invalidate Cache.insert_batch
  cached_while_running e s v now answer k h = ground arith

  -- If the debuggee ends while `set_breakpoints` waits for a good reply, the file's breakpoints are
  -- in the cache of a disconnected session.
  pub breakpoints_after_end :
      (e : Event) (s : DebugSession Caps) (args : SetBreakpointsArguments)
      (response : List Breakpoint)
      → kind_of e.event ≡ terminated_event
      → s.state ≡ running
      → let (s', r) = Operations.set_breakpoints breakpoint_of args (ok response) (e ∷ []) s in
        (r ≡ ok response)
        × (s'.state ≡ disconnected)
        × (Breakpoints.list s'.breakpoint_cache
            ≡ Breakpoints.zip_with
                (Breakpoints.from_source (or_value args.source.path ""))
                (or_value args.breakpoints [])
                response)
  unfolding Operations.set_breakpoints await handle_events handle_event on_event Events.on_ended
      disconnect clear_breakpoints transition_to can_transition_to gate is_allowed allowed_states
      gating_table Dict.get Breakpoints.clear Breakpoints.update_source_breakpoints Dict.insert
      Breakpoints.list Breakpoints.concat
  breakpoints_after_end e s args response k h =
      let l =
        Breakpoints.zip_with (Breakpoints.from_source (or_value args.source.path ""))
          (or_value args.breakpoints []) response in
      ground (arith, append-nil l, append-nil (l ++ []))

  -- If the `initialized` event is handled while the `initialize` request waits, the request fails
  -- although the adapter answered it, and the session is initialized with its capabilities.
  pub initialized_overtakes_initialize :
      (e : Event) (s : DebugSession Caps) (args : Json) (caps : Caps)
      → kind_of e.event ≡ initialized_event
      → s.state ≡ connected
      → let (s', r) = Operations.initialize breakpoint_of args (ok caps) (e ∷ []) s in
        (s'.state ≡ initialized)
        × (s'.capabilities ≡ some caps)
        × (r ≡ err (invalid_state "initialize" initialized (valid_predecessors initialized)))
  unfolding Operations.initialize await handle_events handle_event on_event Events.on_initialized
      transition_to can_transition_to gate is_allowed allowed_states gating_table Dict.get
  initialized_overtakes_initialize e s args caps k h = ground arith
