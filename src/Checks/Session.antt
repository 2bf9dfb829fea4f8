-- ===== src/Checks/Session.antt =====
-- crates/debug-session/src/session.rs along a small debug session, its operations and events in the
-- order in which the adapter sends them.
use teledap.Prelude.{
  List, ◌∷◌, ◌≡◌, ◌≢◌, inr, refl, true, false, Option, none, some, [], String, ok, err, contains,
  nat_eq, string_eq,
}
use teledap.Dict
use teledap.Dap.Json.{Json, null, str, num, boolean, obj, field, end}
use teledap.Dap.Types.{Breakpoint}
use teledap.State.{
  disconnected, state_eq, connected, initialized, running, halted, can_transition_to,
}
use teledap.Gating.{is_allowed, allowed_states, gating_table}
use teledap.Session.{
  Transition, state_watcher, DebugSession, new, invalid_state, gate, transition_to, cache_variables,
}
use teledap.Session.Calls.{AdapterConfig, codelldb}
use teledap.Session.Events
use teledap.Session.Events.{
  Event, kind_of, on_event, handle_event, handle_events, halt_of, clear_halt, unless_running,
  disconnect, clear_breakpoints, or_value,
}
use teledap.Session.Operations
use teledap.Session.Operations.{await, await_adapter, resume, from_client}
use teledap.Session.Commands.{
  Command, start, initialize, configuration_done, step_over, evaluate, perform, name_of,
}
use teledap.Session.Refused.{perform_refused}
use teledap.Session.Sequential.{perform_sequential, next, goal, reply_of}
use teledap.Session.Reachable.{
  Reach, opened, performed, handled, cached, IsPath, Reach-IsPath, Reach-handshake, Reach-IsIdle,
  since_start,
}

-- No `breakpoint` event stands in these sessions.
abbrev pub no_breakpoint : Json → Option Breakpoint
no_breakpoint _ = none

abbrev config : AdapterConfig
config = record { path = "codelldb"; kind = codelldb; args = [] }

abbrev pub run : Command Json → DebugSession Json → DebugSession Json
run c s = (perform no_breakpoint c [] s).0

abbrev pub on : Event → DebugSession Json → DebugSession Json
on e s = (handle_event no_breakpoint e s).0

abbrev pub event : String → Json → Event
event name body = record { seq = 0; event = name; body = some body }

abbrev pub hit : Event
hit = event "stopped" (
    obj (
      field "reason" (str "breakpoint")
        (field "threadId" (num 7) (field "allThreadsStopped" (boolean false) end))))

abbrev pub is_connected : DebugSession Json
is_connected = run (start config (ok tt)) (new true)

abbrev pub is_initialized : DebugSession Json
is_initialized = run (initialize null (ok null)) is_connected

abbrev pub is_running : DebugSession Json
is_running = run (configuration_done (ok tt)) is_initialized

abbrev pub is_halted : DebugSession Json
is_halted = on hit is_running

reaches_halted : Reach no_breakpoint is_halted
reaches_halted = handled hit (
    performed (configuration_done (ok tt)) [] (
      performed (initialize null (ok null)) [] (performed (start config (ok tt)) [] (opened true))))

-- What computing with a session wants open.
pub halted_now : is_halted.state ≡ halted
unfolding perform new Operations.start Operations.initialize Operations.configuration_done
    await_adapter await handle_events gate is_allowed allowed_states gating_table Dict.get
    transition_to can_transition_to handle_event on_event kind_of Events.on_stopped halt_of
halted_now = refl

pub running_now : is_running.state ≡ running
unfolding perform new Operations.start Operations.initialize Operations.configuration_done
    await_adapter await handle_events gate is_allowed allowed_states gating_table Dict.get
    transition_to can_transition_to
running_now = refl

pub initialized_now : is_initialized.state ≡ initialized
unfolding perform new Operations.start Operations.initialize await handle_events gate is_allowed
    allowed_states gating_table Dict.get transition_to can_transition_to
initialized_now = refl

pub connected_now : is_connected.state ≡ connected
unfolding perform new Operations.start await handle_events gate is_allowed allowed_states
    gating_table Dict.get transition_to can_transition_to
connected_now = refl

evaluate_refused :
    is_allowed (name_of {Caps = Json} (evaluate null (ok null))) is_running.state ≡ false
unfolding name_of is_allowed allowed_states gating_table Dict.get perform new Operations.start
    Operations.initialize Operations.configuration_done await_adapter await handle_events gate
    transition_to can_transition_to
evaluate_refused = refl

perform_refused_example : perform no_breakpoint (evaluate null (ok null)) [] is_running ≡ (
  is_running,
  err (
      invalid_state
        (name_of {Caps = Json} (evaluate null (ok null)))
        is_running.state
        (allowed_states (name_of {Caps = Json} (evaluate null (ok null))))),
)
perform_refused_example =
    perform_refused no_breakpoint (evaluate null (ok null)) [] is_running evaluate_refused

abbrev step : Command Json
step = step_over 7 none (ok tt)

step_allowed : is_allowed (name_of step) is_halted.state ≡ true
unfolding name_of is_allowed allowed_states gating_table Dict.get perform new Operations.start
    Operations.initialize Operations.configuration_done await_adapter await handle_events gate
    transition_to can_transition_to handle_event on_event kind_of Events.on_stopped halt_of
step_allowed = refl

perform_sequential_example :
    ((perform no_breakpoint step [] is_halted).0.state
      ≡ next (reply_of step) (goal step is_halted.state) is_halted.state)
    × ((perform no_breakpoint step [] is_halted).1 ≡ from_client (reply_of step))
perform_sequential_example = perform_sequential no_breakpoint step is_halted step_allowed

abbrev path_to_halted : List Transition
path_to_halted =
    (record { source = running; target = halted; reason = "event:stopped" })
    ∷ (record { source = initialized; target = running; reason = "configuration_done" })
    ∷ (record { source = connected; target = initialized; reason = "initialize" })
    ∷ (record { source = disconnected; target = connected; reason = "start" })
    ∷ []

traced_to_halted : is_halted.trace ≡ some path_to_halted
unfolding perform new Operations.start Operations.initialize Operations.configuration_done
    await_adapter await handle_events gate is_allowed allowed_states gating_table Dict.get
    transition_to can_transition_to handle_event on_event kind_of Events.on_stopped halt_of
traced_to_halted = refl

Reach-IsPath_example : IsPath is_halted.state path_to_halted
Reach-IsPath_example = Reach-IsPath no_breakpoint reaches_halted traced_to_halted

Reach-handshake_example : contains initialized (since_start path_to_halted) ≡ true
Reach-handshake_example =
    Reach-handshake no_breakpoint reaches_halted traced_to_halted (inr halted_now)

-- Only a watched session stores what it broadcasts.
unwatched : is_connected.broadcasts ≡ disconnected ∷ []
unfolding perform new Operations.start await handle_events gate is_allowed allowed_states
    gating_table Dict.get transition_to can_transition_to
unwatched = refl

watched_from_start :
    (run (start config (ok tt)) (state_watcher (new true))).broadcasts
    ≡ connected ∷ disconnected ∷ []
unfolding perform new state_watcher Operations.start await handle_events gate is_allowed
    allowed_states gating_table Dict.get transition_to can_transition_to
watched_from_start = refl

-- An `initialized` event that comes first leads on to a running session without the request, and so
-- without capabilities.
abbrev without_handshake : DebugSession Json
without_handshake = run (configuration_done (ok tt)) (on (event "initialized" null) is_connected)

runs_without_handshake :
    (without_handshake.state ≡ running) × (without_handshake.capabilities ≡ none)
unfolding perform new Operations.start Operations.configuration_done await_adapter await
    handle_events gate is_allowed allowed_states gating_table Dict.get transition_to
    can_transition_to handle_event on_event kind_of Events.on_initialized
runs_without_handshake = (refl, refl)

abbrev stepped : DebugSession Json
stepped = run step (cache_variables 1 [] none none is_halted)

reaches_stepped : Reach no_breakpoint stepped
reaches_stepped = performed step [] (cached 1 [] none none halted_now reaches_halted)

stepped_runs : stepped.state ≢ halted
unfolding cache_variables perform new Operations.start Operations.initialize
    Operations.configuration_done Operations.step_over resume clear_halt await_adapter await
    handle_events gate is_allowed allowed_states gating_table Dict.get transition_to
    can_transition_to handle_event on_event kind_of Events.on_stopped halt_of
stepped_runs e = cc

Reach-IsIdle_example : stepped.variable_cache.entries ≡ []
Reach-IsIdle_example = Reach-IsIdle no_breakpoint reaches_stepped stepped_runs

abbrev ending : Event
ending = event "terminated" null
