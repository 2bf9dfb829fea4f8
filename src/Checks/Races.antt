-- ===== src/Checks/Races.antt =====
-- crates/debug-session/src/session.rs with an event that is handled while an operation waits.
use teledap.Prelude.{◌≡◌, refl, none, some, [], ◌∷◌, ok}
use teledap.Dap.Json.{null}
use teledap.State.{running, halted, no_halt}
use teledap.Session.Calls.{SetBreakpointsArguments}
use teledap.Session.Events.{Event, kind_of, handle_event, halt_of}
use teledap.Session.Operations
use teledap.Session.Halts.{stop_of}
use teledap.Session.Races.{stop_overtakes_step}
use teledap.Checks.Session.{no_breakpoint, event, hit, is_halted, halted_now}

stop_overtakes_step_example :
    let step = Operations.step_over no_breakpoint 7 none (ok tt) in
    ((handle_event no_breakpoint hit (step [] is_halted).0).0.state ≡ halted)
    × ((handle_event no_breakpoint hit (step [] is_halted).0).0.halt_state ≡ halt_of (stop_of hit))
    × ((step (hit ∷ []) is_halted).0.state ≡ running)
    × ((step (hit ∷ []) is_halted).0.halt_state ≡ no_halt)
    × ((step (hit ∷ []) is_halted).1 ≡ ok tt)
unfolding kind_of
stop_overtakes_step_example = stop_overtakes_step no_breakpoint hit is_halted 7 none refl halted_now

abbrev going : Event
going = event "continued" null

abbrev ending : Event
ending = event "terminated" null

abbrev args : SetBreakpointsArguments
args = record {
  source = record { name = none; path = some "/a.cpp" };
  breakpoints = some [];
  lines = none;
  source_modified = none;
}

abbrev ready : Event
ready = event "initialized" null
