-- ===== src/Bridge/Lifecycle/Startup.antt =====
-- The tools of crates/debug-bridge/src/handlers/lifecycle.rs in the order that a client follows.
use teledap.Prelude.{◌≡◌, refl, String, string_eq, Bool, Option, some, [], ◌∷◌, Result, ok}
use teledap.Dict
use teledap.Dap.Json.{Json}
use teledap.Dap.Types.{Breakpoint}
use teledap.State.{state_eq, running, can_transition_to, display}
use teledap.Gating.{is_allowed, allowed_states, gating_table}
use teledap.Session.{new, gate, transition_to}
use teledap.Session.Calls.{start_adapter, request, raw, no_arguments}
use teledap.Session.Events.{or_value, handle_events}
use teledap.Session.Operations as Operations
use teledap.Session.Operations.{await, await_adapter, adapter_request}
use teledap.Bridge.Execution.{success}
use teledap.Bridge.Lifecycle.{
  StartParams, start_params, initialize_params, LaunchParams, launch_params, config_of, kind_named,
  default_id, initialize_arguments, launch_extra, handle_start, handle_initialize, handle_launch,
  handle_configuration_done,
}

-- A client that calls the tools `start`, `initialize`, `launch` and `configuration_done` on a new
-- session, with arguments that can be read, and gets good replies, ends with a running session if no
-- event is handled from the first call to the last, and the client was asked for just these four: the
-- adapter, the handshake with the adapter's own id by default, the program under its resolved path, and
-- the end of the configuration, where the last two are waited for only from GDB.
pub handle_configuration_done-running :
    (breakpoint_of : Json → Option Breakpoint) (explain : Json → String) {Caps : Type 0}
    (caps : Caps) (pretty : Caps → Result String String) (resolve : String → Option String)
    (tracing : Bool) (j1 j2 j3 j4 : Json) (p1 : StartParams) (p2 : Option String)
    (p3 : LaunchParams)
    → start_params j1 ≡ some p1
    → initialize_params j2 ≡ some p2
    → launch_params j3 ≡ some p3
    → let kind = some (kind_named p1.adapter_kind) in
      let s1 = (handle_start breakpoint_of explain j1 (ok tt) [] (new {Caps = Caps} tracing)).0 in
      let s2 = (handle_initialize breakpoint_of explain pretty j2 (ok caps) [] s1).0 in
      let s3 = (handle_launch breakpoint_of explain resolve j3 (ok tt) [] s2).0 in
      let (s4, r) = handle_configuration_done breakpoint_of explain j4 (ok tt) [] s3 in
      (r ≡ ok (success "Configuration done. State: Running"))
      × (s4.state ≡ running)
      × (s4.calls
          ≡ adapter_request kind "configurationDone" no_arguments
            ∷ adapter_request kind "launch" (raw (launch_extra resolve kind p3))
            ∷ request "initialize" (raw (initialize_arguments (or_value p2 (default_id kind))))
            ∷ start_adapter (config_of p1)
            ∷ [])
unfolding handle_start handle_initialize handle_launch handle_configuration_done new config_of
    Operations.start Operations.initialize Operations.launch Operations.configuration_done await
    await_adapter handle_events gate transition_to is_allowed allowed_states gating_table Dict.get
    can_transition_to display success
handle_configuration_done-running breakpoint_of explain caps pretty resolve tracing j1 j2 j3 j4 p1
      p2 p3 a b c =
    rw (a, b, c) (refl, refl, refl)
