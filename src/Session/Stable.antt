-- ===== src/Session/Stable.antt =====
-- Properties that every write of a session keeps are kept by every operation and every event, in
-- every interleaving.
use teledap.Prelude.{
  Bool, true, false, Option, none, some, List, [], ◌∷◌, String, Result, ok, err, ◌==◌,
  if◌then◌else◌,
}
use teledap.Dap.Json.{Json, null}
use teledap.Dap.Types.{Breakpoint}
use teledap.State.{SessionState, HaltState, state_eq, initialized, running, disconnected}
use teledap.Breakpoints.{BreakpointCache}
use teledap.Session.{DebugSession, DebugSessionError, Exec, continue, ◌>>=◌, gate, transition_to}
use teledap.Session.Calls.{ClientCall, AdapterKind, Arguments}
use teledap.Session.Bodies
use teledap.Session.Events
use teledap.Session.Events.{
  Event, EventKind, initialized_event, stopped_event, continued_event, terminated_event,
  exited_event, breakpoint_event, thread_event, passthrough, on_event, kind_of, handle_event,
  handle_events, disconnect, call, clear_halt, or_value, unless_running, clear_breakpoints,
}
use teledap.Session.Operations
use teledap.Session.Operations.{Reply, await, await_adapter, resume, from_client}
use teledap.Session.Commands.{
  Command, start, initialize, launch, attach, configuration_done, shutdown, continue_execution,
  step_over, step_out, step_in, pause, set_breakpoints, set_function_breakpoints, perform, discard,
  get_threads, get_stack_trace, get_scopes, get_variables, evaluate, set_variable,
}

-- `P` is kept by a transition, legal or not, and by a write to any field but the state, what is
-- recorded of it, and the variable cache.
pub record IsStable {Caps : Type 0} (P : DebugSession Caps → Type 0) : Type 0 where
  pub transition :
      (t : SessionState) (r : String) (s : DebugSession Caps) → P s → P (transition_to t r s).0
  pub calls : (x : List ClientCall) (s : DebugSession Caps) → P s → P (record s { calls = x })
  pub halt_state : (x : HaltState) (s : DebugSession Caps) → P s → P (record s { halt_state = x })
  pub breakpoint_cache :
      (x : BreakpointCache) (s : DebugSession Caps) → P s → P (record s { breakpoint_cache = x })
  pub capabilities :
      (x : Option Caps) (s : DebugSession Caps) → P s → P (record s { capabilities = x })
  pub is_configured : (x : Bool) (s : DebugSession Caps) → P s → P (record s { is_configured = x })
  pub watched : (x : Bool) (s : DebugSession Caps) → P s → P (record s { watched = x })
  pub adapter_kind :
      (x : Option AdapterKind) (s : DebugSession Caps) → P s → P (record s { adapter_kind = x })

-- `m` keeps `P`, whether it returns or fails.
abbrev pub Keeps : {Caps A : Type 0} → (DebugSession Caps → Type 0) → Exec Caps A → Type 0
Keeps {Caps} P m = (s : DebugSession Caps) → P s → P (m s).0

module _ {Caps : Type 0} {P : DebugSession Caps → Type 0} (st : IsStable P) where
  pub Keeps-bind :
      {A B : Type 0} (m : Exec Caps A) (f : A → Exec Caps B)
      → Keeps P m
      → ((a : A) → Keeps P (f a))
      → Keeps P (m >>= f)
  Keeps-bind m f km kf s h = next (m s).1 (m s).0 (km s h)
    where
      next :
          (r : Result DebugSessionError _) (s' : DebugSession Caps) → P s' → P (continue r f s').0
      next (ok a) s' h' = kf a s' h'
      next (err e) s' h' = h'

  Keeps-if :
      {A : Type 0} (b : Bool) (m n : DebugSession Caps × A)
      → P m.0
      → P n.0
      → P (if b then m else n).0
  Keeps-if true m n p q = p
  Keeps-if false m n p q = q

  Keeps-gate : (op : String) → Keeps P (gate {Caps = Caps} op)
  unfolding gate
  Keeps-gate op s h = Keeps-if _ (s, _) (s, _) h h

  Keeps-on_initialized : Keeps P (Events.on_initialized {Caps = Caps})
  unfolding Events.on_initialized
  Keeps-on_initialized s h =
      Keeps-if (s.state == initialized) _ _ h
        (Keeps-bind (transition_to initialized _) _ (st.transition initialized _) (λ _ s h. h) s h)

  Keeps-on_stopped : (b : Bodies.StoppedEventBody) → Keeps P (Events.on_stopped {Caps = Caps} b)
  unfolding Events.on_stopped
  Keeps-on_stopped b s h =
      Keeps-bind (transition_to _ _) _ (st.transition _ _) (λ _ s h. h) _ (st.halt_state _ s h)

  Keeps-on_continued : Keeps P (Events.on_continued {Caps = Caps})
  unfolding Events.on_continued Events.clear_halt Events.unless_running
  Keeps-on_continued s h =
      let h' = st.halt_state _ s h in
      Keeps-if (s.state == running) _ _ h'
        (Keeps-bind (transition_to running _) _ (st.transition running _) (λ _ s h. h) _ h')

  Keeps-disconnect :
      {A : Type 0} (reason : String) (a : A) → Keeps P (disconnect {Caps = Caps} reason a)
  unfolding disconnect clear_breakpoints
  Keeps-disconnect reason a s h = Keeps-if (s.state == disconnected) _ _ h (
      Keeps-bind (transition_to disconnected reason) _ (st.transition disconnected reason)
        (λ _ s h. st.breakpoint_cache _ s h) s h)

  Keeps-on_ended : (reason : String) → Keeps P (Events.on_ended {Caps = Caps} reason)
  unfolding Events.on_ended
  Keeps-on_ended reason s h = Keeps-disconnect reason true _ (st.calls _ s h)

  Keeps-on_thread : (body : Json) → Keeps P (Events.on_thread {Caps = Caps} body)
  unfolding Events.on_thread
  Keeps-on_thread body s h = st.halt_state _ s h

  Keeps-on_breakpoint : (o : Option Breakpoint) → Keeps P (Events.on_breakpoint {Caps = Caps} o)
  unfolding Events.on_breakpoint
  Keeps-on_breakpoint none s h = h
  Keeps-on_breakpoint (some b) s h = st.breakpoint_cache _ s h

module _ (breakpoint_of : Json → Option Breakpoint) {Caps : Type 0} {P : DebugSession Caps → Type 0}
    (st : IsStable P) where
  Keeps-on_event : (k : EventKind) (body : Json) → Keeps P (on_event breakpoint_of k body)
  unfolding on_event
  Keeps-on_event initialized_event body = Keeps-on_initialized st
  Keeps-on_event stopped_event body =
      Keeps-on_stopped st (or_value (Bodies.stopped_body body) Bodies.unknown_stop)
  Keeps-on_event continued_event body = Keeps-on_continued st
  Keeps-on_event terminated_event body = Keeps-on_ended st "event:terminated"
  Keeps-on_event exited_event body = Keeps-on_ended st "event:exited"
  Keeps-on_event breakpoint_event body = Keeps-on_breakpoint st (breakpoint_of body)
  Keeps-on_event thread_event body = Keeps-on_thread st body
  Keeps-on_event passthrough body = λ s h. h

  -- One event keeps every stable property.
  pub handle_event-Keeps : (e : Event) → Keeps P (handle_event breakpoint_of e)
  unfolding handle_event
  handle_event-Keeps e = Keeps-on_event (kind_of e.event) (or_value e.body null)

  pub handle_events-keeps :
      (events : List Event) (s : DebugSession Caps) → P s → P (handle_events breakpoint_of events s)
  unfolding handle_events
  handle_events-keeps [] s h = h
  handle_events-keeps (e ∷ events) s h =
      handle_events-keeps events (handle_event breakpoint_of e s).0 (handle_event-Keeps e s h)

  Keeps-await :
      {A : Type 0} (c : ClientCall) (r : Reply A) (m : List Event)
      → Keeps P (await breakpoint_of c r m)
  unfolding await
  Keeps-await c r m s h = handle_events-keeps m _ (st.calls _ s h)

  Keeps-await_adapter :
      (command : String) (a : Arguments) (r : Reply (Unit {0})) (m : List Event)
      → Keeps P (await_adapter breakpoint_of command a r m)
  unfolding await_adapter
  Keeps-await_adapter command a r m s h = handle_events-keeps m _ (st.calls _ s h)

  -- An operation behind its gate.
  Keeps-gated :
      {A : Type 0} (op : String) (k : Exec Caps A) → Keeps P k → Keeps P (gate op >>= λ _. k)
  Keeps-gated op k h = Keeps-bind st (gate op) _ (Keeps-gate st op) (λ _. h)

  Keeps-resume :
      {R : Type 0} (op reason : String) (c : ClientCall) (r : Reply R) (m : List Event)
      → Keeps P (gate op >>= λ _. resume breakpoint_of reason c r m)
  unfolding resume clear_halt
  Keeps-resume op reason c r m = Keeps-gated op _ (
      Keeps-bind st (await breakpoint_of c r m) _ (Keeps-await c r m) (λ a s h.
        Keeps-bind st (transition_to running reason) _ (st.transition running reason) (λ _ s h. h) _
          (st.halt_state _ s h)))

  Keeps-discard : {A : Type 0} (m : Exec Caps A) → Keeps P m → Keeps P (discard m)
  Keeps-discard m h s p = h s p

  Keeps-query :
      {A : Type 0} (op : String) (c : ClientCall) (r : Reply A) (m : List Event)
      → Keeps P (gate op >>= λ _. await breakpoint_of c r m)
  Keeps-query op c r m = Keeps-gated op _ (Keeps-await c r m)

  -- One operation keeps every stable property, whatever the client replies and whichever events are
  -- handled meanwhile.
  pub perform-Keeps : (c : Command Caps) (m : List Event) → Keeps P (perform breakpoint_of c m)
  unfolding perform Operations.start Operations.initialize Operations.launch Operations.attach
      Operations.configuration_done Operations.shutdown Operations.continue_execution
      Operations.step_over Operations.step_out Operations.step_in Operations.pause
      Operations.set_breakpoints Operations.set_function_breakpoints Operations.get_threads
      Operations.get_stack_trace Operations.get_scopes Operations.get_variables Operations.evaluate
      Operations.set_variable
  perform-Keeps (start c r) m = Keeps-gated "start" _ (
      Keeps-bind st (await breakpoint_of _ r m) _ (Keeps-await _ r m)
        (λ _ s h. st.transition _ _ _ (st.adapter_kind _ s h)))
  perform-Keeps (initialize a r) m = Keeps-gated "initialize" _ (
      Keeps-bind st (await breakpoint_of _ r m) _ (Keeps-await _ r m) (λ _ s h.
        Keeps-bind st (transition_to _ _) _ (st.transition _ _) (λ _ s h. h) _
          (st.capabilities _ s h)))
  perform-Keeps (launch a r) m = Keeps-gated "launch" _ (Keeps-await_adapter _ _ r m)
  perform-Keeps (attach a r) m = Keeps-query "attach" _ r m
  perform-Keeps (configuration_done r) m = Keeps-gated "configuration_done" _ (
      Keeps-bind st (await_adapter breakpoint_of _ _ r m) _ (Keeps-await_adapter _ _ r m)
        (λ _ s h. st.transition _ _ _ (st.is_configured _ s h)))
  perform-Keeps shutdown m = Keeps-gated "shutdown" _ (
      Keeps-bind st (await breakpoint_of _ _ m) _ (Keeps-await _ _ m)
        (λ _. Keeps-disconnect st "shutdown" tt))
  perform-Keeps (continue_execution t o r) m = Keeps-resume "continue" "continue" _ r m
  perform-Keeps (step_over t o r) m = Keeps-resume "step_over" "step_over" _ r m
  perform-Keeps (step_out t o r) m = Keeps-resume "step_out" "step_out" _ r m
  perform-Keeps (step_in t o i r) m = Keeps-resume "step_in" "step_in" _ r m
  perform-Keeps (set_breakpoints a r) m = Keeps-gated "set_breakpoints" _ (
      Keeps-bind st (await breakpoint_of _ r m) _ (Keeps-await _ r m)
        (λ _ s h. st.breakpoint_cache _ s h))
  perform-Keeps (set_function_breakpoints b r) m = Keeps-gated "set_function_breakpoints" _ (
      Keeps-bind st (await breakpoint_of _ r m) _ (Keeps-await _ r m)
        (λ _ s h. st.breakpoint_cache _ s h))
  perform-Keeps (pause t r) m = Keeps-query "pause" _ r m
  perform-Keeps (get_threads r) m = Keeps-query "get_threads" _ r m
  perform-Keeps (get_stack_trace t f l r) m = Keeps-query "get_stack_trace" _ r m
  perform-Keeps (get_scopes f r) m = Keeps-query "get_scopes" _ r m
  perform-Keeps (get_variables v f a n r) m = Keeps-query "get_variables" _ r m
  perform-Keeps (evaluate a r) m = Keeps-query "evaluate" _ r m
  perform-Keeps (set_variable a r) m = Keeps-query "set_variable" _ r m
