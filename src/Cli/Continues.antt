-- ===== src/Cli/Continues.antt =====
-- What the event loop of src/cli.rs does to a session that stops again and again, and how it leaves it.
use teledap.Prelude.{
  eq_of_beq, ℕ, ◌+◌, suc, ◌≡◌, refl, ap, ◌∙◌, String, string_eq, Bool, true, false, not, ◌&&◌,
  Option, none, some, List, [], ◌∷◌, Result, ok, err, ◌==◌, if◌then◌else◌, ltb, arith, All, length,
  nat_eq, Bool-cases, inl, inr, if_intro,
}
use teledap.Dap.Json.{Json}
use teledap.Dap.Types.{Thread, StackFrame, Scope, Breakpoint}
use teledap.State.{
  SessionState, connected, initialized, state_eq, disconnected, running, halted, can_transition_to,
}
use teledap.Gating.{is_allowed, allowed_states, gating_table}
use teledap.Dict.{get}
use teledap.Session.{DebugSession, DebugSessionError, gate, transition_to, ◌>>◌}
use teledap.Session.Calls.{
  Arguments, variables_arguments, scopes_arguments, stack_trace_arguments, no_arguments, ClientCall,
  request, request_nb, start_adapter, shutdown_adapter,
}
use teledap.Session.Events
use teledap.Session.Events.{
  Event, or_value, kind_of, handle_event, handle_events, on_event, clear_halt, disconnect,
  clear_breakpoints,
}
use teledap.Session.Operations.{
  Reply, from_client, await, resume, get_threads, get_stack_trace, get_scopes, get_variables,
  continue_execution, shutdown,
}
use teledap.Cli.Loop.{
  Answers, Turn, show_scope, show_scopes, scopes_shown, show_top, frames_shown, threads_shown,
  stopped_thread, on_stopped, after, event_loop, cleanup,
}

-- How often the client was asked to continue.
abbrev pub continues : List ClientCall → ℕ
continues [] = 0
continues (start_adapter config ∷ calls) = continues calls
continues (shutdown_adapter ∷ calls) = continues calls
continues (request command args ∷ calls) =
    let n = continues calls in if command == "continue" then suc n else n
continues (request_nb command args ∷ calls) = continues calls

kind-stopped : (e : Event) → e.event ≡ "stopped" → kind_of e.event ≡ Events.stopped_event
kind-stopped e h = ap kind_of h ∙ (unfold kind_of in refl)

halted_allows :
    (is_allowed "get_threads" halted ≡ true)
    × (is_allowed "get_stack_trace" halted ≡ true)
    × (is_allowed "get_scopes" halted ≡ true)
    × (is_allowed "get_variables" halted ≡ true)
    × (is_allowed "continue" halted ≡ true)
unfolding is_allowed allowed_states get gating_table
halted_allows = (refl, refl, refl, refl, refl)

shutdown_allowed :
    (state : SessionState) → (state == disconnected) ≡ false → is_allowed "shutdown" state ≡ true
unfolding is_allowed allowed_states get gating_table
shutdown_allowed disconnected h = cc h
shutdown_allowed connected h = refl
shutdown_allowed initialized h = refl
shutdown_allowed running h = refl
shutdown_allowed halted h = refl

abbrev pub is_ok : {A : Type 0} → Reply A → Bool
is_ok (ok a) = true
is_ok (err e) = false

abbrev pub has_some : {A : Type 0} → Reply (List A) → Bool
has_some (ok []) = false
has_some (ok (a ∷ l)) = true
has_some (err e) = false

-- A stop after which the adapter names a thread, shows its stack and lets it go on.
abbrev pub IsAnswered : Turn → Type 0
IsAnswered t =
    (t.event.event ≡ "stopped")
    × (has_some t.answers.threads ≡ true)
    × (is_ok t.answers.frames ≡ true)
    × (is_ok t.answers.continued ≡ true)

module _ (breakpoint_of : Json → Option Breakpoint) {Caps : Type 0} where
  abbrev IsHalted : ℕ → DebugSession Caps → Type 0
  IsHalted n s = (s.state ≡ halted) × (continues s.calls ≡ n)

  gate-halted :
      (op : String) (s : DebugSession Caps)
      → is_allowed op halted ≡ true
      → s.state ≡ halted
      → gate op s ≡ (s, ok s.state)
  unfolding gate
  gate-halted op s a h = let p : is_allowed op s.state ≡ true = ap (is_allowed op) h ∙ a in rw p

  -- A query of a halted session.
  query :
      {A : Type 0} (op command : String) (args : Arguments) (reply : Reply A)
      (s : DebugSession Caps)
      → is_allowed op halted ≡ true
      → s.state ≡ halted
      → (gate op >> await breakpoint_of (request command args) reply []) s
        ≡ (record s { calls = request command args ∷ s.calls }, from_client reply)
  unfolding await handle_events
  query op command args reply s a h = rw (gate-halted op s a h)

  show_scope-IsHalted :
      (n : ℕ) (a : Answers) (scope : Scope) (s : DebugSession Caps)
      → IsHalted n s
      → IsHalted n (show_scope breakpoint_of a scope s)
  unfolding show_scope get_variables
  show_scope-IsHalted n a scope s (h, c) =
      if_intro (IsHalted n) (scope.name == "Local" && ltb 0 scope.variables_reference)
        (rw
          (query "get_variables" "variables"
            (variables_arguments scope.variables_reference none none none)
            (a.variables scope.variables_reference) s halted_allows.3 h)
          (h, c))
        (h, c)

  show_scopes-IsHalted :
      (n : ℕ) (a : Answers) (scopes : List Scope) (s : DebugSession Caps)
      → IsHalted n s
      → IsHalted n (show_scopes breakpoint_of a scopes s)
  unfolding show_scopes
  show_scopes-IsHalted n a [] s h = h
  show_scopes-IsHalted n a (scope ∷ scopes) s h =
      show_scopes-IsHalted n a scopes (show_scope breakpoint_of a scope s)
        (show_scope-IsHalted n a scope s h)

  scopes_shown-IsHalted :
      (n : ℕ) (a : Answers) (s : DebugSession Caps) (reply : Reply (List Scope))
      → IsHalted n s
      → IsHalted n (scopes_shown breakpoint_of a (s, from_client reply))
  scopes_shown-IsHalted n a s (ok scopes) h = show_scopes-IsHalted n a scopes s h
  scopes_shown-IsHalted n a s (err e) h = h

  show_top-IsHalted :
      (n : ℕ) (a : Answers) (frames : List StackFrame) (s : DebugSession Caps)
      → IsHalted n s
      → IsHalted n (show_top breakpoint_of a frames s)
  unfolding show_top get_scopes
  show_top-IsHalted n a [] s h = h
  show_top-IsHalted n a (frame ∷ frames) s (h, c) =
      rw (query "get_scopes" "scopes" (scopes_arguments frame.id) a.scopes s halted_allows.2 h) (
        scopes_shown-IsHalted n a
          (record s { calls = request "scopes" (scopes_arguments frame.id) ∷ s.calls }) a.scopes
          (h, c))

  stop-IsHalted :
      (e : Event) (s : DebugSession Caps)
      → e.event ≡ "stopped"
      → s.state ≡ running
      → ((handle_event breakpoint_of e s).1 ≡ ok true)
        × ((handle_event breakpoint_of e s).0.state ≡ halted)
        × ((handle_event breakpoint_of e s).0.calls ≡ s.calls)
  unfolding handle_event on_event Events.on_stopped transition_to can_transition_to
  stop-IsHalted e s k h = let kind = kind-stopped e k in ground arith

  abbrev IsRunning : ℕ → DebugSession Caps → Type 0
  IsRunning n s = (s.state ≡ running) × (continues s.calls ≡ n)

  continue-IsRunning :
      {R : Type 0} (n tid : ℕ) (reply : Reply R) (s : DebugSession Caps)
      → is_ok reply ≡ true
      → IsHalted n s
      → IsRunning (suc n) (continue_execution breakpoint_of tid none reply [] s).0
  unfolding continue_execution resume await handle_events clear_halt transition_to can_transition_to
  continue-IsRunning n tid (err e) s o h = cc o
  continue-IsRunning n tid (ok r) s o (h, c) =
      let p : can_transition_to s.state running ≡ true =
        ap (λ x. can_transition_to x running) h ∙ refl in
      rw (gate-halted "continue" s halted_allows.4 h) (rw p (refl, ap (λ k. suc k) c))

  frames_shown-IsRunning :
      (n tid : ℕ) (a : Answers) (frames : Reply (List StackFrame)) (s : DebugSession Caps)
      → is_ok frames ≡ true
      → is_ok a.continued ≡ true
      → IsHalted n s
      → IsRunning (suc n) (frames_shown breakpoint_of a tid (s, from_client frames))
  frames_shown-IsRunning n tid a (err e) s f o h = cc f
  frames_shown-IsRunning n tid a (ok frames) s f o h =
      continue-IsRunning n tid a.continued (show_top breakpoint_of a frames s) o
        (show_top-IsHalted n a frames s h)

  threads_shown-IsRunning :
      (n : ℕ) (a : Answers) (tid : Option ℕ) (threads : Reply (List Thread)) (s : DebugSession Caps)
      → has_some threads ≡ true
      → is_ok a.frames ≡ true
      → is_ok a.continued ≡ true
      → IsHalted n s
      → IsRunning (suc n) (threads_shown breakpoint_of a tid (s, from_client threads))
  unfolding get_stack_trace
  threads_shown-IsRunning n a tid (err e) s t f o h = cc t
  threads_shown-IsRunning n a tid (ok []) s t f o h = cc t
  threads_shown-IsRunning n a tid (ok (thread ∷ threads)) s t f o (h, c) =
      let thread_id = or_value tid thread.id in
      let args = stack_trace_arguments thread_id none (some 10) in
      rw (query "get_stack_trace" "stackTrace" args a.frames s halted_allows.1 h) (
        frames_shown-IsRunning n thread_id a a.frames
          (record s { calls = request "stackTrace" args ∷ s.calls }) f o (h, c))

  on_stopped-IsRunning :
      (n : ℕ) (e : Event) (a : Answers) (s : DebugSession Caps)
      → has_some a.threads ≡ true
      → is_ok a.frames ≡ true
      → is_ok a.continued ≡ true
      → IsHalted n s
      → IsRunning (suc n) (on_stopped breakpoint_of e a s)
  unfolding on_stopped get_threads
  on_stopped-IsRunning n e a s t f o (h, c) =
      rw (query "get_threads" "threads" no_arguments a.threads s halted_allows.0 h) (
        threads_shown-IsRunning n a (stopped_thread e) a.threads
          (record s { calls = request "threads" no_arguments ∷ s.calls }) t f o (h, c))

  after-IsRunning :
      (n : ℕ) (t : Turn) (s : DebugSession Caps) (r : Result DebugSessionError Bool)
      → IsAnswered t
      → r ≡ ok true
      → IsHalted n s
      → IsRunning (suc n) (after breakpoint_of t (s, r)).0
        × ((after breakpoint_of t (s, r)).1 ≡ true)
  after-IsRunning n t s r (e, th, f, o) p h =
      let q = on_stopped-IsRunning n t.event t.answers s th f o h in
      let b : (t.event.event == "stopped") ≡ true = ap (λ name. name == "stopped") e ∙ refl in
      rw (p, b) (q, ap (λ state. not (state == disconnected)) q.0 ∙ refl)

  -- Over any number of stops that the adapter answers for, the loop of a running session goes on: it
  -- asks the client to continue once for each stop, the session is running in the end, and the loop is
  -- left only if the channel is closed behind these events.
  pub event_loop-continues :
      (closed : Bool) (turns : List Turn) (s : DebugSession Caps)
      → s.state ≡ running
      → All IsAnswered turns
      → ((event_loop breakpoint_of closed turns s).0.state ≡ running)
        × (continues (event_loop breakpoint_of closed turns s).0.calls
            ≡ continues s.calls + length turns)
        × ((event_loop breakpoint_of closed turns s).1 ≡ closed)
  unfolding event_loop
  event_loop-continues closed [] s h all = (h, omega arith, refl)
  event_loop-continues closed (t ∷ turns) s h (a, all) =
      let (p, halts, calls) = stop-IsHalted t.event s a.0 h in
      let s' = (handle_event breakpoint_of t.event s).0 in
      let (goes_on, on) =
        after-IsRunning (continues s.calls) t s' (handle_event breakpoint_of t.event s).1 a p
          (halts, ap continues calls) in
      let s'' = (after breakpoint_of t (handle_event breakpoint_of t.event s)).0 in
      let (runs, count, left) = event_loop-continues closed turns s'' goes_on.0 all in
      rw on (runs, count ∙ ap (λ n. n + length turns) goes_on.1 ∙ omega arith, left)

  disconnect-disconnected :
      (reason : String) (s : DebugSession Caps) → (disconnect reason tt s).0.state ≡ disconnected
  unfolding disconnect clear_breakpoints transition_to can_transition_to
  disconnect-disconnected reason s = ground arith

  -- However the loop has ended, and whatever events come while the adapter shuts down, the session is
  -- disconnected in the end.
  pub cleanup-disconnected :
      (meanwhile : List Event) (s : DebugSession Caps)
      → (cleanup breakpoint_of meanwhile s).state ≡ disconnected
  unfolding cleanup shutdown gate await
  cleanup-disconnected meanwhile s = elim (Bool-cases (s.state == disconnected)) [
    | inl p ↦ rw p (eq_of_beq s.state disconnected p)
    | inr p ↦
        rw (p, shutdown_allowed s.state p)
          (disconnect-disconnected "shutdown" (
            handle_events breakpoint_of meanwhile
              (record s { calls = shutdown_adapter ∷ s.calls })))
  ]
