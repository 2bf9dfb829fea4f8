-- ===== src/Bridge/Inspect/Quiet.antt =====
-- The tools of crates/debug-bridge/src/handlers/inspect.rs only look: what they leave of the session.
use teledap.Prelude.{
  ℕ, ◌≡◌, ◌≢◌, refl, sym, ap, ◌∙◌, String, nat_eq, string_eq, ◌&&◌, Option, none, some, List, [],
  ◌∷◌, Result, ok, err, if_intro, length, ltb, Bool-cases, inl, inr, arith,
}
use teledap.Dict
use teledap.Dap.Json.{Json}
use teledap.Dap.Types.{Breakpoint, Thread, Variable, StackFrame, Scope}
use teledap.State.{state_eq, halted}
use teledap.Gating.{is_allowed, allowed_states, gating_table}
use teledap.Session.{DebugSession, DebugSessionError, ◌>>◌, gate, cache_variables}
use teledap.Session.Calls.{ClientCall}
use teledap.Session.Events.{or_value, handle_events}
use teledap.Session.Operations as Operations
use teledap.Session.Operations.{Reply, await}
use teledap.Bridge.Inspect.Context

-- The second session differs from the first in its calls at most, and if the first is halted in its
-- variable cache.
abbrev pub Quiet : {Caps : Type 0} → DebugSession Caps → DebugSession Caps → Type 0
Quiet s s' =
    (s'.state ≡ s.state)
    × (s'.halt_state ≡ s.halt_state)
    × (s'.broadcasts ≡ s.broadcasts)
    × (s'.breakpoint_cache ≡ s.breakpoint_cache)
    × (s.state ≢ halted → s'.variable_cache ≡ s.variable_cache)

module _ {Caps : Type 0} where
  Quiet-refl : (s : DebugSession Caps) → Quiet s s
  Quiet-refl s = (refl, refl, refl, refl, λ _. refl)

  Quiet-trans : (s t u : DebugSession Caps) → Quiet s t → Quiet t u → Quiet s u
  Quiet-trans s t u (a, b, c, d, e) (f, g, h, i, j) =
      (f ∙ a, g ∙ b, h ∙ c, i ∙ d, λ n. j (λ q. n (sym a ∙ q)) ∙ e n)

module _ (breakpoint_of : Json → Option Breakpoint) {Caps : Type 0} where
  -- A call of the client with no event meanwhile.
  query-Quiet :
      {A : Type 0} (name : String) (c : ClientCall) (reply : Reply A) (s : DebugSession Caps)
      → Quiet s ((gate name >> await breakpoint_of c reply []) s).0
  unfolding gate await handle_events
  query-Quiet name c reply s = elim (Bool-cases (is_allowed name s.state)) [
    | inl p ↦ rw p (Quiet-refl s)
    | inr p ↦ rw p (Quiet-refl s)
  ]

  -- Variables come only from a halted session.
  get_variables-halted :
      (v : ℕ) (f : Option String) (a n : Option ℕ) (reply : Reply (List Variable))
      (vs : List Variable) (s : DebugSession Caps)
      → (Operations.get_variables breakpoint_of v f a n reply [] s).1 ≡ ok vs
      → s.state ≡ halted
  unfolding Operations.get_variables gate await handle_events is_allowed allowed_states gating_table
      Dict.get
  get_variables-halted v f a n reply vs s h = ground arith

  cache_variables-Quiet :
      (now : ℕ) (vs : List Variable) (f : Option ℕ) (sc : Option String) (s : DebugSession Caps)
      → s.state ≡ halted
      → Quiet s (cache_variables now vs f sc s)
  unfolding cache_variables
  cache_variables-Quiet now vs f sc s h = (refl, refl, refl, refl, λ n. absurd (n h))

-- No event is handled while the adapter is waited for.
abbrev pub IsSilent : Context.Adapter → Type 0
IsSilent adapter =
    ((n : ℕ) → (adapter.threads n).1 ≡ [])
    × ((n i : ℕ) → (adapter.frames n i).1 ≡ [])
    × ((n i : ℕ) → (adapter.scopes n i).1 ≡ [])
    × ((n i : ℕ) → (adapter.variables n i).1 ≡ [])

each-Quiet :
    {A Caps : Type 0} (f : A → DebugSession Caps → DebugSession Caps × Option Json)
    → ((a : A) (s : DebugSession Caps) → Quiet s (f a s).0)
    → (l : List A) (s : DebugSession Caps) → Quiet s (Context.each f l s).0
unfolding Context.each
each-Quiet f q [] s = Quiet-refl s
each-Quiet f q (a ∷ l) s =
    let t = (f a s).0 in Quiet-trans s t (Context.each f l t).0 (q a s) (each-Quiet f q l t)

module _ (breakpoint_of : Json → Option Breakpoint) (adapter : Context.Adapter)
    (show : Variable → Json) (clock : ℕ → ℕ) {Caps : Type 0} (silent : IsSilent adapter) where
  fetch-Quiet :
      (v : ℕ) (n : Option ℕ) (s : DebugSession Caps)
      → Quiet s (Context.fetch breakpoint_of adapter show clock v n s).0
  unfolding Operations.get_variables
  fetch-Quiet v n s = rw (silent.3 (length s.calls) v) (query-Quiet breakpoint_of _ _ _ s)

  fetch-halted :
      (v : ℕ) (n : Option ℕ) (vs : List Variable) (s : DebugSession Caps)
      → (Context.fetch breakpoint_of adapter show clock v n s).1 ≡ ok vs
      → s.state ≡ halted
  fetch-halted v n vs s h =
      let reply = (adapter.variables (length s.calls) v).0 in
      get_variables-halted breakpoint_of v none none n reply vs s (
        ap (λ m. (Operations.get_variables breakpoint_of v none none n reply m s).1)
          (sym (silent.3 (length s.calls) v))
        ∙ h)

  variable_context-Quiet :
      (max_depth : ℕ) (v : Variable) (s : DebugSession Caps)
      → Quiet s (Context.variable_context breakpoint_of adapter show clock max_depth v s).0
  unfolding Context.variable_context
  variable_context-Quiet max_depth v s =
      if_intro (λ (p : DebugSession Caps × Option Json). Quiet s p.0)
        (ltb 0 v.variables_reference && ltb 1 max_depth)
        (fetch-Quiet v.variables_reference (some 50) s) (Quiet-refl s)

  listed-Quiet :
      (max_depth : ℕ) (frame : StackFrame) (c : Scope) (s : DebugSession Caps)
      (p : DebugSession Caps × Result DebugSessionError (List Variable))
      → Quiet s p.0
      → ((vs : List Variable) → p.1 ≡ ok vs → s.state ≡ halted)
      → Quiet s (Context.listed breakpoint_of adapter show clock max_depth frame c p).0
  listed-Quiet max_depth frame c s (t, err e) q h = q
  listed-Quiet max_depth frame c s (t, ok vs) q h =
      let u = cache_variables (clock (length t.calls)) vs (some frame.id) (some c.name) t in
      let one =
        cache_variables-Quiet breakpoint_of (clock (length t.calls)) vs (some frame.id)
          (some c.name) t (q.0 ∙ h vs refl) in
      let step = Context.variable_context breakpoint_of adapter show clock max_depth in
      Quiet-trans s t (Context.each step vs u).0 q (
        Quiet-trans t u (Context.each step vs u).0 one
          (each-Quiet step (variable_context-Quiet max_depth) vs u))

  scope_context-Quiet :
      (max_depth : ℕ) (frame : StackFrame) (c : Scope) (s : DebugSession Caps)
      → Quiet s (Context.scope_context breakpoint_of adapter show clock max_depth frame c s).0
  unfolding Context.scope_context
  scope_context-Quiet max_depth frame c s =
      if_intro (λ (p : DebugSession Caps × Option Json). Quiet s p.0) (ltb 0 c.variables_reference)
        (listed-Quiet max_depth frame c s
          (Context.fetch breakpoint_of adapter show clock c.variables_reference none s)
          (fetch-Quiet c.variables_reference none s)
          (λ vs. fetch-halted c.variables_reference none vs s))
        (Quiet-refl s)

  scoped-Quiet :
      (max_depth : ℕ) (frame : StackFrame) (s : DebugSession Caps)
      (p : DebugSession Caps × Result DebugSessionError (List Scope))
      → Quiet s p.0
      → Quiet s (Context.scoped breakpoint_of adapter show clock max_depth frame p).0
  scoped-Quiet max_depth frame s (t, err e) q = q
  scoped-Quiet max_depth frame s (t, ok scopes) q =
      let step = Context.scope_context breakpoint_of adapter show clock max_depth frame in
      Quiet-trans s t (Context.each step scopes t).0 q
        (each-Quiet step (scope_context-Quiet max_depth frame) scopes t)

  frame_context-Quiet :
      (max_depth : ℕ) (frame : StackFrame) (s : DebugSession Caps)
      → Quiet s (Context.frame_context breakpoint_of adapter show clock max_depth frame s).0
  unfolding Context.frame_context Operations.get_scopes
  frame_context-Quiet max_depth frame s =
      let p = adapter.scopes (length s.calls) frame.id in
      scoped-Quiet max_depth frame s (Operations.get_scopes breakpoint_of frame.id p.0 p.1 s)
        (rw (silent.2 (length s.calls) frame.id) (query-Quiet breakpoint_of _ _ _ s))

  stacked-Quiet :
      (max_depth : ℕ) (t : Thread) (s : DebugSession Caps)
      (p : DebugSession Caps × Result DebugSessionError (List StackFrame))
      → Quiet s p.0
      → Quiet s (Context.stacked breakpoint_of adapter show clock max_depth t p).0
  stacked-Quiet max_depth th s (t, err e) q = q
  stacked-Quiet max_depth th s (t, ok frames) q =
      let step = Context.frame_context breakpoint_of adapter show clock max_depth in
      Quiet-trans s t (Context.each step frames t).0 q
        (each-Quiet step (frame_context-Quiet max_depth) frames t)

  thread_context-Quiet :
      (max_frames max_depth : ℕ) (t : Thread) (s : DebugSession Caps)
      → Quiet s (Context.thread_context breakpoint_of adapter show clock max_frames max_depth t s).0
  unfolding Context.thread_context Operations.get_stack_trace
  thread_context-Quiet max_frames max_depth t s =
      let p = adapter.frames (length s.calls) t.id in
      stacked-Quiet max_depth t s
        (Operations.get_stack_trace breakpoint_of t.id none (some max_frames) p.0 p.1 s)
        (rw (silent.1 (length s.calls) t.id) (query-Quiet breakpoint_of _ _ _ s))

  assembled-Quiet :
      (pretty : Json → Result String String) (a : Context.AssembleContextParams)
      (s : DebugSession Caps) (p : DebugSession Caps × Result DebugSessionError (List Thread))
      → Quiet s p.0
      → Quiet s (Context.assembled breakpoint_of adapter show clock pretty a p).0
  assembled-Quiet pretty a s (t, err e) q = q
  assembled-Quiet pretty a s (t, ok threads) q =
      let step =
        Context.thread_context breakpoint_of adapter show clock (or_value a.max_frames 10)
          (or_value a.max_depth 2) in
      let targets = Context.chosen a.thread_id threads in
      Quiet-trans s t (Context.each step targets t).0 q (
        each-Quiet step (thread_context-Quiet (or_value a.max_frames 10) (or_value a.max_depth 2))
          targets t)

  assemble-Quiet :
      (pretty : Json → Result String String) (message : String)
      (o : Option Context.AssembleContextParams) (s : DebugSession Caps)
      → Quiet s (Context.assemble breakpoint_of adapter show clock pretty message o s).0
  unfolding Operations.get_threads
  assemble-Quiet pretty message none s = Quiet-refl s
  assemble-Quiet pretty message (some a) s =
      let p = adapter.threads (length s.calls) in
      assembled-Quiet pretty a s (Operations.get_threads breakpoint_of p.0 p.1 s)
        (rw (silent.0 (length s.calls)) (query-Quiet breakpoint_of _ _ _ s))

-- Assembling the context, with whatever threads, frames, scopes and variables the adapter reports and
-- whichever of its calls fail, leaves the state, its history, the halt information and the breakpoints
-- as they are, if no event is handled meanwhile, and puts variables into the cache only of a halted
-- session.
pub handle_assemble_context-Quiet :
    (breakpoint_of : Json → Option Breakpoint) (adapter : Context.Adapter) (show : Variable → Json)
    (clock : ℕ → ℕ) {Caps : Type 0} (pretty : Json → Result String String) (explain : Json → String)
    (params : Json) (s : DebugSession Caps)
    → IsSilent adapter
    → Quiet s
        (Context.handle_assemble_context breakpoint_of adapter show clock pretty explain params s).0
unfolding Context.handle_assemble_context
handle_assemble_context-Quiet breakpoint_of adapter show clock pretty explain params s silent =
    assemble-Quiet breakpoint_of adapter show clock silent pretty (explain params)
      (Context.assemble_context_params params) s
