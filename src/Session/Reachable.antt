-- ===== src/Session/Reachable.antt =====
-- What holds of every session that can arise: the history of its states, its trace, and when it has
-- variable handles in its cache.
use teledap.Prelude.{
  ℕ, false, ◌≡◌, ◌≢◌, ◌⊎◌, refl, Bool, true, ◌||◌, Option, List, [], ◌∷◌, String, arith, ◌==◌,
  Bool-cases, inl, inr, contains, some, none, subst, if◌then◌else◌,
}
use teledap.Dap.Json.{Json}
use teledap.Dap.Types.{Breakpoint, Variable}
use teledap.State.{
  SessionState, state_eq, disconnected, initialized, running, halted, can_transition_to,
}
use teledap.Cache
use teledap.Session.{
  Transition, record_transition, state_watcher, DebugSession, new, transition_to, cache_variables,
}
use teledap.Session.Events.{Event, handle_event}
use teledap.Session.Commands.{Command, perform}
use teledap.Session.Stable.{IsStable, handle_event-Keeps, perform-Keeps}

-- The sessions that operations and events lead to, in any order and interleaving, with variables
-- cached while the debuggee is halted.
pub data Reach (breakpoint_of : Json → Option Breakpoint) {Caps : Type 0}
    : DebugSession Caps → Type 0 where
  opened : (tracing : Bool) → Reach breakpoint_of (new tracing)
  performed :
      {s : DebugSession Caps} (c : Command Caps) (m : List Event)
      → Reach breakpoint_of s
      → Reach breakpoint_of (perform breakpoint_of c m s).0
  handled :
      {s : DebugSession Caps} (e : Event)
      → Reach breakpoint_of s
      → Reach breakpoint_of (handle_event breakpoint_of e s).0
  watched : {s : DebugSession Caps} → Reach breakpoint_of s → Reach breakpoint_of (state_watcher s)
  cached :
      {s : DebugSession Caps} (now : ℕ) (vs : List Variable) (f : Option ℕ) (sc : Option String)
      → s.state ≡ halted
      → Reach breakpoint_of s
      → Reach breakpoint_of (cache_variables now vs f sc s)

module _ (breakpoint_of : Json → Option Breakpoint) {Caps : Type 0} {P : DebugSession Caps → Type 0}
    (st : IsStable P) (at_new : (tracing : Bool) → P (new tracing))
    (at_cache : (now : ℕ) (vs : List Variable) (f : Option ℕ) (sc : Option String)
        (s : DebugSession Caps)
      → s.state ≡ halted
      → P s
      → P (cache_variables now vs f sc s)) where
  Reach_induction : {s : DebugSession Caps} → Reach breakpoint_of s → P s
  unfolding state_watcher
  Reach_induction (opened tracing) = at_new tracing
  Reach_induction (performed {s} c m r) = perform-Keeps breakpoint_of st c m s (Reach_induction r)
  Reach_induction (handled {s} e r) = handle_event-Keeps breakpoint_of st e s (Reach_induction r)
  Reach_induction (watched {s} r) = st.watched true s (Reach_induction r)
  Reach_induction (cached {s} now vs f sc h r) = at_cache now vs f sc s h (Reach_induction r)

-- Transitions, the last first, each of them legal, that lead from `disconnected` to `t`.
abbrev pub IsPath : SessionState → List Transition → Type 0
IsPath t [] = t ≡ disconnected
IsPath t (x ∷ l) = (x.target ≡ t) × (can_transition_to x.source t ≡ true) × IsPath x.source l

abbrev IsTraced : SessionState → Option (List Transition) → Type 0
IsTraced t none = Unit {0}
IsTraced t (some l) = IsPath t l

abbrev HasHistory : {Caps : Type 0} → DebugSession Caps → Type 0
HasHistory s = IsTraced s.state s.trace

IsTraced-record_transition :
    (x t : SessionState) (r : String) (o : Option (List Transition))
    → can_transition_to x t ≡ true
    → IsTraced x o
    → IsTraced t (record_transition (record { source = x; target = t; reason = r }) o)
IsTraced-record_transition x t r none h p = tt
IsTraced-record_transition x t r (some l) h p = (refl, h, p)

module _ {Caps : Type 0} where
  transition_to-HasHistory :
      (t : SessionState) (r : String) (s : DebugSession Caps)
      → HasHistory s
      → HasHistory (transition_to t r s).0
  unfolding transition_to
  transition_to-HasHistory t r s h = elim (Bool-cases (can_transition_to s.state t)) [
    | inl k ↦ rw k (IsTraced-record_transition s.state t r s.trace k h)
    | inr k ↦ rw k h
  ]

  HasHistory-IsStable : IsStable {Caps = Caps} HasHistory
  HasHistory-IsStable = record {
    transition = transition_to-HasHistory;
    calls = λ x s h. h;
    halt_state = λ x s h. h;
    breakpoint_cache = λ x s h. h;
    capabilities = λ x s h. h;
    is_configured = λ x s h. h;
    watched = λ x s h. h;
    adapter_kind = λ x s h. h;
  }

  cache_variables-HasHistory :
      (now : ℕ) (vs : List Variable) (f : Option ℕ) (sc : Option String) (s : DebugSession Caps)
      → s.state ≡ halted
      → HasHistory s
      → HasHistory (cache_variables now vs f sc s)
  unfolding cache_variables
  cache_variables-HasHistory now vs f sc s e h = h

new-HasHistory : (Caps : Type 0) (tracing : Bool) → HasHistory (new {Caps = Caps} tracing)
unfolding new
new-HasHistory Caps true = refl
new-HasHistory Caps false = tt

-- In every reachable session that is traced, the transitions that were traced are legal, each starts
-- where the one before has ended, the first from `disconnected`, and they end at the present state.
pub Reach-IsPath :
    (breakpoint_of : Json → Option Breakpoint) {Caps : Type 0} {s : DebugSession Caps}
    {l : List Transition}
    → Reach breakpoint_of s
    → s.trace ≡ some l
    → IsPath s.state l
Reach-IsPath breakpoint_of {Caps} {s} r e = subst (IsTraced s.state) e (
    Reach_induction breakpoint_of HasHistory-IsStable (new-HasHistory Caps)
      cache_variables-HasHistory r)

abbrev past_handshake : SessionState → Bool
past_handshake t = t == initialized || t == running || t == halted

-- The states that were entered since the last time that the session was disconnected.
abbrev pub since_start : List Transition → List SessionState
since_start [] = []
since_start (x ∷ l) =
    let rest = since_start l in x.target ∷ (if x.source == disconnected then [] else rest)

before_handshake :
    (y t : SessionState)
    → can_transition_to y t ≡ true
    → past_handshake t ≡ true
    → (t ≡ initialized) ⊎ ((past_handshake y ≡ true) × ((y == disconnected) ≡ false))
unfolding can_transition_to
before_handshake y t k h = ground arith

-- A path to a state behind the handshake leads through `initialized`.
path_needs_handshake :
    (t : SessionState) (l : List Transition)
    → IsPath t l
    → past_handshake t ≡ true
    → contains initialized (since_start l) ≡ true
path_needs_handshake t [] p h = ground arith
path_needs_handshake t (x ∷ l) (e, k, p) h = elim (before_handshake x.source t k h) [
  | inl i ↦ rw (e, i) refl
  | inr (q, d) ↦
      let rest = path_needs_handshake x.source l p q in
      elim (Bool-cases (x.target == initialized)) [ inl b ↦ rw b refl | inr b ↦ rw (b, d) rest ]
]

-- A reachable session that is traced, and whose debuggee runs or is halted, has entered `initialized`
-- since it was last disconnected.
pub Reach-handshake :
    (breakpoint_of : Json → Option Breakpoint) {Caps : Type 0} {s : DebugSession Caps}
    {l : List Transition}
    → Reach breakpoint_of s
    → s.trace ≡ some l
    → (s.state ≡ running) ⊎ (s.state ≡ halted)
    → contains initialized (since_start l) ≡ true
Reach-handshake breakpoint_of {Caps} {s} {l} r e h =
    path_needs_handshake s.state l (Reach-IsPath breakpoint_of r e) (ground arith)

-- Variable handles are valid only while the debuggee is stopped.
abbrev pub IsIdle : {Caps : Type 0} → DebugSession Caps → Type 0
IsIdle s = s.state ≢ halted → s.variable_cache.entries ≡ []

module _ {Caps : Type 0} where
  transition_to-IsIdle :
      (t : SessionState) (r : String) (s : DebugSession Caps)
      → IsIdle s
      → IsIdle (transition_to t r s).0
  unfolding transition_to Cache.invalidate can_transition_to
  transition_to-IsIdle t r s h k = ground arith

  IsIdle-IsStable : IsStable {Caps = Caps} IsIdle
  IsIdle-IsStable = record {
    transition = transition_to-IsIdle;
    calls = λ x s h. h;
    halt_state = λ x s h. h;
    breakpoint_cache = λ x s h. h;
    capabilities = λ x s h. h;
    is_configured = λ x s h. h;
    watched = λ x s h. h;
    adapter_kind = λ x s h. h;
  }

  cache_variables-IsIdle :
      (now : ℕ) (vs : List Variable) (f : Option ℕ) (sc : Option String) (s : DebugSession Caps)
      → s.state ≡ halted
      → IsIdle s
      → IsIdle (cache_variables now vs f sc s)
  unfolding cache_variables
  cache_variables-IsIdle now vs f sc s e h k = absurd (k e)

new-IsIdle : (Caps : Type 0) (tracing : Bool) → IsIdle (new {Caps = Caps} tracing)
unfolding new
new-IsIdle Caps tracing k = refl

-- In every reachable session whose debuggee is not halted the variable cache is empty, if variables
-- are cached only while it is.
pub Reach-IsIdle :
    (breakpoint_of : Json → Option Breakpoint) {Caps : Type 0} {s : DebugSession Caps}
    → Reach breakpoint_of s
    → s.state ≢ halted
    → s.variable_cache.entries ≡ []
Reach-IsIdle breakpoint_of {Caps} r =
    Reach_induction breakpoint_of IsIdle-IsStable (new-IsIdle Caps) cache_variables-IsIdle r
