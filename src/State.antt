-- ===== src/State.antt =====
-- crates/debug-session/src/state.rs: the states of a debug session and the halt information.
pub mod Transitions
use teledap.Prelude.{
  ℕ, ◌≡◌, arith, Bool, true, false, ◌||◌, Option, none, some, List, [], ◌∷◌, ◌↔◌, String, PartialEq,
  nat_eq, contains,
}

pub data SessionState : Type 0 where
  disconnected connected initialized running halted : SessionState

-- The derived `PartialEq`.
abbrev state_beq : SessionState → SessionState → Bool
state_beq disconnected disconnected = true
state_beq connected connected = true
state_beq initialized initialized = true
state_beq running running = true
state_beq halted halted = true
state_beq _ _ = false

SessionState-discrete : Discrete SessionState
SessionState-discrete = hlevel

pub state_beq_iff : (a b : SessionState) → (state_beq a b ≡ true) ↔ (a ≡ b)
state_beq_iff a b = (λ h. ground arith, λ h. ground arith)

instance abbrev pub state_eq : PartialEq SessionState
state_eq = record { beq = state_beq; beq_iff = state_beq_iff }

-- The `Display` implementation.
unfoldable pub display : SessionState → String
display disconnected = "Disconnected"
display connected = "Connected"
display initialized = "Initialized"
display running = "Running"
display halted = "Halted"

unfoldable pub can_transition_to : SessionState → SessionState → Bool
can_transition_to disconnected connected = true
can_transition_to connected initialized = true
can_transition_to connected disconnected = true
can_transition_to initialized running = true
can_transition_to initialized disconnected = true
can_transition_to running halted = true
can_transition_to running disconnected = true
can_transition_to halted running = true
can_transition_to halted disconnected = true
can_transition_to _ _ = false

unfoldable pub valid_predecessors : SessionState → List SessionState
valid_predecessors disconnected = connected ∷ initialized ∷ running ∷ halted ∷ []
valid_predecessors connected = disconnected ∷ []
valid_predecessors initialized = connected ∷ []
valid_predecessors running = initialized ∷ halted ∷ []
valid_predecessors halted = running ∷ []

-- `stopped_threads` is a hash set of thread ids; the list holds each of them once.
pub record HaltState : Type 0 where
  pub stopped_threads : List ℕ
  pub all_threads_stopped : Bool
  pub last_stop_reason : Option String
  pub hit_breakpoint_ids : List ℕ

-- The derived `Default`.
abbrev pub no_halt : HaltState
no_halt = record {
  stopped_threads = [];
  all_threads_stopped = false;
  last_stop_reason = none;
  hit_breakpoint_ids = [];
}

unfoldable pub clear : HaltState → HaltState
clear h = record h {
  stopped_threads = [];
  all_threads_stopped = false;
  last_stop_reason = none;
  hit_breakpoint_ids = [];
}

unfoldable pub is_thread_stopped : HaltState → ℕ → Bool
is_thread_stopped h thread_id = h.all_threads_stopped || contains thread_id h.stopped_threads
