-- ===== src/Gating.antt =====
-- crates/debug-session/src/gating.rs: which operations may be called in which states. The arms of
-- the `match` on the operation's name are the rows of a table, in the order of the source.
pub mod Operations
use mathlib.Core.List.{map}
use teledap.Prelude.{
  ◌≡◌, refl, Bool, List, [], ◌∷◌, ◌++◌, String, contains, retain, if◌then◌else◌, Option, none, some,
  string_eq,
}
use Prim.Native.String.{◌++◌ as ◌+++◌}
use teledap.Dict.{Dict, get}
use teledap.State.{
  SessionState, state_eq, disconnected, connected, initialized, running, halted, display,
}

abbrev pub past_start : List SessionState
past_start = connected ∷ initialized ∷ running ∷ halted ∷ []

abbrev pub breakpoint_states : List SessionState
breakpoint_states = initialized ∷ running ∷ halted ∷ []

unfoldable pub gating_table : Dict String (List SessionState)
gating_table =
    ("start", disconnected ∷ [])
    ∷ ("initialize", connected ∷ [])
    ∷ ("launch", initialized ∷ [])
    ∷ ("attach", initialized ∷ [])
    ∷ ("configuration_done", initialized ∷ [])
    ∷ ("shutdown", past_start)
    ∷ ("disconnect", past_start)
    ∷ ("continue", halted ∷ [])
    ∷ ("step_over", halted ∷ [])
    ∷ ("step_in", halted ∷ [])
    ∷ ("step_out", halted ∷ [])
    ∷ ("pause", running ∷ [])
    ∷ ("set_breakpoints", breakpoint_states)
    ∷ ("set_function_breakpoints", breakpoint_states)
    ∷ ("list_breakpoints", breakpoint_states)
    ∷ ("get_threads", running ∷ halted ∷ [])
    ∷ ("get_stack_trace", halted ∷ [])
    ∷ ("get_scopes", halted ∷ [])
    ∷ ("get_variables", halted ∷ [])
    ∷ ("evaluate", halted ∷ [])
    ∷ ("set_variable", halted ∷ [])
    ∷ ("assemble_context", halted ∷ [])
    ∷ []

abbrev pub or_empty : Option (List SessionState) → List SessionState
or_empty none = []
or_empty (some states) = states

-- An unknown operation is allowed nowhere.
unfoldable pub allowed_states : String → List SessionState
allowed_states operation = or_empty (get gating_table operation)

unfoldable pub is_allowed : String → SessionState → Bool
is_allowed operation state = contains state (allowed_states operation)

-- `ALL_OPERATIONS`
unfoldable pub all_operations : List String
all_operations =
    "start" ∷ "initialize" ∷ "launch" ∷ "attach" ∷ "configuration_done" ∷ "shutdown" ∷ "disconnect"
    ∷ "continue" ∷ "step_over" ∷ "step_in" ∷ "step_out" ∷ "pause" ∷ "set_breakpoints"
    ∷ "set_function_breakpoints" ∷ "list_breakpoints" ∷ "get_threads" ∷ "get_stack_trace"
    ∷ "get_scopes" ∷ "get_variables" ∷ "evaluate" ∷ "set_variable" ∷ "assemble_context" ∷ []

unfoldable pub operations_for_state : SessionState → List String
operations_for_state state = retain (λ op. is_allowed op state) all_operations

-- `join(", ")`
join_comma : List String → String
join_comma [] = ""
join_comma (s ∷ []) = s
join_comma (s ∷ t ∷ r) = s +++ ", " +++ join_comma (t ∷ r)

unfoldable pub describe_requirements : String → String
unfolding allowed_states join_comma display
describe_requirements operation = elim (allowed_states operation) [
  | [] ↦ "`" +++ operation +++ "` is not a recognized operation"
  | s ∷ r ↦ "`" +++ operation +++ "` requires state(s): " +++ join_comma (map display (s ∷ r))
]
