-- ===== src/Session/Bodies.antt =====
-- The body of a `stopped` event (crates/dap-types/src/events.rs and enums.rs) as its derived
-- deserializer reads it from an object. Reading it from a JSON array is not modelled.
use mathlib.Core.Option
use Prim.Native.String.{◌++◌ as ◌+++◌}
use teledap.Prelude.{
  ℕ, Bool, Option, none, some, List, [], ◌∷◌, String, string_eq, ◌==◌, if◌then◌else◌,
}
use teledap.Dap.Json.{
  Json, num, arr, Items, nil, cons, as_str, as_u64, as_bool, and_then, optional_field,
  required_field,
}

pub data StoppedReason : Type 0 where
  step breakpoint exception pause entry goto function_breakpoint data_breakpoint
        instruction_breakpoint :
      StoppedReason
  other : String → StoppedReason

-- The wire names; any other string is `Other`.
unfoldable pub stopped_reason : String → StoppedReason
stopped_reason s =
    if s == "step"
    then step
    else if s == "breakpoint"
    then breakpoint
    else if s == "exception"
    then exception
    else if s == "pause"
    then pause
    else if s == "entry"
    then entry
    else if s == "goto"
    then goto
    else if s == "function breakpoint"
    then function_breakpoint
    else if s == "data breakpoint"
    then data_breakpoint
    else if s == "instruction breakpoint"
    then instruction_breakpoint
    else other s

-- The derived `Debug`; the escapes in a quoted string are not modelled.
unfoldable pub debug_reason : StoppedReason → String
debug_reason step = "Step"
debug_reason breakpoint = "Breakpoint"
debug_reason exception = "Exception"
debug_reason pause = "Pause"
debug_reason entry = "Entry"
debug_reason goto = "Goto"
debug_reason function_breakpoint = "FunctionBreakpoint"
debug_reason data_breakpoint = "DataBreakpoint"
debug_reason instruction_breakpoint = "InstructionBreakpoint"
debug_reason (other s) = "Other(\"" +++ s +++ "\")"

-- The fields of `StoppedEventBody` that the session reads; the other optional fields are
-- `description`, `preserveFocusHint` and `text`.
pub record StoppedEventBody : Type 0 where
  pub reason : StoppedReason
  pub thread_id : Option ℕ
  pub all_threads_stopped : Option Bool
  pub hit_breakpoint_ids : Option (List ℕ)

ids_of : Items → Option (List ℕ)
ids_of nil = some []
ids_of (cons (num n) js) = Option.map (λ ns. n ∷ ns) (ids_of js)
ids_of (cons _ js) = none

as_ids : Json → Option (List ℕ)
unfolding ids_of
as_ids (arr js) = ids_of js
as_ids _ = none

-- Every field's value is checked, those of the fields that are not kept too.
unfoldable pub stopped_body : Json → Option StoppedEventBody
unfolding stopped_reason as_ids
stopped_body body = and_then (required_field as_str body "reason") λ reason.
    and_then (optional_field as_str body "description") λ _.
      and_then (optional_field as_u64 body "threadId") λ thread_id.
        and_then (optional_field as_bool body "preserveFocusHint") λ _.
          and_then (optional_field as_str body "text") λ _.
            and_then (optional_field as_bool body "allThreadsStopped") λ all_threads_stopped.
              and_then (optional_field as_ids body "hitBreakpointIds") λ hit_breakpoint_ids.
                some (record {
                  reason = stopped_reason reason;
                  thread_id = thread_id;
                  all_threads_stopped = all_threads_stopped;
                  hit_breakpoint_ids = hit_breakpoint_ids;
                })

-- The body that stands in for one that cannot be read.
abbrev pub unknown_stop : StoppedEventBody
unknown_stop = record {
  reason = other "unknown";
  thread_id = none;
  all_threads_stopped = none;
  hit_breakpoint_ids = none;
}
