-- ===== src/Checks/Tools.antt =====
-- Tests of the tools that look at the debuggee and set breakpoints, and instances of their theorems.
use teledap.Prelude.{ℕ, String, string_eq, ◌≡◌, refl, none, some, Option, List, [], ◌∷◌, Result, ok}
use teledap.Dap.Json.{Json, get, get_field, num, str, arr, obj, nil, cons, end, field}
use teledap.Dap.Types.{Breakpoint, Thread, Variable, StackFrame, Scope}
use teledap.Session.Operations as Operations
use teledap.Bridge.Execution.{reported, to_json_error}
use teledap.Bridge.Inspect.{variables_params, variable_filter}
use teledap.Bridge.Inspect.Context.{Adapter, handle_assemble_context}
use teledap.Bridge.Inspect.Quiet.{Quiet, handle_assemble_context-Quiet}
use teledap.Bridge.BreakpointTools.{
  SetBreakpointsParams, set_breakpoints_params, bp_item, items_of, breakpoints_arguments,
  handle_set_breakpoints, handle_set_breakpoints-set_breakpoints,
}
use teledap.Checks.Session.{no_breakpoint, is_halted}

-- The filter of `get_variables`: an unknown one is dropped.
filter_named : variable_filter (some "named") ≡ some "named"
unfolding variable_filter
filter_named = refl

filter_unknown : variable_filter (some "both") ≡ none
unfolding variable_filter
filter_unknown = refl

read_variables :
    variables_params (obj (field "variablesReference" (num 7) (field "count" (num 5) end)))
    ≡ some (record { variables_reference = 7; filter = none; first = none; count = some 5 })
unfolding variables_params get get_field
read_variables = refl

-- The key `logMessage` of a breakpoint is not read.
read_log_message :
    set_breakpoints_params (
      obj (
        field "sourcePath" (str "a.c") (
          field "breakpoints"
            (arr (cons (obj (field "line" (num 3) (field "logMessage" (str "x") end))) nil))
            end)))
    ≡ some (record {
      source_path = "a.c";
      breakpoints = (record { line = 3; condition = none; log_message = none }) ∷ [];
    })
unfolding set_breakpoints_params bp_item items_of get get_field
read_log_message = refl

abbrev main_thread : Thread
main_thread = record { id = 1; name = "main" }

abbrev top : StackFrame
top = record { id = 10; name = "main"; source = none; line = 3; column = 1 }

abbrev locals : Scope
locals = record {
  name = "Locals";
  variables_reference = 20;
  named_variables = none;
  indexed_variables = none;
}

abbrev count_of : Variable
count_of = record {
  name = "count";
  value = "4";
  var_type = some "int";
  variables_reference = 0;
  named_variables = none;
  indexed_variables = none;
}

abbrev adapter : Adapter
adapter = record {
  threads = λ n. (ok (main_thread ∷ []), []);
  frames = λ n i. (ok (top ∷ []), []);
  scopes = λ n i. (ok (locals ∷ []), []);
  variables = λ n i. (ok (count_of ∷ []), []);
}

abbrev show : Variable → Json
show v = str v.name

abbrev pub print : Json → Result String String
print j = ok "{}"

abbrev pub complain : Json → String
complain j = "missing field"

abbrev clock : ℕ → ℕ
clock n = n

handle_assemble_context-Quiet_example :
    Quiet is_halted
      (handle_assemble_context no_breakpoint adapter show clock print complain
        (obj end)
        is_halted).0
handle_assemble_context-Quiet_example =
    handle_assemble_context-Quiet no_breakpoint adapter show clock print complain (obj end)
      is_halted (λ n. refl, λ n i. refl, λ n i. refl, λ n i. refl)

abbrev pretty : List Breakpoint → Result String String
pretty l = ok "[]"

abbrev resolve : String → Option String
resolve path = some "/src/a.c"

abbrev one_line : Json
one_line = obj (
    field "sourcePath" (str "a.c")
      (field "breakpoints" (arr (cons (obj (field "line" (num 3) end)) nil)) end))

abbrev one_params : SetBreakpointsParams
one_params = record {
  source_path = "a.c";
  breakpoints = (record { line = 3; condition = none; log_message = none }) ∷ [];
}

read_one : set_breakpoints_params one_line ≡ some one_params
unfolding set_breakpoints_params bp_item items_of get get_field
read_one = refl

handle_set_breakpoints-set_breakpoints_example :
    handle_set_breakpoints no_breakpoint complain pretty resolve one_line (ok []) [] [] is_halted
    ≡ reported
        (λ r. to_json_error (pretty r))
        (Operations.set_breakpoints no_breakpoint
          (breakpoints_arguments resolve one_params)
          (ok [])
          []
          is_halted)
handle_set_breakpoints-set_breakpoints_example =
    handle_set_breakpoints-set_breakpoints no_breakpoint complain pretty resolve one_line one_params
      (ok []) [] is_halted read_one
