-- ===== src/Checks/Bridge.antt =====
-- Tests of the tools and instances of the theorems about their dispatch.
use teledap.Prelude.{
  String, string_eq, true, ◌&&◌, ◌≡◌, refl, Option, none, some, [], ok, length, contains,
}
use teledap.Dap.Json.{Json}
use teledap.State.{SessionState}
use SessionState.{running}
use teledap.Dict.{get}
use teledap.Session.{DebugSession, new}
use teledap.Session.Commands.{perform}
use teledap.Bridge.{Handler, list_tools_for_state}
use teledap.Bridge.Tools.{all_tools, operation_table, tool_operation}
use teledap.Bridge.Registry.{names, passes, list_tools_for_state-passes}
use teledap.Bridge.Execution.{
  CallToolResult, success, reported, Stepping, args_of, report_of, command_of, call_tool,
  call_tool-perform,
}
use Stepping.{into}
use teledap.Checks.Session.{no_breakpoint, is_halted}

tools_count : length all_tools ≡ 30
unfolding all_tools
tools_count = refl

gated_count : length operation_table ≡ 21
unfolding operation_table
gated_count = refl

no_operation : tool_operation "search_variables" ≡ none
unfolding tool_operation operation_table get
no_operation = refl

list_tools_for_state-passes_example :
    contains "pause" (names (list_tools_for_state running))
    ≡ (contains "pause" (names all_tools) && passes "pause" running)
list_tools_for_state-passes_example = list_tools_for_state-passes "pause" running

abbrev no_handlers : String → Json → Option (Handler Json CallToolResult)
no_handlers name params = none

abbrev fresh : DebugSession Json
fresh = new true

abbrev text_of : Json → String
text_of j = "missing field"

abbrev step : Stepping
step = into 1 (some true) none

call_tool-perform_example :
    call_tool no_breakpoint text_of step (args_of step) (ok tt) [] is_halted
    ≡ reported
        (λ _. ok (success (report_of step)))
        (perform no_breakpoint (command_of step (ok tt)) [] is_halted)
call_tool-perform_example = call_tool-perform no_breakpoint text_of step (ok tt) [] is_halted
