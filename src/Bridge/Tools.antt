-- ===== src/Bridge/Tools.antt =====
-- crates/debug-bridge/src/tools.rs: the tools with their input schemas, and the operation that gates
-- each; and the schema builders of crates/mcp-protocol/src/types.rs. Titles and descriptions, which
-- are prose, are left out.
use teledap.Prelude.{String, string_eq, Option, none, some, List, [], ◌∷◌, ◌++◌}
use teledap.Dict.{Dict, get, insert}

pub record PropertySchema : Type 0 where
  pub prop_type : String
  pub items : Option String
  pub enum_values : Option (List String)

abbrev pub plain : String → PropertySchema
plain t = record { prop_type = t; items = none; enum_values = none }

abbrev pub string : PropertySchema
string = plain "string"

abbrev pub integer : PropertySchema
integer = plain "integer"

abbrev pub bool : PropertySchema
bool = plain "boolean"

abbrev pub array_of : String → PropertySchema
array_of item_type = record { prop_type = "array"; items = some item_type; enum_values = none }

abbrev pub object_of : String → PropertySchema
object_of item_type = record { prop_type = "object"; items = some item_type; enum_values = none }

abbrev pub with_enum : PropertySchema → List String → PropertySchema
with_enum p values = record p { enum_values = some values }

-- `Option` fields that are absent when nothing was added are empty here.
pub record JsonSchema : Type 0 where
  pub properties : Dict String PropertySchema
  pub required : List String

abbrev pub empty : JsonSchema
empty = record { properties = []; required = [] }

unfoldable pub with_required : JsonSchema → String → PropertySchema → JsonSchema
with_required s name prop = record {
  properties = insert s.properties name prop;
  required = s.required ++ name ∷ [];
}

unfoldable pub with_optional : JsonSchema → String → PropertySchema → JsonSchema
with_optional s name prop = record s { properties = insert s.properties name prop }

pub record Tool : Type 0 where
  pub name : String
  pub input_schema : JsonSchema

abbrev pub tool : String → JsonSchema → Tool
tool name input_schema = record { name = name; input_schema = input_schema }

unfoldable pub all_tools : List Tool
all_tools =
    tool "start" (
      with_optional (with_optional (with_required empty "adapterPath" string) "adapterKind" string)
        "adapterArgs" (array_of "string"))
    ∷ tool "initialize" (with_optional empty "adapterId" string)
    ∷ tool "launch" (
        with_optional
          (with_optional
            (with_optional
              (with_optional (with_required empty "program" string) "args" (array_of "string"))
              "env" (object_of "string"))
            "stopOnEntry" bool)
          "gdbRemote" string)
    ∷ tool "attach" (with_optional (with_optional empty "pid" integer) "extra" (object_of "string"))
    ∷ tool "configuration_done" empty
    ∷ tool "shutdown" empty
    ∷ tool "continue" (with_optional (with_required empty "threadId" integer) "singleThread" bool)
    ∷ tool "step_over" (with_optional (with_required empty "threadId" integer) "singleThread" bool)
    ∷ tool "step_in" (
        with_optional (with_optional (with_required empty "threadId" integer) "singleThread" bool)
          "targetId" integer)
    ∷ tool "step_out" (with_optional (with_required empty "threadId" integer) "singleThread" bool)
    ∷ tool "pause" (with_required empty "threadId" integer)
    ∷ tool "set_breakpoints"
        (with_required (with_required empty "sourcePath" string) "breakpoints" (array_of "object"))
    ∷ tool "set_function_breakpoints" (
        with_optional
          (with_optional (with_required empty "names" (array_of "string")) "condition" string)
          "hitCondition" string)
    ∷ tool "list_breakpoints" empty
    ∷ tool "get_threads" empty
    ∷ tool "get_stack_trace" (
        with_optional (with_optional (with_required empty "threadId" integer) "levels" integer)
          "startFrame" integer)
    ∷ tool "get_scopes" (with_required empty "frameId" integer)
    ∷ tool "get_variables" (
        with_optional
          (with_optional
            (with_optional (with_required empty "variablesReference" integer) "filter" string)
            "start" integer)
          "count" integer)
    ∷ tool "evaluate" (
        with_optional (with_optional (with_required empty "expression" string) "frameId" integer)
          "context" string)
    ∷ tool "set_variable" (
        with_required
          (with_required (with_required empty "variablesReference" integer) "name" string) "value"
          string)
    ∷ tool "assemble_context" (
        with_optional (with_optional (with_optional empty "threadId" integer) "maxFrames" integer)
          "maxDepth" integer)
    ∷ tool "search_variables" (with_optional (with_required empty "query" string) "limit" integer)
    ∷ tool "get_state" (with_optional empty "detail" (with_enum string ("simple" ∷ "full" ∷ [])))
    ∷ tool "register_path_alias"
        (with_required (with_required empty "alias" string) "absolutePath" string)
    ∷ tool "register_base_dir" (with_required empty "dir" string)
    ∷ tool "openocd_start" (
        with_optional
          (with_optional
            (with_required (with_required empty "openocdPath" string) "configFiles"
              (array_of "string"))
            "extraArgs" (array_of "string"))
          "logDir" string)
    ∷ tool "openocd_stop" empty
    ∷ tool "openocd_status" empty
    ∷ tool "openocd_output"
        (with_optional (with_optional empty "lines" integer) "includeStderr" bool)
    ∷ tool "openocd_send" (with_optional (with_required empty "command" string) "timeoutMs" integer)
    ∷ []

-- The arms that give an operation; every other name has none.
unfoldable pub operation_table : Dict String String
operation_table =
    ("start", "start")
    ∷ ("initialize", "initialize")
    ∷ ("launch", "launch")
    ∷ ("attach", "attach")
    ∷ ("configuration_done", "configuration_done")
    ∷ ("shutdown", "shutdown")
    ∷ ("continue", "continue")
    ∷ ("step_over", "step_over")
    ∷ ("step_in", "step_in")
    ∷ ("step_out", "step_out")
    ∷ ("pause", "pause")
    ∷ ("set_breakpoints", "set_breakpoints")
    ∷ ("set_function_breakpoints", "set_function_breakpoints")
    ∷ ("list_breakpoints", "list_breakpoints")
    ∷ ("get_threads", "get_threads")
    ∷ ("get_stack_trace", "get_stack_trace")
    ∷ ("get_scopes", "get_scopes")
    ∷ ("get_variables", "get_variables")
    ∷ ("evaluate", "evaluate")
    ∷ ("set_variable", "set_variable")
    ∷ ("assemble_context", "assemble_context")
    ∷ []

unfoldable pub tool_operation : String → Option String
tool_operation name = get operation_table name
