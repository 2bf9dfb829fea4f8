-- ===== src/Bridge/Execution.antt =====
-- crates/debug-bridge/src/handlers/execution.rs: the tools that let the debuggee run. `explain` is the
-- text of a deserialization error and `pretty` is `serde_json::to_string_pretty`; a field that is given
-- twice and arguments in an array are not modelled.
use teledap.Prelude.{
  ℕ, String, string_eq, Bool, false, ◌≡◌, refl, Option, none, some, List, Result, ok, err,
}
use teledap.Dap.Json.{
  Json, Fields, get_field, get, as_u64, as_bool, and_then, optional_field, required_field,
}
use Json.{boolean, num, obj}
use Fields.{end, field}
use teledap.Session.{DebugSession, DebugSessionError, Exec}
use teledap.Session.Events.{Event}
use teledap.Session.Operations as Operations
use teledap.Session.Operations.{Reply}
use teledap.Session.Commands.{Command, perform}
use teledap.Dap.Types.{Breakpoint}
use teledap.Bridge.{BridgeError, Handler}
use BridgeError.{session, invalid_params, json}

-- A result has one block, of type text.
pub record CallToolResult : Type 0 where
  pub text : String
  pub is_error : Bool

unfoldable pub success : String → CallToolResult
success text = record { text = text; is_error = false }

unfoldable pub to_json_error : Result String String → Result BridgeError CallToolResult
unfolding success
to_json_error (ok text) = ok (success text)
to_json_error (err e) = err (json e)

-- `ContinueParams` and `StepParams`, which have the same fields.
pub record StepParams : Type 0 where
  pub thread_id : ℕ
  pub single_thread : Option Bool

pub record StepInParams : Type 0 where
  pub thread_id : ℕ
  pub single_thread : Option Bool
  pub target_id : Option ℕ

unfoldable pub step_params : Json → Option StepParams
step_params params = and_then (required_field as_u64 params "threadId") (λ t.
    and_then (optional_field as_bool params "singleThread")
      (λ b. some (record { thread_id = t; single_thread = b })))

unfoldable pub step_in_params : Json → Option StepInParams
step_in_params params = and_then (required_field as_u64 params "threadId") (λ t.
    and_then (optional_field as_bool params "singleThread") (λ b.
      and_then (optional_field as_u64 params "targetId")
        (λ i. some (record { thread_id = t; single_thread = b; target_id = i }))))

unfoldable pub pause_params : Json → Option ℕ
pause_params params = required_field as_u64 params "threadId"

abbrev pub reported :
    {S A : Type 0}
    → (A → Result BridgeError CallToolResult)
    → S × Result DebugSessionError A
    → S × Result BridgeError CallToolResult
reported f (s, ok a) = (s, f a)
reported f (s, err e) = (s, err (session e))

module _ {Caps : Type 0} where
  -- The frame of every handler: the arguments, the session's operation, the report.
  abbrev pub handle :
      {P A : Type 0}
      → String
      → String
      → Option P
      → (P → Exec Caps A)
      → (A → Result BridgeError CallToolResult)
      → Handler Caps CallToolResult
  handle tool message none op f s = (s, err (invalid_params tool message))
  handle tool message (some p) op f s = reported f (op p s)

module _ (breakpoint_of : Json → Option Breakpoint) (explain : Json → String) {Caps : Type 0} where
  unfoldable pub handle_continue :
      (Json → Result String String) → Json → Reply Json → List Event → Handler Caps CallToolResult
  handle_continue pretty params reply meanwhile =
      handle "continue" (explain params) (step_params params)
        (λ p.
          Operations.continue_execution breakpoint_of p.thread_id p.single_thread reply meanwhile)
        (λ r. to_json_error (pretty r))

  unfoldable pub handle_step_over :
      Json → Reply (Unit {0}) → List Event → Handler Caps CallToolResult
  handle_step_over params reply meanwhile =
      handle "step_over" (explain params) (step_params params)
        (λ p. Operations.step_over breakpoint_of p.thread_id p.single_thread reply meanwhile)
        (λ _. ok (success "Step over executed. Waiting for stopped event."))

  unfoldable pub handle_step_in : Json → Reply (Unit {0}) → List Event → Handler Caps CallToolResult
  handle_step_in params reply meanwhile =
      handle "step_in" (explain params) (step_in_params params)
        (λ p.
          Operations.step_in breakpoint_of p.thread_id p.single_thread p.target_id reply meanwhile)
        (λ _. ok (success "Step in executed. Waiting for stopped event."))

  unfoldable pub handle_step_out :
      Json → Reply (Unit {0}) → List Event → Handler Caps CallToolResult
  handle_step_out params reply meanwhile =
      handle "step_out" (explain params) (step_params params)
        (λ p. Operations.step_out breakpoint_of p.thread_id p.single_thread reply meanwhile)
        (λ _. ok (success "Step out executed. Waiting for stopped event."))

  unfoldable pub handle_pause : Json → Reply (Unit {0}) → List Event → Handler Caps CallToolResult
  handle_pause params reply meanwhile =
      handle "pause" (explain params) (pause_params params)
        (λ t. Operations.pause breakpoint_of t reply meanwhile)
        (λ _. ok (success "Pause command sent. Waiting for stopped event."))

-- A call of one of the tools that return no value, with its arguments.
pub data Stepping : Type 0 where
  over out : ℕ → Option Bool → Stepping
  into : ℕ → Option Bool → Option ℕ → Stepping
  pausing : ℕ → Stepping

abbrev single : Option Bool → Fields → Fields
single none fs = fs
single (some b) fs = field "singleThread" (boolean b) fs

abbrev target : Option ℕ → Fields → Fields
target none fs = fs
target (some n) fs = field "targetId" (num n) fs

-- The arguments as a client sends them.
unfoldable pub args_of : Stepping → Json
args_of (over t b) = obj (field "threadId" (num t) (single b end))
args_of (out t b) = obj (field "threadId" (num t) (single b end))
args_of (into t b i) = obj (field "threadId" (num t) (single b (target i end)))
args_of (pausing t) = obj (field "threadId" (num t) end)

-- What the tools answer when the operation has succeeded.
unfoldable pub report_of : Stepping → String
report_of (over t b) = "Step over executed. Waiting for stopped event."
report_of (out t b) = "Step out executed. Waiting for stopped event."
report_of (into t b i) = "Step in executed. Waiting for stopped event."
report_of (pausing t) = "Pause command sent. Waiting for stopped event."

unfoldable pub command_of : {Caps : Type 0} → Stepping → Reply (Unit {0}) → Command Caps
command_of (over t b) reply = Command.step_over t b reply
command_of (out t b) reply = Command.step_out t b reply
command_of (into t b i) reply = Command.step_in t b i reply
command_of (pausing t) reply = Command.pause t reply

module _ (breakpoint_of : Json → Option Breakpoint) (explain : Json → String) {Caps : Type 0} where
  unfoldable pub call_tool :
      Stepping → Json → Reply (Unit {0}) → List Event → Handler Caps CallToolResult
  call_tool (over t b) = handle_step_over breakpoint_of explain
  call_tool (out t b) = handle_step_out breakpoint_of explain
  call_tool (into t b i) = handle_step_in breakpoint_of explain
  call_tool (pausing t) = handle_pause breakpoint_of explain

  -- A step or pause tool that is called with the arguments of a command does to the session what the
  -- command does, whatever comes between, fails with the command's error, and else reports.
  pub call_tool-perform :
      (k : Stepping) (reply : Reply (Unit {0})) (meanwhile : List Event) (s : DebugSession Caps)
      → call_tool k (args_of k) reply meanwhile s
        ≡ reported
            (λ _. ok (success (report_of k)))
            (perform breakpoint_of (command_of k reply) meanwhile s)
  unfolding call_tool report_of handle_step_over handle_step_in handle_step_out handle_pause
      step_params step_in_params pause_params args_of command_of perform get get_field
  call_tool-perform (over t none) reply meanwhile s = refl
  call_tool-perform (over t (some b)) reply meanwhile s = refl
  call_tool-perform (out t none) reply meanwhile s = refl
  call_tool-perform (out t (some b)) reply meanwhile s = refl
  call_tool-perform (into t none none) reply meanwhile s = refl
  call_tool-perform (into t none (some i)) reply meanwhile s = refl
  call_tool-perform (into t (some b) none) reply meanwhile s = refl
  call_tool-perform (into t (some b) (some i)) reply meanwhile s = refl
  call_tool-perform (pausing t) reply meanwhile s = refl
