-- ===== src/Bridge/OpenOcdTools.antt =====
-- crates/debug-bridge/src/handlers/openocd.rs: the tools that start and stop OpenOCD and send it
-- commands. `chars` and `text` turn strings into lists of characters and back, `describe` is the text
-- of an error; tool calls that overlap are not modelled.
pub mod Commands
use Prim.Native.String.{◌++◌ as ◌+++◌}
use teledap.Prelude.{
  ℕ, String, string_eq, Bool, true, false, Option, none, some, List, [], ◌∷◌, Result, ok, err, ◌==◌,
  if◌then◌else◌,
}
use teledap.Dap.Json.{
  Json, Items, Fields, get, str, arr, obj, nil, cons, end, field, as_str, as_u64, as_bool, and_then,
  optional_field, required_field,
}
use teledap.OpenOcd as OpenOcd
use teledap.OpenOcd.{Line, OpenOcdClient, OpenOcdClientError, Spawn, WriteResult}
use teledap.Session.Events.{or_value}
use teledap.Bridge.{BridgeError}
use BridgeError.{invalid_params, internal}
use teledap.Bridge.Execution.{CallToolResult, success, to_json_error}
use teledap.Bridge.BreakpointTools.{items_of, as_list}

-- The shared client, if OpenOCD was started.
abbrev pub OcdHandler : Type 0
OcdHandler = Option OpenOcdClient → Option OpenOcdClient × Result BridgeError CallToolResult

pub record OpenocdStartParams : Type 0 where
  pub openocd_path : String
  pub config_files : List String
  pub extra_args : Option (List String)
  pub log_dir : Option String

unfoldable pub start_params : Json → Option OpenocdStartParams
unfolding items_of
start_params params = and_then (required_field as_str params "openocdPath") λ p.
    and_then (required_field (as_list as_str) params "configFiles") λ c.
      and_then (optional_field (as_list as_str) params "extraArgs") λ e.
        and_then (optional_field as_str params "logDir")
          λ l. some (record { openocd_path = p; config_files = c; extra_args = e; log_dir = l })

-- A field that stands for itself, with a default for its absence only.
abbrev pub defaulted : {A : Type 0} → (Json → Option A) → A → Option Json → Option A
defaulted f d none = some d
defaulted f d (some v) = f v

pub record OpenocdOutputParams : Type 0 where
  pub lines : ℕ
  pub include_stderr : Bool

unfoldable pub output_params : Json → Option OpenocdOutputParams
output_params params = and_then (defaulted as_u64 100 (get params "lines")) λ l.
    and_then (defaulted as_bool false (get params "includeStderr"))
      λ b. some (record { lines = l; include_stderr = b })

pub record OpenocdSendParams : Type 0 where
  pub command : String
  pub timeout_ms : ℕ

unfoldable pub send_params : Json → Option OpenocdSendParams
send_params params = and_then (required_field as_str params "command") λ c.
    and_then (defaulted as_u64 5000 (get params "timeoutMs"))
      λ t. some (record { command = c; timeout_ms = t })

-- `config_files.join(", ")`
unfoldable pub joined : List String → String
joined [] = ""
joined (s ∷ []) = s
joined (s ∷ l) = s +++ ", " +++ joined l

abbrev pub log_info : Option String → String
log_info none = ""
log_info (some d) = " Output logged to " +++ d

abbrev pub lines_json : (Line → String) → List Line → Items
lines_json text [] = nil
lines_json text (l ∷ ls) = cons (str (text l)) (lines_json text ls)

unfoldable pub send_json : (List ℕ → String) → String → List ℕ → Json
send_json text command response =
    obj (field "command" (str command) (field "response" (str (text response)) end))

module _ (chars : String → List ℕ) (text : List ℕ → String) (describe : OpenOcdClientError → String)
    (explain : Json → String) (pretty : Json → Result String String) where
  abbrev pub installed :
      OpenocdStartParams
      → OpenOcdClient × Result OpenOcdClientError (Unit {0})
      → Option OpenOcdClient × Result BridgeError CallToolResult
  installed p (c, err e) = (none, err (internal ("Failed to start OpenOCD: " +++ describe e)))
  installed p (c, ok a) = (
    some c,
    ok (
        success (
          "OpenOCD started with config(s): "
          +++ joined p.config_files
          +++ "."
          +++ log_info p.log_dir)),
  )

  abbrev pub starting : Bool → ℕ → Spawn → String → Option OpenocdStartParams → OcdHandler
  starting log_opened now spawn message none ocd =
      (ocd, err (invalid_params "openocd_start" message))
  starting log_opened now spawn message (some p) (some c) =
      (some c, err (internal "OpenOCD is already running. Call openocd_stop first to restart."))
  starting log_opened now spawn message (some p) none =
      installed p (OpenOcd.start p.openocd_path p.log_dir log_opened now spawn OpenOcd.new)

  unfoldable pub handle_openocd_start : Bool → ℕ → Spawn → Json → OcdHandler
  handle_openocd_start log_opened now spawn params =
      starting log_opened now spawn (explain params) (start_params params)

  abbrev pub stopped :
      OpenOcdClient × Result OpenOcdClientError (Unit {0})
      → Option OpenOcdClient × Result BridgeError CallToolResult
  stopped (c, err e) = (none, err (internal ("Failed to stop OpenOCD: " +++ describe e)))
  stopped (c, ok a) = (none, ok (success "OpenOCD stopped."))

  -- The client is taken out first.
  unfoldable pub handle_openocd_stop :
      WriteResult → List Line → List (List Line) → Json → OcdHandler
  handle_openocd_stop w early wakes params none = (none, err (internal "OpenOCD is not running."))
  handle_openocd_stop w early wakes params (some c) = stopped (OpenOcd.shutdown w early wakes c)

  -- `require_openocd`; `busy` says whether the lock is held by a writer.
  unfoldable pub require_openocd : Bool → Option OpenOcdClient → Result BridgeError OpenOcdClient
  require_openocd true ocd = err (internal "OpenOCD is busy, try again later.")
  require_openocd false none = err (internal "OpenOCD is not running. Call openocd_start first.")
  require_openocd false (some c) = ok c

  abbrev pub stderr_part :
      List Line → Result OpenOcdClientError (List Line) → Result BridgeError CallToolResult
  stderr_part out (err e) = err (internal ("Failed to read errors: " +++ describe e))
  stderr_part out (ok errors) = to_json_error (
      pretty (
        obj (
          field "stdout_lines" (arr (lines_json text out))
            (field "stderr_lines" (arr (lines_json text errors)) end))))

  abbrev pub output_part :
      OpenocdOutputParams
      → Result String (List Line)
      → OpenOcdClient
      → Result OpenOcdClientError (List Line)
      → Result BridgeError CallToolResult
  output_part p errors c (err e) = err (internal ("Failed to read output: " +++ describe e))
  output_part p errors c (ok out) =
      if p.include_stderr
      then stderr_part out (OpenOcd.read_log errors p.lines c)
      else to_json_error (pretty (obj (field "stdout_lines" (arr (lines_json text out)) end)))

  abbrev pub with_openocd :
      Result BridgeError OpenOcdClient
      → (OpenOcdClient → Result BridgeError CallToolResult)
      → Result BridgeError CallToolResult
  with_openocd (err e) f = err e
  with_openocd (ok c) f = f c

  abbrev pub reading :
      Bool
      → Result String (List Line)
      → Result String (List Line)
      → String
      → Option OpenocdOutputParams
      → OcdHandler
  reading busy out errors message none ocd = (ocd, err (invalid_params "openocd_output" message))
  reading busy out errors message (some p) ocd = (
    ocd,
    with_openocd (require_openocd busy ocd)
        (λ c. output_part p errors c (OpenOcd.read_log out p.lines c)),
  )

  -- `out` and `errors` are the contents of the log files.
  unfoldable pub handle_openocd_output :
      Bool → Result String (List Line) → Result String (List Line) → Json → OcdHandler
  unfolding require_openocd
  handle_openocd_output busy out errors params =
      reading busy out errors (explain params) (output_params params)

  abbrev pub replied :
      OpenocdSendParams
      → OpenOcdClient × Result OpenOcdClientError (List ℕ)
      → Option OpenOcdClient × Result BridgeError CallToolResult
  replied p (c, err e) = (some c, err (internal ("Command failed: " +++ describe e)))
  replied p (c, ok response) = (some c, to_json_error (pretty (send_json text p.command response)))

  abbrev pub commanded :
      WriteResult
      → List Line
      → List (List Line)
      → OpenocdSendParams
      → Option OpenOcdClient
      → Result BridgeError OpenOcdClient
      → Option OpenOcdClient × Result BridgeError CallToolResult
  commanded w early wakes p ocd (err e) = (ocd, err e)
  commanded w early wakes p ocd (ok c) =
      replied p (OpenOcd.send_command (chars p.command) p.timeout_ms w early wakes c)

  abbrev pub sending :
      Bool
      → WriteResult
      → List Line
      → List (List Line)
      → String
      → Option OpenocdSendParams
      → OcdHandler
  sending busy w early wakes message none ocd = (ocd, err (invalid_params "openocd_send" message))
  sending busy w early wakes message (some p) ocd =
      commanded w early wakes p ocd (require_openocd busy ocd)

  unfoldable pub handle_openocd_send :
      Bool → WriteResult → List Line → List (List Line) → Json → OcdHandler
  unfolding require_openocd send_json
  handle_openocd_send busy w early wakes params =
      sending busy w early wakes (explain params) (send_params params)
