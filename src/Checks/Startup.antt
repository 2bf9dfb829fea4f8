-- ===== src/Checks/Startup.antt =====
-- Tests of the tools that start a session and OpenOCD, and instances of their theorems.
use teledap.Prelude.{
  ℕ, nat_eq, String, string_eq, ◌≡◌, refl, true, false, none, some, Option, List, [], ◌∷◌, arith,
  Result, ok,
}
use teledap.Dap.Json.{Json, get, get_field, null, str, arr, obj, nil, cons, end, field}
use teledap.State.{running}
use teledap.Session.{new}
use teledap.Session.Calls.{gdb, start_adapter, request, raw, no_arguments}
use teledap.Bridge.Execution.{success, to_json_error}
use teledap.Bridge.BreakpointTools.{items_of}
use teledap.Bridge.Lifecycle.{
  StartParams, start_params, initialize_params, LaunchParams, launch_params, config_of, kind_named,
  launch_extra, initialize_arguments, handle_start, handle_initialize, handle_launch,
  handle_configuration_done,
}
use teledap.Bridge.Lifecycle.Startup.{handle_configuration_done-running}
use teledap.OpenOcd.{OpenOcdClientError, spawned, whole, sub}
use teledap.OpenOcd.Responses.{response}
use teledap.Bridge.OpenOcdTools
use teledap.Bridge.OpenOcdTools.{
  OpenocdStartParams, OpenocdSendParams, send_params, handle_openocd_start, handle_openocd_send,
  send_json,
}
use teledap.Bridge.OpenOcdTools.Commands.{handle_openocd_send-response}
use teledap.Checks.Session.{no_breakpoint}
use teledap.Checks.Tools.{print, complain}

abbrev start_json : Json
start_json = obj (field "codelldbPath" (str "gdb") (field "adapterKind" (str "gdb") end))

abbrev start_with_gdb : StartParams
start_with_gdb = record { adapter_path = "gdb"; adapter_kind = some "gdb"; adapter_args = none }

-- The path is read under its old name too, but not under both.
read_start : start_params start_json ≡ some start_with_gdb
unfolding start_params items_of get get_field
read_start = refl

read_start_twice :
    start_params (obj (field "codelldbPath" (str "a") (field "adapterPath" (str "b") end))) ≡ none
unfolding start_params items_of get get_field
read_start_twice = refl

abbrev launch_json : Json
launch_json = obj (field "program" (str "a.out") (field "gdbRemote" (str "localhost:3333") end))

abbrev program : LaunchParams
program = record {
  program = "a.out";
  args = none;
  env = none;
  stop_on_entry = none;
  gdb_remote = some "localhost:3333";
}

read_launch : launch_params launch_json ≡ some program
unfolding launch_params items_of get get_field
read_launch = refl

read_initialize : initialize_params null ≡ some none
unfolding initialize_params get
read_initialize = refl

abbrev caps_text : Unit {0} → Result String String
caps_text c = ok "{}"

abbrev unmapped : String → Option String
unmapped path = none

handle_configuration_done-running_example :
    let s1 =
      (handle_start no_breakpoint complain start_json (ok tt) [] (new {Caps = Unit {0}} true)).0 in
    let s2 = (handle_initialize no_breakpoint complain caps_text null (ok tt) [] s1).0 in
    let s3 = (handle_launch no_breakpoint complain unmapped launch_json (ok tt) [] s2).0 in
    let (s4, r) = handle_configuration_done no_breakpoint complain null (ok tt) [] s3 in
    (r ≡ ok (success "Configuration done. State: Running"))
    × (s4.state ≡ running)
    × (s4.calls
        ≡ request "configurationDone" no_arguments
          ∷ request "launch" (raw (launch_extra unmapped (some gdb) program))
          ∷ request "initialize" (raw (initialize_arguments "gdb"))
          ∷ start_adapter (config_of start_with_gdb)
          ∷ [])
unfolding kind_named
handle_configuration_done-running_example =
    handle_configuration_done-running no_breakpoint complain tt caps_text unmapped true start_json
      null launch_json null start_with_gdb none program read_start read_initialize read_launch

abbrev ocd_json : Json
ocd_json = obj (
    field "openocdPath" (str "openocd")
      (field "configFiles" (arr (cons (str "board.cfg") nil)) end))

abbrev ocd_params : OpenocdStartParams
ocd_params = record {
  openocd_path = "openocd";
  config_files = "board.cfg" ∷ [];
  extra_args = none;
  log_dir = none;
}

read_ocd : OpenOcdTools.start_params ocd_json ≡ some ocd_params
unfolding OpenOcdTools.start_params items_of get get_field
read_ocd = refl

abbrev halt_json : Json
halt_json = obj (field "command" (str "halt") end)

abbrev halt_params : OpenocdSendParams
halt_params = record { command = "halt"; timeout_ms = 5000 }

read_halt : send_params halt_json ≡ some halt_params
unfolding send_params get get_field
read_halt = refl

abbrev chars : String → List ℕ
chars s = []

abbrev text : List ℕ → String
text l = "halted"

abbrev failure : OpenOcdClientError → String
failure e = "error"

-- "A" and then the terminator.
handle_openocd_send-response_example :
    let ocd =
      (handle_openocd_start chars text failure complain print false 0 spawned ocd_json none).0 in
    (handle_openocd_send chars text failure complain print false whole []
      (((65 ∷ []) ∷ (sub ∷ []) ∷ []) ∷ [])
      halt_json
      ocd).1
    ≡ to_json_error (print (send_json text "halt" (response ((65 ∷ []) ∷ []) (sub ∷ []))))
handle_openocd_send-response_example =
    handle_openocd_send-response chars text failure complain print false 0 ocd_json halt_json
      ocd_params halt_params [] ((65 ∷ []) ∷ []) [] (sub ∷ []) [] read_ocd read_halt tt
      (omega arith) (refl, tt) refl
