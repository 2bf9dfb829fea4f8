-- ===== src/Checks/Cli.antt =====
-- Tests of what the command line makes of its arguments, and instances of the theorems about it.
use teledap.Prelude.{
  false, String, string_eq, ◌==◌, if◌then◌else◌, List, ℕ, err, ◌≡◌, refl, arith, none, some, [],
  ◌∷◌, ok, ◌+◌,
}
use teledap.Paths
use teledap.State.{can_transition_to, running}
use teledap.Codec.Text.{trim, trim_start, trim_end}
use teledap.Codec.Decimal.{parse, digits, print, print_on}
use teledap.Cli.{Args, split_commas, numbers, bp_lines, parent, source_path_of, main_c}
use teledap.Cli.Lines.{written, bp_lines-written}
use teledap.Cli.Loop.{Turn, event_loop}
use teledap.Cli.Continues.{continues, event_loop-continues}
use teledap.Dap.Json.{Json, null}
use teledap.Session.Calls.{timeout}
use teledap.Cli.Run.{Replies, run, waiting, launch_debuggee, wait_initialized}
use teledap.Session.Operations.{launch, start, initialize, await_adapter, await}
use teledap.Session.Events.{handle_events}
use teledap.Session.{gate, transition_to, new}
use teledap.Gating.{is_allowed, allowed_states, gating_table}
use teledap.Dict.{get}
use teledap.Checks.Session.{event, no_breakpoint, hit, is_running, running_now}

-- "9, x,13"
some_lines : bp_lines (57 ∷ 44 ∷ 32 ∷ 120 ∷ 44 ∷ 49 ∷ 51 ∷ []) ≡ 9 ∷ 13 ∷ []
unfolding bp_lines split_commas numbers trim trim_start trim_end parse digits
some_lines = refl

two_written : 57 ∷ 44 ∷ 49 ∷ 51 ∷ [] ≡ written (9 ∷ 13 ∷ [])
unfolding print print_on
two_written = refl

bp_lines-written_example : bp_lines (written (9 ∷ 13 ∷ [])) ≡ 9 ∷ 13 ∷ []
bp_lines-written_example = bp_lines-written 9 (13 ∷ []) (omega arith, (omega arith, tt))

default_lines : bp_lines [] ≡ 9 ∷ 13 ∷ 4 ∷ []
unfolding bp_lines
default_lines = refl

-- "/b/a" has its source at "/b/main.c", and "a" in the current directory.
beside_program :
    source_path_of (some (47 ∷ 99 ∷ [])) [] (47 ∷ 98 ∷ 47 ∷ 97 ∷ []) ≡ 47 ∷ 98 ∷ 47 ∷ main_c
unfolding source_path_of parent Paths.split Paths.trim_right Paths.whole Paths.join
    Paths.is_absolute
beside_program = refl

in_current_directory : source_path_of (some (47 ∷ 99 ∷ [])) [] (97 ∷ []) ≡ 47 ∷ 99 ∷ 47 ∷ main_c
unfolding source_path_of parent Paths.split Paths.trim_right Paths.whole Paths.join
    Paths.is_absolute
in_current_directory = refl

abbrev stop : Turn
stop = record {
  event = hit;
  answers = record {
    R = Unit {0};
    threads = ok ((record { id = 7; name = "main" }) ∷ []);
    frames = ok ((record { id = 10; name = "main"; source = none; line = 3; column = 1 }) ∷ []);
    scopes = ok (
        (record {
          name = "Local";
          variables_reference = 20;
          named_variables = none;
          indexed_variables = none;
        })
        ∷ []);
    variables = λ _. ok [];
    continued = ok tt;
  };
}

event_loop-continues_example :
    ((event_loop no_breakpoint false (stop ∷ stop ∷ []) is_running).0.state ≡ running)
    × (continues (event_loop no_breakpoint false (stop ∷ stop ∷ []) is_running).0.calls
        ≡ continues is_running.calls + 2)
    × ((event_loop no_breakpoint false (stop ∷ stop ∷ []) is_running).1 ≡ false)
event_loop-continues_example =
    event_loop-continues no_breakpoint false (stop ∷ stop ∷ []) is_running running_now
      ((refl, refl, refl, refl), ((refl, refl, refl, refl), tt))

abbrev on_board : Args
on_board = record {
  adapter_path = "codelldb";
  codelldb_path = "";
  adapter_kind = "gdb";
  adapter_args = [];
  liblldb_path = none;
  elf_path = "app";
  gdb_remote = some "localhost:3333";
  source_path = "";
  breakpoints = "";
}

-- The launch fails, and the breakpoints are refused.
abbrev half_hearted : Replies Json
half_hearted = record {
  started = ok tt;
  initialized = ok null;
  launched = err (timeout "launch");
  breakpoints = err (timeout "setBreakpoints");
  configured = ok tt;
}

abbrev named : String → Turn
named name = record { event = event name null; answers = stop.answers }

-- "app"
abbrev letters : String → List ℕ
letters s = if s == "app" then 97 ∷ 112 ∷ 112 ∷ [] else []

abbrev some_text : List ℕ → String
some_text s = "main.c"

abbrev some_turns : List Turn
some_turns = named "output" ∷ named "initialized" ∷ stop ∷ named "exited" ∷ []

-- The client never closes the channel, so `run` waits if the adapter does not report.
still_waiting :
    (run letters letters some_text none no_breakpoint on_board half_hearted false [] []).1 ≡ waiting
unfolding run launch_debuggee wait_initialized launch start initialize await_adapter await
    handle_events gate is_allowed allowed_states gating_table get transition_to can_transition_to
    new
still_waiting = refl
