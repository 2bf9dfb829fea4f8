-- ===== src/Cli/Ends.antt =====
-- How `run` of src/cli.rs ends.
use teledap.Prelude.{
  ◌≡◌, String, string_eq, Bool, true, false, ◌||◌, List, [], ◌∷◌, ◌==◌, if◌then◌else◌,
}
use teledap.Dap.Json.{Json}
use teledap.State.{state_eq, disconnected}
use teledap.Session.{DebugSession}
use teledap.Cli.{Args}
use teledap.Cli.Loop.{Turn}
use teledap.Cli.Run.{RunEnd, finished, Waited, exits, waits, goes_on}

-- Whether the debuggee ends.
abbrev pub is_end : String → Bool
is_end name = name == "terminated" || name == "exited"

abbrev pub has_end : List Turn → Bool
has_end [] = false
has_end (t ∷ turns) = is_end t.event.event || has_end turns

-- Whether it ends after the adapter has reported that it is initialized.
abbrev pub ends_behind : List Turn → Bool
ends_behind [] = false
ends_behind (t ∷ turns) =
    if t.event.event == "initialized" then has_end turns else ends_behind turns

abbrev pub ends_by : Args → List Turn → Bool
ends_by args turns = if args.elf_path == "" then has_end turns else ends_behind turns

abbrev ready : Waited → Bool
ready exits = false
ready waits = false
ready (goes_on turns) = has_end turns

abbrev Ends : {Caps : Type 0} → Bool → DebugSession Caps × RunEnd → Type 0
Ends true (s, e) = (e ≡ finished) × (s.state ≡ disconnected)
Ends false (s, e) = Unit {0}
