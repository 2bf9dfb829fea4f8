-- ===== src/Cli/Run.antt =====
-- `run` of src/cli.rs: a session from its start to its end. No other task handles events while an
-- operation waits, but for the end. Paths are turned
-- into bytes and back by `bytes` and `text`, other texts into characters by `chars`.
use teledap.Prelude.{
  ℕ, String, string_eq, nat_eq, list_eq, Bool, true, not, Option, none, some, List, [], ◌∷◌, Result,
  ok, err, ◌==◌, if◌then◌else◌,
}
use teledap.Dap.Json.{Json}
use teledap.Dap.Types.{SourceBreakpoint, Breakpoint}
use teledap.Paths.{Shape, rooted, dotted, plain, shape_of, split, trim_right}
use teledap.State.{state_eq}
use teledap.Gating.{is_allowed}
use teledap.Session.{DebugSession, DebugSessionError, new}
use teledap.Session.Calls.{SetBreakpointsArguments}
use teledap.Session.Events.{Event, handle_event, or_value}
use teledap.Session.Operations.{
  Reply, start, initialize, launch, set_breakpoints, configuration_done,
}
use teledap.Cli.{
  Args, adapter_kind_of, adapter_config, initialize_request, launch_arguments, bp_lines,
  source_path_of, last_of,
}
use teledap.Cli.Loop.{Turn, event_loop, cleanup}

-- What the adapter answers before the event loop.
pub record Replies (Caps : Type 0) : Type 0 where
  pub started : Reply (Unit {0})
  pub initialized : Reply Caps
  pub launched : Reply (Unit {0})
  pub breakpoints : Reply (List Breakpoint)
  pub configured : Reply (Unit {0})

-- Where `run` stands when all events have come: it has exited with 1, it waits for another event, or it
-- has come to its end.
pub data RunEnd : Type 0 where
  exited waiting finished : RunEnd

-- The same before the event loop, which goes on with the events that are left.
pub data Waited : Type 1 where
  exits waits : Waited
  goes_on : List Turn → Waited

-- `Path::file_name`: the last component, if it is a name.
abbrev pub name_of : Option (List ℕ) → Option (List ℕ)
name_of none = none
name_of (some seg) = if seg == 46 ∷ 46 ∷ [] then none else some seg

abbrev pub file_name_of : Shape → Option (List ℕ)
file_name_of (rooted segs) = name_of (last_of (trim_right segs))
file_name_of (dotted segs) = name_of (last_of (trim_right segs))
file_name_of (plain segs) = name_of (last_of (trim_right segs))

unfoldable pub file_name : List ℕ → Option (List ℕ)
unfolding split trim_right
file_name path = file_name_of (shape_of (split path))

-- `source_bps`
unfoldable pub source_bps : List ℕ → List SourceBreakpoint
source_bps [] = []
source_bps (line ∷ lines) =
    (record {
      line = line;
      column = none;
      condition = none;
      hit_condition = none;
      log_message = none;
      mode = none;
    })
    ∷ source_bps lines

module _ (text : List ℕ → String) where
  unfoldable pub breakpoints_request : List ℕ → List ℕ → SetBreakpointsArguments
  unfolding file_name source_bps
  breakpoints_request path lines = record {
    source = record {
      name = some (text (or_value (file_name path) path));
      path = some (text path);
    };
    breakpoints = some (source_bps lines);
    lines = none;
    source_modified = none;
  }

module _ (bytes chars : String → List ℕ) (text : List ℕ → String) (cwd : Option (List ℕ))
    (breakpoint_of : Json → Option Breakpoint) {Caps : Type 0} where
  -- Whether the source path or the lines are missing.
  abbrev pub place :
      List ℕ → List ℕ → Reply (List Breakpoint) → DebugSession Caps → DebugSession Caps
  place [] lines reply s = s
  place (c ∷ path) [] reply s = s
  place (c ∷ path) (line ∷ lines) reply s =
      (set_breakpoints breakpoint_of (breakpoints_request text (c ∷ path) (line ∷ lines)) reply []
        s).0

  unfoldable pub place_breakpoints :
      Args → Reply (List Breakpoint) → DebugSession Caps → DebugSession Caps
  unfolding source_path_of bp_lines
  place_breakpoints args reply s =
      place (source_path_of cwd (bytes args.source_path) (bytes args.elf_path))
        (bp_lines (chars args.breakpoints)) reply s

  -- The wait for the `initialized` event.
  unfoldable pub wait_initialized :
      Bool → List Turn → DebugSession Caps → DebugSession Caps × Waited
  wait_initialized closed [] s = (s, if closed then exits else waits)
  wait_initialized closed (t ∷ turns) s =
      let s' = (handle_event breakpoint_of t.event s).0 in
      let rest = wait_initialized closed turns s' in
      if t.event.event == "initialized" then (s', goes_on turns) else rest

  abbrev pub configured :
      Args → Replies Caps → DebugSession Caps × Waited → DebugSession Caps × Waited
  configured args replies (s, exits) = (s, exits)
  configured args replies (s, waits) = (s, waits)
  configured args replies (s, goes_on turns) =
      let s' = place_breakpoints args replies.breakpoints s in
      ((configuration_done breakpoint_of replies.configured [] s').0, goes_on turns)

  -- The launch and the configuration, if there is a program.
  unfoldable pub launch_debuggee :
      Args → Replies Caps → Bool → List Turn → DebugSession Caps → DebugSession Caps × Waited
  unfolding wait_initialized place_breakpoints
  launch_debuggee args replies closed turns s =
      if args.elf_path == ""
      then (s, goes_on turns)
      else if not (is_allowed "launch" s.state)
      then (s, exits)
      else configured args replies (
          wait_initialized closed turns
            (launch breakpoint_of (launch_arguments args (adapter_kind_of args)) replies.launched []
              s).0)

  -- The event loop and the end.
  abbrev pub looped : Bool → List Event → DebugSession Caps × Waited → DebugSession Caps × RunEnd
  looped closed meanwhile (s, exits) = (s, exited)
  looped closed meanwhile (s, waits) = (s, waiting)
  looped closed meanwhile (s, goes_on turns) =
      let (s', left) = event_loop breakpoint_of closed turns s in
      if left then (cleanup breakpoint_of meanwhile s', finished) else (s', waiting)

  abbrev pub after_initialize :
      Args
      → Replies Caps
      → Bool
      → List Turn
      → List Event
      → DebugSession Caps × Result DebugSessionError Caps
      → DebugSession Caps × RunEnd
  after_initialize args replies closed turns meanwhile (s, err e) = (s, exited)
  after_initialize args replies closed turns meanwhile (s, ok caps) =
      looped closed meanwhile (launch_debuggee args replies closed turns s)

  abbrev pub after_start :
      Args
      → Replies Caps
      → Bool
      → List Turn
      → List Event
      → DebugSession Caps × Result DebugSessionError (Unit {0})
      → DebugSession Caps × RunEnd
  after_start args replies closed turns meanwhile (s, err e) = (s, exited)
  after_start args replies closed turns meanwhile (s, ok a) =
      after_initialize args replies closed turns meanwhile (
        initialize breakpoint_of (initialize_request (adapter_kind_of args)) replies.initialized []
          s)

  unfoldable pub run :
      Args → Replies Caps → Bool → List Turn → List Event → DebugSession Caps × RunEnd
  unfolding launch_debuggee
  run args replies closed turns meanwhile =
      after_start args replies closed turns meanwhile
        (start breakpoint_of (adapter_config args) replies.started [] (new true))
