-- ===== src/OpenOcd.antt =====
-- crates/openocd-client/src/client.rs: the OpenOCD process, the buffer of its output lines, and the
-- collection of a command's response. A line is its characters as numbers. What the operating system
-- returns, and what arrives while a command waits, are arguments.
pub mod Buffer
pub mod Responses
pub mod Terminator
use Prim.Native.String.{◌++◌ as ◌+++◌}
use teledap.Prelude.{
  ℕ, zero, suc, ◌-◌, String, Bool, true, false, not, Option, none, some, List, [], ◌∷◌, ◌++◌, arith,
  Result, ok, err, PartialEq, ◌==◌, nat_eq, ltb, if◌then◌else◌, length, take, drop, retain,
  contains,
}

abbrev pub Line : Type 0
Line = List ℕ

-- error.rs
pub data OpenOcdClientError : Type 0 where
  spawn_failed not_connected io process_exited : String → OpenOcdClientError
  already_running : OpenOcdClientError
  timeout : Line → ℕ → OpenOcdClientError

-- `stdin` is the characters that were written to the process, `stdout_log` the lines in the log file
-- of its output, if that is open.
pub record OpenOcdClient : Type 0 where
  pub child : Bool
  pub stdin : Option (List ℕ)
  pub log_dir : Option String
  pub started_at : Option ℕ
  pub stdout_lines : List Line
  pub running : Bool
  pub stdout_log : Option (List Line)

unfoldable pub new : OpenOcdClient
new = record {
  child = false;
  stdin = none;
  log_dir = none;
  started_at = none;
  stdout_lines = [];
  running = false;
  stdout_log = none;
}

abbrev pub max_stdout_buffer_lines : ℕ
max_stdout_buffer_lines = 1000

-- The arguments of the command line.
unfoldable pub command_args : List String → List String → List String
command_args [] extra_args = extra_args
command_args (cfg ∷ cfgs) extra_args = "-f" ∷ cfg ∷ command_args cfgs extra_args

-- `spawn` and the three pipes.
pub data Spawn : Type 0 where
  not_spawned : String → Spawn
  no_stdout no_stderr no_stdin spawned : Spawn

-- `log_opened` says whether the log file could be opened, which is then empty.
abbrev pub opened_log : Bool → Option String → Option (List Line)
opened_log log_opened none = none
opened_log log_opened (some dir) = if log_opened then some [] else none

unfoldable pub launch :
    String
    → Option String
    → Bool
    → ℕ
    → Spawn
    → OpenOcdClient
    → OpenOcdClient × Result OpenOcdClientError (Unit {0})
launch path log_dir log_opened now (not_spawned e) c =
    (c, err (spawn_failed ("Failed to spawn '" +++ path +++ "': " +++ e)))
launch path log_dir log_opened now no_stdout c =
    (c, err (spawn_failed "OpenOCD stdout is not available"))
launch path log_dir log_opened now no_stderr c =
    (c, err (spawn_failed "OpenOCD stderr is not available"))
launch path log_dir log_opened now no_stdin c =
    (c, err (spawn_failed "OpenOCD stdin is not available"))
launch path log_dir log_opened now spawned c = (
  record c {
    log_dir = log_dir;
    stdout_log = opened_log log_opened log_dir;
    running = true;
    stdin = some [];
    child = true;
    started_at = some now;
  },
  ok tt,
)

unfoldable pub start :
    String
    → Option String
    → Bool
    → ℕ
    → Spawn
    → OpenOcdClient
    → OpenOcdClient × Result OpenOcdClientError (Unit {0})
unfolding launch
start path log_dir log_opened now spawn c =
    if c.running then (c, err already_running) else launch path log_dir log_opened now spawn c

-- The loop that pops lines while the buffer is too long.
unfoldable pub trim : List Line → List Line
trim [] = []
trim (l ∷ ls) =
    let rest = trim ls in if ltb max_stdout_buffer_lines (length (l ∷ ls)) then rest else l ∷ ls

abbrev pub log_line : Bool → Line → Option (List Line) → Option (List Line)
log_line written l none = none
log_line written l (some log) = if written then some (log ++ l ∷ []) else some log

-- One turn of the loop of the output reader: the log, then the buffer. `written` says whether the
-- writing to the log succeeded.
unfoldable pub read_line : Bool → Line → OpenOcdClient → OpenOcdClient
read_line written l c = record c {
  stdout_log = log_line written l c.stdout_log;
  stdout_lines = trim (c.stdout_lines ++ l ∷ []);
}

-- The reader's end, which marks the client as not running.
unfoldable pub reader_exits : OpenOcdClient → OpenOcdClient
reader_exits c = record c { running = false }

unfoldable pub read_lines : List Line → OpenOcdClient → OpenOcdClient
unfolding read_line
read_lines [] c = c
read_lines (l ∷ ls) c = read_lines ls (read_line true l c)

-- The terminator of a response, `\x1a`.
abbrev pub sub : ℕ
sub = 26

abbrev pub push_clean : List Line → Line → List Line
push_clean acc [] = acc
push_clean acc (x ∷ l) = acc ++ (x ∷ l) ∷ []

-- The loop that pops lines: what is left of the buffer, the lines of the response so far, and whether
-- the terminator was found.
unfoldable pub collect : List Line → List Line → List Line × List Line × Bool
collect acc [] = ([], acc, false)
collect acc (l ∷ ls) =
    let rest = collect (acc ++ l ∷ []) ls in
    if contains sub l then (ls, push_clean acc (retain (λ x. not (x == sub)) l), true) else rest

-- `join("\n")`
unfoldable pub join : List Line → List ℕ
join [] = []
join (l ∷ []) = l
join (l ∷ ls) = l ++ 10 ∷ join ls

-- How the writing of a command ends: all of it is written, or its first bytes and then an error.
pub data WriteResult : Type 0 where
  whole : WriteResult
  broken : ℕ → String → WriteResult

-- The end by timeout.
abbrev pub partial : Line → ℕ → List ℕ → Result OpenOcdClientError (List ℕ)
partial command timeout_ms [] = err (timeout command timeout_ms)
partial command timeout_ms (x ∷ response) = ok (x ∷ response)

module _ (command : Line) (timeout_ms : ℕ) where
  abbrev pub proceed :
      (List Line → OpenOcdClient → OpenOcdClient × Result OpenOcdClientError (List ℕ))
      → OpenOcdClient
      → List Line × List Line × Bool
      → OpenOcdClient × Result OpenOcdClientError (List ℕ)
  proceed rest c (left, acc, true) = (record c { stdout_lines = left }, ok (join acc))
  proceed rest c (left, acc, false) = rest acc (record c { stdout_lines = left })

  -- The waiting loop. Each list of `wakes` is the lines that arrive up to one wake-up, and the timeout
  -- comes behind the last.
  unfoldable pub wait :
      List (List Line)
      → List Line
      → OpenOcdClient
      → OpenOcdClient × Result OpenOcdClientError (List ℕ)
  unfolding collect
  wait [] acc c = (c, partial command timeout_ms (join acc))
  wait (lines ∷ wakes) acc c =
      let d = read_lines lines c in proceed (wait wakes) d (collect acc d.stdout_lines)

  -- A line that arrives before the command waits gives no wake-up: `early` are those lines.
  abbrev pub written :
      List Line
      → List (List Line)
      → List ℕ
      → WriteResult
      → OpenOcdClient
      → OpenOcdClient × Result OpenOcdClientError (List ℕ)
  written early wakes bytes whole c =
      wait wakes [] (read_lines early (record c { stdin = some (bytes ++ command ++ 10 ∷ []) }))
  written early wakes bytes (broken n e) c =
      (record c { stdin = some (bytes ++ take n (command ++ 10 ∷ [])) }, err (io e))

  abbrev pub connected :
      WriteResult
      → List Line
      → List (List Line)
      → OpenOcdClient
      → Option (List ℕ)
      → OpenOcdClient × Result OpenOcdClientError (List ℕ)
  connected w early wakes c none = (c, err (not_connected "OpenOCD is not running"))
  connected w early wakes c (some bytes) = written early wakes bytes w c

  -- The lock lets one command run at a time.
  unfoldable pub send_command :
      WriteResult
      → List Line
      → List (List Line)
      → OpenOcdClient
      → OpenOcdClient × Result OpenOcdClientError (List ℕ)
  unfolding wait read_lines
  send_command w early wakes c = connected w early wakes c c.stdin

-- The lines of a log file, or the error of reading it.
unfoldable pub read_tail_lines :
    Result String (List Line) → ℕ → Result OpenOcdClientError (List Line)
read_tail_lines (err e) zero = ok []
read_tail_lines (err e) (suc n) = err (io e)
read_tail_lines (ok lines) zero = ok []
read_tail_lines (ok lines) (suc n) = ok (drop (length lines - suc n) lines)

abbrev pub from_log :
    Result String (List Line) → ℕ → Option String → Result OpenOcdClientError (List Line)
from_log content count none = err (
    not_connected
      "No log directory configured. Call openocd_start with log_dir to enable output capture.")
from_log content count (some dir) = read_tail_lines content count

-- `read_output` and `read_errors`, with the content of their files.
unfoldable pub read_log :
    Result String (List Line) → ℕ → OpenOcdClient → Result OpenOcdClientError (List Line)
unfolding read_tail_lines
read_log content count c = from_log content count c.log_dir

-- "shutdown"
abbrev pub shutdown_command : Line
shutdown_command = 115 ∷ 104 ∷ 117 ∷ 116 ∷ 100 ∷ 111 ∷ 119 ∷ 110 ∷ []

abbrev pub killed : OpenOcdClient → OpenOcdClient
killed c = record c { child = false; stdin = none; running = false }

unfoldable pub shutdown :
    WriteResult
    → List Line
    → List (List Line)
    → OpenOcdClient
    → OpenOcdClient × Result OpenOcdClientError (Unit {0})
unfolding send_command
shutdown w early wakes c =
    let asked = (send_command shutdown_command 2000 w early wakes c).0 in
    (killed (if c.running then asked else c), ok tt)
