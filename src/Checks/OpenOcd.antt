-- ===== src/Checks/OpenOcd.antt =====
-- Tests of the OpenOCD client and instances of its theorems.
use teledap.Prelude.{nat_eq, ◌≡◌, refl, true, false, none, some, [], ◌∷◌, arith, ok, err, contains}
use teledap.OpenOcd
use teledap.OpenOcd.{
  Line, OpenOcdClient, spawned, whole, timeout, max_stdout_buffer_lines, sub, read_line, read_lines,
  collect, trim, join, wait, send_command, command_args,
}
use teledap.OpenOcd.Buffer.{last, read_lines-last}
use teledap.OpenOcd.Responses.{response, send_command-response, send_command-late}
use teledap.OpenOcd.Terminator.{send_command-NoSub}

abbrev running : OpenOcdClient
running = record {
  child = true;
  stdin = some [];
  log_dir = none;
  started_at = some 0;
  stdout_lines = [];
  running = true;
  stdout_log = none;
}

start-running : (OpenOcd.start "openocd" none false 0 spawned OpenOcd.new).0 ≡ running
unfolding OpenOcd.start OpenOcd.launch OpenOcd.new
start-running = refl

args_of_two :
    command_args ("a.cfg" ∷ "b.cfg" ∷ []) ("-d" ∷ []) ≡ "-f" ∷ "a.cfg" ∷ "-f" ∷ "b.cfg" ∷ "-d" ∷ []
unfolding command_args
args_of_two = refl

-- "A", "B" and the terminator.
abbrev line_a : Line
line_a = 65 ∷ []

abbrev line_b : Line
line_b = 66 ∷ []

abbrev ending : Line
ending = sub ∷ []

read_lines-last_example :
    (read_lines (line_a ∷ line_b ∷ []) running).stdout_lines
    ≡ last max_stdout_buffer_lines (line_a ∷ line_b ∷ [])
read_lines-last_example = read_lines-last (line_a ∷ line_b ∷ []) running (omega arith)

send_command-response_example :
    let (c', r) =
      send_command line_a 5000 whole [] ((line_a ∷ []) ∷ (line_b ∷ ending ∷ []) ∷ []) running in
    (r ≡ ok (response (line_a ∷ line_b ∷ []) ending)) × (c'.stdout_lines ≡ [])
send_command-response_example =
    send_command-response line_a 5000 ((line_a ∷ []) ∷ []) (line_b ∷ []) [] ending [] [] running
      refl refl ((omega arith, (refl, tt)), tt) (omega arith) (refl, tt) refl

response_two : response (line_a ∷ line_b ∷ []) ending ≡ 65 ∷ 10 ∷ 66 ∷ []
unfolding join
response_two = refl

send_command-late_example :
    let (c', r) = send_command line_a 5000 whole (line_b ∷ ending ∷ []) [] running in
    (r ≡ err (timeout line_a 5000))
    × ((send_command line_b 5000 whole [] ((line_a ∷ []) ∷ []) c').1
        ≡ ok (response (line_b ∷ []) ending))
send_command-late_example =
    send_command-late line_a line_b 5000 5000 (line_b ∷ []) [] (line_a ∷ []) ending [] [] running
      refl refl (refl, tt) refl (omega arith)

send_command-NoSub_example : contains sub (65 ∷ []) ≡ false
unfolding send_command wait read_lines read_line trim collect join
send_command-NoSub_example =
    send_command-NoSub line_a 5000 whole [] ((line_a ∷ ending ∷ []) ∷ []) running (65 ∷ []) refl
