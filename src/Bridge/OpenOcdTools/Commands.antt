-- ===== src/Bridge/OpenOcdTools/Commands.antt =====
-- A command by the tools of crates/debug-bridge/src/handlers/openocd.rs.
use teledap.Prelude.{
  ℕ, ◌≡◌, ◌≤◌, refl, ap, String, Bool, true, false, none, some, List, [], ◌∷◌, ◌++◌, Result, ok,
  err, length, All, contains, nat_eq,
}
use teledap.Dap.Json.{Json}
use teledap.OpenOcd as OpenOcd
use teledap.OpenOcd.{
  Line, OpenOcdClient, OpenOcdClientError, max_stdout_buffer_lines, sub, send_command, spawned,
  whole,
}
use teledap.OpenOcd.Responses.{NoSub, concat, response, send_command-response}
use teledap.OpenOcd.Terminator.{ok_inj}
use teledap.Bridge.Execution.{to_json_error}
use teledap.Bridge.OpenOcdTools.{
  OpenocdStartParams, OpenocdSendParams, start_params, send_params, handle_openocd_start,
  handle_openocd_send, require_openocd, send_json, replied,
}

replied-ok :
    (chars : String → List ℕ) (text : List ℕ → String) (describe : OpenOcdClientError → String)
    (explain : Json → String) (pretty : Json → Result String String) (p : OpenocdSendParams)
    (r : OpenOcdClient × Result OpenOcdClientError (List ℕ)) (x : List ℕ)
    → r.1 ≡ ok x
    → (replied chars text describe explain pretty p r).1
      ≡ to_json_error (pretty (send_json text p.command x))
replied-ok chars text describe explain pretty p (c, err e) x h = absurd (cc h)
replied-ok chars text describe explain pretty p (c, ok y) x h =
    ap (λ z. to_json_error (pretty (send_json text p.command z))) (ok_inj h)

-- Where there was no OpenOCD client and its tool has started one, a command that the other tool sends
-- right after, with no line from OpenOCD before the command waits, reports the lines that come up to
-- the terminator while it waits, if no more than a thousand come between two looks at the buffer.
pub handle_openocd_send-response :
    (chars : String → List ℕ) (text : List ℕ → String) (describe : OpenOcdClientError → String)
    (explain : Json → String) (pretty : Json → Result String String) (log_opened : Bool) (now : ℕ)
    (j1 j2 : Json) (p1 : OpenocdStartParams) (p2 : OpenocdSendParams) (before : List (List Line))
    (xs ys : List Line) (t : Line) (wakes : List (List Line))
    → start_params j1 ≡ some p1
    → send_params j2 ≡ some p2
    → All (λ ls. (length ls ≤ max_stdout_buffer_lines) × All NoSub ls) before
    → length (xs ++ t ∷ ys) ≤ max_stdout_buffer_lines
    → All NoSub xs
    → contains sub t ≡ true
    → let ocd =
        (handle_openocd_start chars text describe explain pretty log_opened now spawned j1
          none).0 in
      (handle_openocd_send chars text describe explain pretty false whole []
        (before ++ (xs ++ t ∷ ys) ∷ wakes)
        j2
        ocd).1
      ≡ to_json_error (pretty (send_json text p2.command (response (concat before ++ xs) t)))
unfolding handle_openocd_start handle_openocd_send OpenOcd.start OpenOcd.launch OpenOcd.new
    require_openocd
handle_openocd_send-response chars text describe explain pretty log_opened now j1 j2 p1 p2 before xs
      ys t wakes a b h room g p =
    rw (a, b)
      (replied-ok chars text describe explain pretty p2 _ _
        (send_command-response (chars p2.command) p2.timeout_ms before xs ys t wakes [] _ refl refl
          h room g p).0)
