-- ===== src/OpenOcd/Responses.antt =====
-- What `send_command` of crates/openocd-client/src/client.rs returns.
use teledap.Prelude.{
  ℕ, ◌≤◌, ◌≡◌, refl, sym, ap, ◌∙◌, subst, true, false, not, some, List, [], ◌∷◌, ◌++◌, append_assoc,
  append-nil, arith, ok, err, nat_eq, ◌==◌, length, retain, contains, All, length-append,
}
use teledap.OpenOcd.{
  Line, OpenOcdClient, OpenOcdClientError, WriteResult, max_stdout_buffer_lines, read_line,
  read_lines, collect, sub, push_clean, join, wait, send_command,
}
use OpenOcdClientError.{timeout}
use teledap.OpenOcd.Buffer.{read_lines-last, last_of_le}

abbrev pub NoSub : Line → Type 0
NoSub l = contains sub l ≡ false

abbrev pub clean : Line → Line
clean l = retain (λ x. not (x == sub)) l

-- The lines of a response whose last line is the given one, with the terminator.
abbrev pub response : List Line → Line → List ℕ
response body t = join (push_clean body (clean t))

abbrev pub concat : List (List Line) → List Line
concat [] = []
concat (ls ∷ lss) = ls ++ concat lss

collect-NoSub : (acc ls : List Line) → All NoSub ls → collect acc ls ≡ ([], acc ++ ls, false)
unfolding collect
collect-NoSub acc [] h = ap (λ a. ([], a, false)) (sym (append-nil acc))
collect-NoSub acc (l ∷ ls) (p, h) =
    rw p
      (collect-NoSub (acc ++ l ∷ []) ls h ∙ ap (λ a. ([], a, false)) (append_assoc acc (l ∷ []) ls))

collect_found :
    (acc body left : List Line) (t : Line)
    → All NoSub body
    → contains sub t ≡ true
    → collect acc (body ++ t ∷ left) ≡ (left, push_clean (acc ++ body) (clean t), true)
unfolding collect
collect_found acc [] left t h p =
    rw p (ap (λ a. (left, push_clean a (clean t), true)) (sym (append-nil acc)))
collect_found acc (l ∷ body) left t (q, h) p = rw q (
    collect_found (acc ++ l ∷ []) body left t h p
    ∙ ap (λ a. (left, push_clean a (clean t), true)) (append_assoc acc (l ∷ []) body))

-- Where there is room, the reader keeps every line.
read_lines-append :
    (ls : List Line) (c : OpenOcdClient)
    → length (c.stdout_lines ++ ls) ≤ max_stdout_buffer_lines
    → (read_lines ls c).stdout_lines ≡ c.stdout_lines ++ ls
read_lines-append ls c h =
    let e = length-append c.stdout_lines ls in
    read_lines-last ls c (omega (arith, e, h))
    ∙ last_of_le max_stdout_buffer_lines (c.stdout_lines ++ ls) h

module _ (command : Line) (timeout_ms : ℕ) where
  wait_found :
      (lines : List Line) (wakes : List (List Line)) (acc body left : List Line) (t : Line)
      (c : OpenOcdClient)
      → length (c.stdout_lines ++ lines) ≤ max_stdout_buffer_lines
      → c.stdout_lines ++ lines ≡ body ++ t ∷ left
      → All NoSub body
      → contains sub t ≡ true
      → let (c', r) = wait command timeout_ms (lines ∷ wakes) acc c in
        (r ≡ ok (response (acc ++ body) t)) × (c'.stdout_lines ≡ left)
  unfolding wait
  wait_found lines wakes acc body left t c room e h p =
      rw (read_lines-append lines c room, e, collect_found acc body left t h p) (refl, refl)

  -- Lines that arrive before the command waits wait with it for the first wake-up.
  wait_more :
      (before : List (List Line)) (xs ys : List Line) (t : Line) (wakes : List (List Line))
      (acc : List Line) (c : OpenOcdClient)
      → c.stdout_lines ≡ []
      → All (λ ls. (length ls ≤ max_stdout_buffer_lines) × All NoSub ls) before
      → length (xs ++ t ∷ ys) ≤ max_stdout_buffer_lines
      → All NoSub xs
      → contains sub t ≡ true
      → let (c', r) = wait command timeout_ms (before ++ (xs ++ t ∷ ys) ∷ wakes) acc c in
        (r ≡ ok (response (acc ++ (concat before ++ xs)) t)) × (c'.stdout_lines ≡ ys)
  unfolding wait
  wait_more [] xs ys t wakes acc c e a room h p =
      wait_found (xs ++ t ∷ ys) wakes acc xs ys t c
        (subst (λ b. length (b ++ (xs ++ t ∷ ys)) ≤ max_stdout_buffer_lines) (sym e) room)
        (ap (λ b. b ++ (xs ++ t ∷ ys)) e) h p
  wait_more (ls ∷ before) xs ys t wakes acc c e ((n, q), a) room h p =
      let d = read_lines ls c in
      let kept : d.stdout_lines ≡ ls =
        read_lines-append ls c (subst (λ b. length (b ++ ls) ≤ max_stdout_buffer_lines) (sym e) n)
        ∙ ap (λ b. b ++ ls) e in
      let step : collect acc d.stdout_lines ≡ ([], acc ++ ls, false) =
        ap (λ b. collect acc b) kept ∙ collect-NoSub acc ls q in
      let lines : (acc ++ ls) ++ (concat before ++ xs) ≡ acc ++ ((ls ++ concat before) ++ xs) =
        append_assoc acc ls (concat before ++ xs)
        ∙ ap (λ b. acc ++ b) (sym (append_assoc ls (concat before) xs)) in
      let rest =
        wait_more before xs ys t wakes (acc ++ ls) (record d { stdout_lines = [] }) refl a room h
          p in
      rw step (rest.0 ∙ ap (λ b. ok (response b t)) lines, rest.1)

-- A command that is sent to a running OpenOCD with an empty buffer returns the lines up to the one with
-- the terminator, joined, however they are spread over the wake-ups, and leaves what comes behind, if
-- no more than a thousand lines come at once.
pub send_command-response :
    (command : Line) (timeout_ms : ℕ) (before : List (List Line)) (xs ys : List Line) (t : Line)
    (wakes : List (List Line)) (bytes : List ℕ) (c : OpenOcdClient)
    → c.stdin ≡ some bytes
    → c.stdout_lines ≡ []
    → All (λ ls. (length ls ≤ max_stdout_buffer_lines) × All NoSub ls) before
    → length (xs ++ t ∷ ys) ≤ max_stdout_buffer_lines
    → All NoSub xs
    → contains sub t ≡ true
    → let (c', r) =
        send_command command timeout_ms WriteResult.whole [] (before ++ (xs ++ t ∷ ys) ∷ wakes) c in
      (r ≡ ok (response (concat before ++ xs) t)) × (c'.stdout_lines ≡ ys)
unfolding send_command read_lines
send_command-response command timeout_ms before xs ys t wakes bytes c s e a room h p = rw s (
    wait_more command timeout_ms before xs ys t wakes []
      (record c { stdin = some (bytes ++ command ++ 10 ∷ []) }) e a room h p)

-- A response that stands in the buffer when a command is sent is returned to that command.
send_command-stale :
    (command : Line) (timeout_ms : ℕ) (body left early lines : List Line) (t : Line)
    (wakes : List (List Line)) (bytes : List ℕ) (c : OpenOcdClient)
    → c.stdin ≡ some bytes
    → c.stdout_lines ≡ body ++ t ∷ left
    → All NoSub body
    → contains sub t ≡ true
    → length ((c.stdout_lines ++ early) ++ lines) ≤ max_stdout_buffer_lines
    → (send_command command timeout_ms WriteResult.whole early (lines ∷ wakes) c).1
      ≡ ok (response body t)
unfolding send_command
send_command-stale command timeout_ms body left early lines t wakes bytes c s e h p room =
    let d = read_lines early (record c { stdin = some (bytes ++ command ++ 10 ∷ []) }) in
    let n = length-append (c.stdout_lines ++ early) lines in
    let kept : d.stdout_lines ≡ c.stdout_lines ++ early =
      read_lines-append early (record c { stdin = some (bytes ++ command ++ 10 ∷ []) })
        (omega (arith, n, room)) in
    let all : d.stdout_lines ++ lines ≡ body ++ t ∷ ((left ++ early) ++ lines) =
      ap (λ b. b ++ lines) (kept ∙ ap (λ b. b ++ early) e ∙ append_assoc body (t ∷ left) early)
      ∙ append_assoc body (t ∷ (left ++ early)) lines in
    let fits : length (d.stdout_lines ++ lines) ≤ max_stdout_buffer_lines =
      subst (λ b. length (b ++ lines) ≤ max_stdout_buffer_lines) (sym kept) room in
    rw s
      (wait_found command timeout_ms lines wakes [] body ((left ++ early) ++ lines) t d fits all h
        p).0

read_lines-stdin : (ls : List Line) (c : OpenOcdClient) → (read_lines ls c).stdin ≡ c.stdin
unfolding read_lines read_line
read_lines-stdin [] c = refl
read_lines-stdin (l ∷ ls) c = read_lines-stdin ls (read_line true l c)

-- The client when a command has been written.
abbrev asked : Line → List ℕ → OpenOcdClient → OpenOcdClient
asked command bytes c = record c { stdin = some (bytes ++ command ++ 10 ∷ []) }

send_command-missed :
    (command : Line) (timeout_ms : ℕ) (early : List Line) (bytes : List ℕ) (c : OpenOcdClient)
    → c.stdin ≡ some bytes
    → send_command command timeout_ms WriteResult.whole early [] c
      ≡ (read_lines early (asked command bytes c), err (timeout command timeout_ms))
unfolding send_command join
send_command-missed command timeout_ms early bytes c s = rw s refl

-- If no lines are buffered, and the whole response of a command comes between the writing and the
-- waiting, and nothing later, the command times out although the response is there, and the next
-- command returns that response as its own, if another line comes while it waits and all these lines
-- are at most a thousand.
pub send_command-late :
    (first second : Line) (ms ms' : ℕ) (body early lines : List Line) (t : Line)
    (wakes : List (List Line)) (bytes : List ℕ) (c : OpenOcdClient)
    → c.stdin ≡ some bytes
    → c.stdout_lines ≡ []
    → All NoSub body
    → contains sub t ≡ true
    → length (((body ++ t ∷ []) ++ early) ++ lines) ≤ max_stdout_buffer_lines
    → let (c', r) = send_command first ms WriteResult.whole (body ++ t ∷ []) [] c in
      (r ≡ err (timeout first ms))
      × ((send_command second ms' WriteResult.whole early (lines ∷ wakes) c').1
          ≡ ok (response body t))
send_command-late first second ms ms' body early lines t wakes bytes c s e h p room =
    let d = read_lines (body ++ t ∷ []) (asked first bytes c) in
    let n = length-append ((body ++ t ∷ []) ++ early) lines in
    let n' = length-append (body ++ t ∷ []) early in
    let kept : d.stdout_lines ≡ body ++ t ∷ [] =
      read_lines-append (body ++ t ∷ []) (asked first bytes c) (
        subst (λ b. length (b ++ (body ++ t ∷ [])) ≤ max_stdout_buffer_lines) (sym e)
          (omega (arith, n, n', room)))
      ∙ ap (λ b. b ++ (body ++ t ∷ [])) e in
    let open_pipe : d.stdin ≡ some (bytes ++ first ++ 10 ∷ []) =
      read_lines-stdin (body ++ t ∷ []) (asked first bytes c) in
    rw (send_command-missed first ms (body ++ t ∷ []) bytes c s) (
      refl,
      send_command-stale second ms' body [] early lines t wakes (bytes ++ first ++ 10 ∷ []) d
          open_pipe kept h p
          (subst (λ b. length ((b ++ early) ++ lines) ≤ max_stdout_buffer_lines) (sym kept) room),
    )
