-- ===== src/OpenOcd/Terminator.antt =====
-- The terminator in what `send_command` of crates/openocd-client/src/client.rs returns, and the bound
-- on the buffer that it leaves.
use teledap.Prelude.{
  ℕ, ◌≡◌, refl, sym, ap, ◌∙◌, Bool, true, false, Option, none, some, List, [], ◌∷◌, ◌++◌, arith,
  Result, ok, nat_eq, ◌==◌, contains, All, All-append, Bool-cases, inl, inr,
}
use teledap.OpenOcd.{
  Line, OpenOcdClient, OpenOcdClientError, WriteResult, read_lines, collect, sub, push_clean, join,
  partial, proceed, wait, written, connected, send_command,
}
use teledap.OpenOcd.Responses.{NoSub, clean}

contains-append :
    (l k : List ℕ) → contains sub l ≡ false → contains sub k ≡ false → contains sub (l ++ k) ≡ false
contains-append [] k p q = q
contains-append (x ∷ l) k p q = ground (arith, contains-append l k)

clean-NoSub : (l : Line) → NoSub (clean l)
clean-NoSub [] = refl
clean-NoSub (x ∷ l) = elim (Bool-cases (x == sub)) [
  | inl p ↦ rw p (clean-NoSub l)
  | inr p ↦ rw (p, p) (clean-NoSub l)
]

push_clean-NoSub :
    (acc : List Line) (l : Line) → All NoSub acc → NoSub l → All NoSub (push_clean acc l)
push_clean-NoSub acc [] h p = h
push_clean-NoSub acc (x ∷ l) h p = All-append NoSub acc ((x ∷ l) ∷ []) h (p, tt)

-- What the loop that pops lines has gathered.
gathered-NoSub : (ls acc : List Line) → All NoSub acc → All NoSub (collect acc ls).1
unfolding collect
gathered-NoSub [] acc h = h
gathered-NoSub (l ∷ ls) acc h = elim (Bool-cases (contains sub l)) [
  | inl p ↦ rw p (push_clean-NoSub acc (clean l) h (clean-NoSub l))
  | inr p ↦ rw p (gathered-NoSub ls (acc ++ l ∷ []) (All-append NoSub acc (l ∷ []) h (p, tt)))
]

join-NoSub : (ls : List Line) → All NoSub ls → contains sub (join ls) ≡ false
unfolding join
join-NoSub [] h = refl
join-NoSub (l ∷ []) (p, h) = p
join-NoSub (l ∷ k ∷ ls) (p, h) = contains-append l (10 ∷ join (k ∷ ls)) p (join-NoSub (k ∷ ls) h)

abbrev Plain : Result OpenOcdClientError (List ℕ) → Type 0
Plain r = (s : List ℕ) → r ≡ ok s → contains sub s ≡ false

pub ok_inj : {s t : List ℕ} → ◌≡◌ {A = Result OpenOcdClientError (List ℕ)} (ok s) (ok t) → s ≡ t
ok_inj {s} {t} h = cc h

ok-Plain : (s : List ℕ) → contains sub s ≡ false → Plain (ok s)
ok-Plain s h t e = ap (λ x. contains sub x) (sym (ok_inj e)) ∙ h

module _ (command : Line) (timeout_ms : ℕ) where
  partial-Plain : (s : List ℕ) → contains sub s ≡ false → Plain (partial command timeout_ms s)
  partial-Plain [] h = λ s e. absurd (cc e)
  partial-Plain (x ∷ s) h = ok-Plain (x ∷ s) h

  proceed-Plain :
      (rest : List Line → OpenOcdClient → OpenOcdClient × Result OpenOcdClientError (List ℕ))
      → ((acc : List Line) (c : OpenOcdClient) → All NoSub acc → Plain (rest acc c).1)
      → (c : OpenOcdClient) (r : List Line × List Line × Bool) → All NoSub r.1
      → Plain (proceed command timeout_ms rest c r).1
  proceed-Plain rest f c (left, acc, true) h = ok-Plain (join acc) (join-NoSub acc h)
  proceed-Plain rest f c (left, acc, false) h = f acc (record c { stdout_lines = left }) h

  wait-Plain :
      (wakes : List (List Line)) (acc : List Line) (c : OpenOcdClient)
      → All NoSub acc
      → Plain (wait command timeout_ms wakes acc c).1
  unfolding wait
  wait-Plain [] acc c h = partial-Plain (join acc) (join-NoSub acc h)
  wait-Plain (lines ∷ wakes) acc c h =
      let d = read_lines lines c in
      proceed-Plain (wait command timeout_ms wakes) (wait-Plain wakes) d
        (collect acc d.stdout_lines) (gathered-NoSub d.stdout_lines acc h)

  written-Plain :
      (early : List Line) (wakes : List (List Line)) (bytes : List ℕ) (w : WriteResult)
      (c : OpenOcdClient)
      → Plain (written command timeout_ms early wakes bytes w c).1
  written-Plain early wakes bytes WriteResult.whole c =
      wait-Plain wakes []
        (read_lines early (record c { stdin = some (bytes ++ command ++ 10 ∷ []) })) tt
  written-Plain early wakes bytes (WriteResult.broken n e) c = λ s p. absurd (cc p)

  connected-Plain :
      (w : WriteResult) (early : List Line) (wakes : List (List Line)) (c : OpenOcdClient)
      (pipe : Option (List ℕ))
      → Plain (connected command timeout_ms w early wakes c pipe).1
  connected-Plain w early wakes c none = λ s p. absurd (cc p)
  connected-Plain w early wakes c (some bytes) = written-Plain early wakes bytes w c

-- A response that `send_command` returns, whole or cut by the timeout, does not contain the terminator,
-- whatever the buffer holds and whatever arrives.
pub send_command-NoSub :
    (command : Line) (timeout_ms : ℕ) (w : WriteResult) (early : List Line)
    (wakes : List (List Line)) (c : OpenOcdClient) (s : List ℕ)
    → (send_command command timeout_ms w early wakes c).1 ≡ ok s
    → contains sub s ≡ false
unfolding send_command
send_command-NoSub command timeout_ms w early wakes c =
    connected-Plain command timeout_ms w early wakes c c.stdin
