-- ===== src/Client/Hangs.antt =====
-- Calls that wait when the last reader has ended (crates/dap-client/src/client.rs): the map of waiters is
-- shared with the client, so the end of a reader drops no sender.
use teledap.Prelude.{
  ℕ, ◌≤◌, ◌^◌, ◌≡◌, ◌≢◌, refl, sym, ap, ◌∙◌, subst, String, Option, none, some, List, [], ◌∷◌,
  Result, ok, err, arith, nat_eq, Bool, true, false, leb, Bool-cases, inl, inr, some_inj, All,
}
use teledap.Dict.{Dict, get, get-insert_ne}
use teledap.Dap.Json.{Json}
use teledap.Dap.Base.{Response, ProtocolMessage}
use teledap.Session.Calls.{DapClientError}
use teledap.Trace.{Trace, ℤ}
use teledap.Client
use teledap.Client.{
  DapClient, Call, Stage, begun, registered, waiting, returned, Channel, empty, closed, answered,
  enabled, stage_is, returns, waits, Outcome,
}
use teledap.Client.Send
use teledap.Client.Send.{number}
use teledap.Client.Reader
use teledap.Client.Reader.{Incoming}
use teledap.Client.Actions.{Action, Codecs, step, run}
use teledap.Client.Routing.{IsRouted, enabled-some, write_message-Frame}
use teledap.Client.Histories.{
  step-IsRouted, run-IsRouted, new-IsRouted, send_request_nb-Frame, first_event-Frame,
}
use teledap.Client.Live.{register_call-ne, enabled-stage}

-- No reader, and the call as it was, while the numbers have not wrapped around.
abbrev IsHung : ℕ → Call → DapClient → Type 0
IsHung id k c = c.allocated ≤ 2 ^ 64 → (c.readers ≡ 0) × (get c.calls id ≡ some k)

abbrev pub is_start : Action → Bool
is_start (Action.start now config spawn) = true
is_start _ = false

-- A call at another stage is another call.
other_call :
    (stage : Stage) (i j : ℕ) (k l : Call) (calls : Dict ℕ Call)
    → get calls j ≡ some k
    → k.stage ≡ waiting
    → enabled stage (get calls i) ≡ some l
    → stage ≢ waiting
    → i ≢ j
other_call stage i j k l calls p w e n q =
    let o = get calls i in
    let same : some l ≡ some k = sym (enabled-some stage o l e) ∙ ap (λ x. get calls x) q ∙ p in
    n (sym (enabled-stage stage o l e) ∙ ap (λ x. x.stage) (some_inj same) ∙ w)

delivered :
    (r : Response) (c : DapClient) (o : Option ℕ) → (Reader.deliver r c o).allocated ≡ c.allocated
delivered r c none = refl
delivered r c (some id) = refl

dispatched :
    (r : Response) (c : DapClient) (o : Option (Option Trace))
    → (Reader.dispatch r c o).allocated ≡ c.allocated
dispatched r c none = refl
dispatched r c (some t) =
    delivered r (record c { trace = t }) (get c.pending_requests r.request_seq)

module _ (codecs : Codecs) (id : ℕ) (k : Call) (w : k.stage ≡ waiting) (q : k.channel ≡ empty) where
  begin-IsHung :
      (now : ℕ) (command : String) (v : Result String Json) (c : DapClient)
      → IsRouted c
      → IsHung id k c
      → IsHung id k (Send.begin now command v c).0
  unfolding Send.begin
  begin-IsHung now command (err e) c r h = λ b. h (omega (arith, b))
  begin-IsHung now command (ok v) c (_, a, _) h = λ b.
      let (z, p) = h (omega (arith, b)) in
      (
        z,
        get-insert_ne c.calls c.allocated id
              (record { request = Send.request_of c.seq command v; stage = begun; channel = empty })
              (λ e. let l = (a id k p).0 in omega (arith, l, e))
            ∙ p,
      )

  register_call-IsHung :
      (i : ℕ) (c : DapClient) (o : Option Call)
      → enabled begun (get c.calls i) ≡ o
      → IsRouted c
      → IsHung id k c
      → IsHung id k (Send.register_call i c o)
  register_call-IsHung i c none e r h = h
  register_call-IsHung i c (some l) e r h = λ b.
      let (z, p) = h b in
      (
        z,
        register_call-ne i id c l r b (enabled-some begun (get c.calls i) l e)
              (other_call begun i id k l c.calls p w e (λ x. cc x))
            ∙ p,
      )

  at-IsHung :
      (stage : Stage) (i : ℕ) (l : Call) (c : DapClient)
      → (get c.calls id ≡ some k → i ≢ id)
      → IsHung id k c
      → IsHung id k (Send.at stage i l c)
  at-IsHung stage i l c n h = λ b.
      let (z, p) = h b in (z, get-insert_ne c.calls i id (record l { stage = stage }) (n p) ∙ p)

  sent-IsHung :
      (i : ℕ) (l : Call) (p : DapClient × Result DapClientError (Unit {0}))
      → (get p.0.calls id ≡ some k → i ≢ id)
      → IsHung id k p.0
      → IsHung id k (Send.sent codecs.to_vec i l p).0
  sent-IsHung i l (c, ok a) n h = at-IsHung waiting i l c n h
  sent-IsHung i l (c, err e) n h = at-IsHung returned i l c n h

  write_call-IsHung :
      (x : Send.WriteResult) (i : ℕ) (c : DapClient) (o : Option Call)
      → enabled registered (get c.calls i) ≡ o
      → IsHung id k c
      → IsHung id k (Send.write_call codecs.to_vec x i c o).0
  write_call-IsHung x i c none e h = h
  write_call-IsHung x i c (some l) e h =
      sent-IsHung i l (Send.write_message codecs.to_vec x l.request c)
        (write_message-Frame (λ d. get d.calls id ≡ some k → i ≢ id) c
          (λ _ p. other_call registered i id k l c.calls p w e (λ y. cc y)) codecs.to_vec x
          l.request)
        (write_message-Frame (IsHung id k) c (λ _. h) codecs.to_vec x l.request)

  module _ (now : ℕ) (elapsed : ℤ) where
    traced_result-IsHung :
        (i : ℕ) (c : DapClient) (l : Call) (r : Response) (o : Option (Option Trace))
        → (get c.calls id ≡ some k → i ≢ id)
        → IsHung id k c
        → IsHung id k (Reader.traced_result codecs.from_value i l r c o).0
    traced_result-IsHung i c l r none n h = at-IsHung returned i l c n h
    traced_result-IsHung i c l r (some t) n h = at-IsHung returned i l (record c { trace = t }) n h

    ended-IsHung :
        (i : ℕ) (c : DapClient) (l : Call) (ch : Channel)
        → (ch ≢ empty → get c.calls id ≡ some k → i ≢ id)
        → IsHung id k c
        → IsHung id k (Reader.ended codecs.from_value codecs.to_string now elapsed i c l ch).0
    ended-IsHung i c l empty n h = h
    ended-IsHung i c l closed n h = at-IsHung returned i l c (n (λ x. cc x)) h
    ended-IsHung i c l (answered r) n h =
        traced_result-IsHung i c l r
          (Reader.trace_answer codecs.to_string now l.request.command r (some elapsed) c.trace)
          (n (λ x. cc x)) h

    finish_call-IsHung :
        (i : ℕ) (c : DapClient) (o : Option Call)
        → enabled waiting (get c.calls i) ≡ o
        → IsHung id k c
        → IsHung id k (Reader.finish_call codecs.from_value codecs.to_string now elapsed i c o).0
    finish_call-IsHung i c none e h = h
    finish_call-IsHung i c (some l) e h =
        ended-IsHung i c l l.channel
          (λ n p x.
            let same : some l ≡ some k =
              sym (enabled-some waiting (get c.calls i) l e) ∙ ap (λ y. get c.calls y) x ∙ p in
            n (ap (λ y. y.channel) (some_inj same) ∙ q))
          h

  on_message-allocated :
      (now : ℕ) (m : Incoming) (c : DapClient)
      → (Reader.on_message codecs.to_string now m c).allocated ≡ c.allocated
  unfolding Reader.on_message
  on_message-allocated now (Reader.message (ProtocolMessage.request x)) c = refl
  on_message-allocated now (Reader.message (ProtocolMessage.response r)) c =
      dispatched r c (Reader.trace_answer codecs.to_string now r.command r none c.trace)
  on_message-allocated now (Reader.message (ProtocolMessage.event e)) c = refl
  on_message-allocated now (Reader.bad_frame e) c = refl
  on_message-allocated now Reader.end_of_stream c = refl

  receive-IsHung :
      (now : ℕ) (m : Incoming) (c : DapClient)
      → IsHung id k c
      → IsHung id k (Reader.receive codecs.to_string now m c)
  unfolding Reader.receive
  receive-IsHung now m c h = elim (Bool-cases (leb 1 c.readers)) [
    | inl p ↦ rw p (λ b.
        let (z, _) = h (subst (λ n. n ≤ 2 ^ 64) (on_message-allocated now m c) b) in
        absurd (ground (arith, p, z)))
    | inr p ↦ rw p h
  ]

  step-IsHung :
      (a : Action) (c : DapClient)
      → is_start a ≡ false
      → IsRouted c
      → IsHung id k c
      → IsHung id k (step codecs a c)
  unfolding step Client.set_lib_lldb_path Send.register Send.write Reader.finish Reader.receive
      Reader.recv_event Reader.drain_events Reader.close
  step-IsHung (Action.start now config spawn) c s r h = absurd (cc s)
  step-IsHung (Action.set_lib_lldb_path path) c s r h = h
  step-IsHung (Action.begin now command v) c s r h = begin-IsHung now command v c r h
  step-IsHung (Action.register i) c s r h =
      register_call-IsHung i c (enabled begun (get c.calls i)) refl r h
  step-IsHung (Action.write x i) c s r h =
      write_call-IsHung x i c (enabled registered (get c.calls i)) refl h
  step-IsHung (Action.finish now elapsed i) c s r h =
      finish_call-IsHung now elapsed i c (enabled waiting (get c.calls i)) refl h
  step-IsHung (Action.send_request_nb x command v) c s r h =
      send_request_nb-Frame (IsHung id k) c (λ _ b. h (omega (arith, b))) codecs.to_vec x command v
  step-IsHung (Action.receive now m) c s r h = receive-IsHung now m c h
  step-IsHung Action.recv_event c s r h = first_event-Frame (IsHung id k) c (λ _. h) c.events
  step-IsHung Action.drain_events c s r h = h
  step-IsHung Action.close c s r h = h

  run-IsHung :
      (l : List Action) (c : DapClient)
      → All (λ a. is_start a ≡ false) l
      → IsRouted c
      → IsHung id k c
      → IsHung id k (run codecs l c)
  unfolding run
  run-IsHung [] c s r h = h
  run-IsHung (a ∷ l) c (s, t) r h =
      run-IsHung l (step codecs a c) t (step-IsRouted codecs a c r) (step-IsHung a c s r h)

  hung_waits :
      (now : ℕ) (elapsed : ℤ) (c : DapClient)
      → get c.calls id ≡ some k
      → (Reader.finish codecs.from_value codecs.to_string now elapsed id c).1 ≡ waits
  unfolding Reader.finish
  hung_waits now elapsed c p =
      let found : enabled waiting (get c.calls id) ≡ some k = rw (p, w) refl in rw (found, q) refl

-- A call that waits for its response when no reader is left, in whatever history, waits for ever: until
-- an adapter is started again, no further steps make it return, while at most 2 ^ 64 numbers are taken.
pub finish-run_hung :
    (codecs : Codecs) (n : ℕ) (t : Option Trace) (past future : List Action) (id : ℕ) (k : Call)
    (now : ℕ) (elapsed : ℤ)
    → let c = run codecs past (Client.new n t) in
      c.readers ≡ 0
      → get c.calls id ≡ some k
      → k.stage ≡ waiting
      → k.channel ≡ empty
      → All (λ a. is_start a ≡ false) future
      → (run codecs future c).allocated ≤ 2 ^ 64
      → (Reader.finish codecs.from_value codecs.to_string now elapsed id (run codecs future c)).1
        ≡ waits
finish-run_hung codecs n t past future id k now elapsed z p w q s b =
    let c = run codecs past (Client.new n t) in
    let r = run-IsRouted codecs past (Client.new n t) (new-IsRouted n t) in
    hung_waits codecs id k w q now elapsed (run codecs future c)
      (run-IsHung codecs id k w q future c s r (λ _. (z, p)) b).1
