-- ===== src/Client/Open.antt =====
-- No waiter is dropped before the numbers wrap around (crates/dap-client/src/client.rs), so the error
-- for a dropped waiter is not returned.
use teledap.Prelude.{
  ℕ, ◌≤◌, ◌^◌, ◌≡◌, ◌≢◌, refl, sym, ap, ◌∙◌, String, Option, none, some, List, [], ◌∷◌, Result, ok,
  err, arith, nat_eq, leb, if_intro, some_inj,
}
use teledap.Dict.{
  Dict, get, insert, Everywhere, insert-Everywhere, change-Everywhere, get-insert_self,
}
use teledap.Dap.Json.{Json, null}
use teledap.Dap.Base.{Response, ProtocolMessage}
use teledap.Session.Calls.{DapClientError}
use teledap.Session.Events.{or_value}
use teledap.Trace.{Trace, ℤ}
use teledap.Client
use teledap.Client.{
  DapClient, Call, Stage, begun, registered, waiting, returned, Channel, empty, closed, answered,
  enabled, stage_is, returns,
}
use teledap.Client.Send
use teledap.Client.Send.{number}
use teledap.Client.Reader
use teledap.Client.Reader.{Incoming}
use teledap.Client.Actions.{Action, Codecs, step, run}
use teledap.Client.Routing.{IsRouted, enabled-some, write_message-Frame}
use teledap.Client.Histories.{
  step-IsRouted, new-IsRouted, start-Frame, send_request_nb-Frame, first_event-Frame,
}
use DapClientError.{process_exited}
use teledap.Client.Live.{register_call-ne}

abbrev Kept : ℕ → Call → Type 0
Kept id k = k.channel ≢ closed

abbrev pub IsOpen : DapClient → Type 0
IsOpen c = c.allocated ≤ 2 ^ 64 → Everywhere Kept c.calls

at-IsOpen :
    (stage : Stage) (id : ℕ) (k : Call) (c : DapClient)
    → get c.calls id ≡ some k
    → IsOpen c
    → IsOpen (Send.at stage id k c)
at-IsOpen stage id k c p h w =
    insert-Everywhere Kept c.calls id (record k { stage = stage }) (h w id k p) (h w)

begin-IsOpen :
    (now : ℕ) (command : String) (v : Result String Json) (c : DapClient)
    → IsOpen c
    → IsOpen (Send.begin now command v c).0
unfolding Send.begin
begin-IsOpen now command (err e) c h w = h (omega (arith, w))
begin-IsOpen now command (ok v) c h w =
    insert-Everywhere Kept c.calls c.allocated
      (record { request = Send.request_of c.seq command v; stage = begun; channel = empty })
      (λ p. absurd (cc p)) (h (omega (arith, w)))

register_call-IsOpen :
    (id : ℕ) (c : DapClient) (o : Option Call)
    → ((k : Call) → o ≡ some k → get c.calls id ≡ some k)
    → IsRouted c
    → IsOpen c
    → IsOpen (Send.register_call id c o)
register_call-IsOpen id c none f r h = h
register_call-IsOpen id c (some k) f r h = λ w.
    let dropped = Send.drop_sender (get c.pending_requests k.request.seq) c.calls in
    let k' : Call = record k { stage = registered } in
    change-Everywhere Kept c.calls (insert dropped id k') id
      (λ j q. register_call-ne id j c k r w (f k refl) q)
      (λ v p q.
        h w id k (f k refl)
          (ap (λ x. x.channel) (some_inj (sym (get-insert_self dropped id k') ∙ p)) ∙ q))
      (h w)

sent-IsOpen :
    (to_vec : ProtocolMessage → Result String (List ℕ)) (id : ℕ) (k : Call)
    (p : DapClient × Result DapClientError (Unit {0}))
    → get p.0.calls id ≡ some k
    → IsOpen p.0
    → IsOpen (Send.sent to_vec id k p).0
sent-IsOpen to_vec id k (c, ok a) e h = at-IsOpen waiting id k c e h
sent-IsOpen to_vec id k (c, err x) e h = at-IsOpen returned id k c e h

write_call-IsOpen :
    (to_vec : ProtocolMessage → Result String (List ℕ)) (w : Send.WriteResult) (id : ℕ)
    (c : DapClient) (o : Option Call)
    → ((k : Call) → o ≡ some k → get c.calls id ≡ some k)
    → IsOpen c
    → IsOpen (Send.write_call to_vec w id c o).0
write_call-IsOpen to_vec w id c none f h = h
write_call-IsOpen to_vec w id c (some k) f h =
    sent-IsOpen to_vec id k (Send.write_message to_vec w k.request c)
      (write_message-Frame (λ d. get d.calls id ≡ some k) c (λ _. f k refl) to_vec w k.request)
      (write_message-Frame IsOpen c (λ _. h) to_vec w k.request)

send_answer-Kept :
    (r : Response) (calls : Dict ℕ Call) (id : ℕ) (o : Option Call)
    → Everywhere Kept calls
    → Everywhere Kept (Reader.send_answer r calls id o)
send_answer-Kept r calls id none h = h
send_answer-Kept r calls id (some k) h =
    insert-Everywhere Kept calls id (record k { channel = answered r }) (λ p. absurd (cc p)) h

deliver-IsOpen :
    (r : Response) (c : DapClient) (o : Option ℕ) → IsOpen c → IsOpen (Reader.deliver r c o)
deliver-IsOpen r c none h = h
deliver-IsOpen r c (some id) h = λ w. send_answer-Kept r c.calls id (get c.calls id) (h w)

dispatch-IsOpen :
    (r : Response) (c : DapClient) (o : Option (Option Trace))
    → IsOpen c
    → IsOpen (Reader.dispatch r c o)
dispatch-IsOpen r c none h = h
dispatch-IsOpen r c (some t) h =
    deliver-IsOpen r (record c { trace = t }) (get c.pending_requests r.request_seq) h

on_message-IsOpen :
    (to_string : Json → String) (now : ℕ) (m : Incoming) (c : DapClient)
    → IsOpen c
    → IsOpen (Reader.on_message to_string now m c)
unfolding Reader.on_message
on_message-IsOpen to_string now (Reader.message (ProtocolMessage.request q)) c h = h
on_message-IsOpen to_string now (Reader.message (ProtocolMessage.response r)) c h =
    dispatch-IsOpen r c (Reader.trace_answer to_string now r.command r none c.trace) h
on_message-IsOpen to_string now (Reader.message (ProtocolMessage.event e)) c h = h
on_message-IsOpen to_string now (Reader.bad_frame e) c h = h
on_message-IsOpen to_string now Reader.end_of_stream c h = h

module _ {A : Type 0} (from_value : Json → Result String A) (to_string : Json → String) (now : ℕ)
    (elapsed : ℤ) (id : ℕ) (c : DapClient) (h : IsOpen c) where
  traced_result-IsOpen :
      (k : Call) (r : Response) (o : Option (Option Trace))
      → get c.calls id ≡ some k
      → IsOpen (Reader.traced_result from_value id k r c o).0
  traced_result-IsOpen k r none e = at-IsOpen returned id k c e h
  traced_result-IsOpen k r (some t) e = at-IsOpen returned id k (record c { trace = t }) e h

  ended-IsOpen :
      (k : Call) (ch : Channel)
      → get c.calls id ≡ some k
      → IsOpen (Reader.ended from_value to_string now elapsed id c k ch).0
  ended-IsOpen k empty e = h
  ended-IsOpen k closed e = at-IsOpen returned id k c e h
  ended-IsOpen k (answered r) e =
      traced_result-IsOpen k r
        (Reader.trace_answer to_string now k.request.command r (some elapsed) c.trace) e

  finish_call-IsOpen :
      (o : Option Call)
      → ((k : Call) → o ≡ some k → get c.calls id ≡ some k)
      → IsOpen (Reader.finish_call from_value to_string now elapsed id c o).0
  finish_call-IsOpen none f = h
  finish_call-IsOpen (some k) f = ended-IsOpen k k.channel (f k refl)

module _ (codecs : Codecs) where
  step-IsOpen : (a : Action) (c : DapClient) → IsRouted c → IsOpen c → IsOpen (step codecs a c)
  unfolding step Client.set_lib_lldb_path Send.register Send.write Reader.finish Reader.receive
      Reader.recv_event Reader.drain_events Reader.close
  step-IsOpen (Action.start now config spawn) c r h =
      start-Frame IsOpen c h (λ r s b k t. h) now config spawn
  step-IsOpen (Action.set_lib_lldb_path path) c r h = h
  step-IsOpen (Action.begin now command v) c r h = begin-IsOpen now command v c h
  step-IsOpen (Action.register id) c r h =
      register_call-IsOpen id c (enabled begun (get c.calls id))
        (enabled-some begun (get c.calls id)) r h
  step-IsOpen (Action.write w id) c r h =
      write_call-IsOpen codecs.to_vec w id c (enabled registered (get c.calls id))
        (enabled-some registered (get c.calls id)) h
  step-IsOpen (Action.finish now elapsed id) c r h =
      finish_call-IsOpen codecs.from_value codecs.to_string now elapsed id c h
        (enabled waiting (get c.calls id)) (enabled-some waiting (get c.calls id))
  step-IsOpen (Action.send_request_nb w command v) c r h =
      send_request_nb-Frame IsOpen c (λ _ b. h (omega (arith, b))) codecs.to_vec w command v
  step-IsOpen (Action.receive now m) c r h =
      if_intro IsOpen (leb 1 c.readers) (on_message-IsOpen codecs.to_string now m c h) h
  step-IsOpen Action.recv_event c r h = first_event-Frame IsOpen c (λ _. h) c.events
  step-IsOpen Action.drain_events c r h = h
  step-IsOpen Action.close c r h = h

  run-IsOpen : (l : List Action) (c : DapClient) → IsRouted c → IsOpen c → IsOpen (run codecs l c)
  unfolding run
  run-IsOpen [] c r h = h
  run-IsOpen (a ∷ l) c r h =
      run-IsOpen l (step codecs a c) (step-IsRouted codecs a c r) (step-IsOpen a c r h)

new-IsOpen : (n : ℕ) (t : Option Trace) → IsOpen (Client.new n t)
unfolding Client.new get
new-IsOpen n t w id k p = absurd (cc p)

-- While at most 2 ^ 64 numbers have been taken, no history of the client drops a waiter: every call
-- still has its sender or has got its response.
pub run-channel :
    (codecs : Codecs) (n : ℕ) (t : Option Trace) (history : List Action) (id : ℕ) (k : Call)
    → (run codecs history (Client.new n t)).allocated ≤ 2 ^ 64
    → get (run codecs history (Client.new n t)).calls id ≡ some k
    → k.channel ≢ closed
run-channel codecs n t history id k w e =
    run-IsOpen codecs history (Client.new n t) (new-IsRouted n t) (new-IsOpen n t) w id k e

returns_inj : {A : Type 0} {r s : Result DapClientError A} → returns r ≡ returns s → r ≡ s
returns_inj {A} {r} {s} h = cc h

module _ {A : Type 0} (from_value : Json → Result String A) (to_string : Json → String) (now : ℕ)
    (elapsed : ℤ) (id : ℕ) (c : DapClient) where
  parse_body-NotExit :
      (m : String) (r : Result String A) → Reader.parse_body from_value r ≢ err (process_exited m)
  parse_body-NotExit m (ok a) h = cc h
  parse_body-NotExit m (err e) h = cc h

  result_of-NotExit :
      (command m : String) (r : Response)
      → Reader.result_of from_value command r ≢ err (process_exited m)
  unfolding Reader.result_of
  result_of-NotExit command m r =
      if_intro (λ x. x ≢ err (process_exited m)) r.success
        (parse_body-NotExit m (from_value (or_value r.body null))) (λ h. cc h)

  traced_result-NotExit :
      (m : String) (k : Call) (r : Response) (o : Option (Option Trace))
      → (Reader.traced_result from_value id k r c o).1 ≢ returns (err (process_exited m))
  traced_result-NotExit m k r none h = cc h
  traced_result-NotExit m k r (some t) h = result_of-NotExit k.request.command m r (returns_inj h)

  ended-NotExit :
      (m : String) (k : Call) (ch : Channel)
      → ch ≢ closed
      → (Reader.ended from_value to_string now elapsed id c k ch).1
        ≢ returns (err (process_exited m))
  ended-NotExit m k empty f h = cc h
  ended-NotExit m k closed f h = f refl
  ended-NotExit m k (answered r) f h =
      traced_result-NotExit m k r
        (Reader.trace_answer to_string now k.request.command r (some elapsed) c.trace) h

  finish_call-NotExit :
      (m : String) (o : Option Call)
      → ((k : Call) → o ≡ some k → k.channel ≢ closed)
      → (Reader.finish_call from_value to_string now elapsed id c o).1
        ≢ returns (err (process_exited m))
  finish_call-NotExit m none f h = cc h
  finish_call-NotExit m (some k) f h = ended-NotExit m k k.channel (f k refl) h

-- While at most 2 ^ 64 numbers have been taken, no call of `send_request` ends with the error for an
-- adapter whose output was closed, whatever the readers, the adapter and the other calls have done.
pub finish-run :
    (codecs : Codecs) (n : ℕ) (t : Option Trace) (history : List Action) (now : ℕ) (elapsed : ℤ)
    (id : ℕ) (m : String)
    → (run codecs history (Client.new n t)).allocated ≤ 2 ^ 64
    → (Reader.finish codecs.from_value codecs.to_string now elapsed id
        (run codecs history (Client.new n t))).1
      ≢ returns (err (process_exited m))
unfolding Reader.finish
finish-run codecs n t history now elapsed id m w =
    let c = run codecs history (Client.new n t) in
    finish_call-NotExit codecs.from_value codecs.to_string now elapsed id c m
      (enabled waiting (get c.calls id))
      (λ k e. run-channel codecs n t history id k w (enabled-some waiting (get c.calls id) k e))
