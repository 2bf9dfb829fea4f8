-- ===== src/Client/Histories.antt =====
-- What every history of steps of the client keeps (crates/dap-client/src/client.rs).
use teledap.Prelude.{
  ℕ, ◌≡◌, refl, String, Option, none, some, List, [], ◌∷◌, Result, ok, err, nat_eq, Bool, leb,
  if_intro,
}
use teledap.Dict.{get, remove-Everywhere}
use teledap.Dap.Json.{Json}
use teledap.Dap.Base.{Response, ProtocolMessage}
use teledap.Session.Calls.{DapClientError}
use teledap.Trace.{Trace, ℤ}
use teledap.Client
use teledap.Client.{
  DapClient, Call, Stage, begun, registered, waiting, returned, Channel, empty, closed, answered,
  enabled,
}
use teledap.Client.Send
use teledap.Client.Send.{number}
use teledap.Client.Reader
use teledap.Client.Reader.{Incoming}
use teledap.Client.Actions.{Action, Codecs, step, run}
use teledap.Client.Routing.{
  Names, IsRouted, at-IsRouted, allocate-IsRouted, begin-IsRouted, register_call-IsRouted,
  write_call-IsRouted, write_message-Frame, dispatch-IsRouted, enabled-some,
}

module _ (P : DapClient → Type 0) (c : DapClient) (h : P c)
    (f : (r : ℕ) (s : Option (List ℕ)) (b : Bool) (k : Option Client.AdapterKind) (t : Option Trace)
      → P (record c { readers = r; stdin = s; child = b; adapter_kind = k; trace = t })) where
  launch-Frame :
      (now : ℕ) (config : Client.AdapterConfig) (spawn : Client.Spawn)
      → P (Client.launch now config spawn c).0
  unfolding Client.launch
  launch-Frame now config (Client.not_spawned e) = h
  launch-Frame now config Client.no_stdout = h
  launch-Frame now config Client.no_stdin = h
  launch-Frame now config Client.no_stderr = h
  launch-Frame now config Client.spawned = f _ _ _ _ _

  pub start-Frame :
      (now : ℕ) (config : Client.AdapterConfig) (spawn : Client.Spawn)
      → P (Client.start now config spawn c).0
  unfolding Client.start Client.is_running
  start-Frame now config spawn =
      if_intro (λ (p : DapClient × Result DapClientError (Unit {0})). P p.0) c.child h
        (launch-Frame now config spawn)

pub send_request_nb-Frame :
    (P : DapClient → Type 0) (c : DapClient)
    → ((bytes : Option (List ℕ)) → P (record (Send.allocate c) { stdin = bytes }))
    → (to_vec : ProtocolMessage → Result String (List ℕ)) (w : Send.WriteResult) (command : String)
      (v : Result String Json)
    → P (Send.send_request_nb to_vec w command v c).0
unfolding Send.send_request_nb
send_request_nb-Frame P c keep to_vec w command (err e) = keep c.stdin
send_request_nb-Frame P c keep to_vec w command (ok v) =
    write_message-Frame P (Send.allocate c) keep to_vec w (Send.request_of c.seq command v)

pub first_event-Frame :
    (P : DapClient → Type 0) (c : DapClient)
    → ((es : List Client.Event) → P (record c { events = es }))
    → (es : List Client.Event) → P (Reader.first_event c es).0
first_event-Frame P c keep [] = keep c.events
first_event-Frame P c keep (e ∷ es) = keep es

on_message-IsRouted :
    (to_string : Json → String) (now : ℕ) (m : Incoming) (c : DapClient)
    → IsRouted c
    → IsRouted (Reader.on_message to_string now m c)
unfolding Reader.on_message
on_message-IsRouted to_string now (Reader.message (ProtocolMessage.request q)) c h = h
on_message-IsRouted to_string now (Reader.message (ProtocolMessage.response r)) c h =
    dispatch-IsRouted r c (Reader.trace_answer to_string now r.command r none c.trace) h
on_message-IsRouted to_string now (Reader.message (ProtocolMessage.event e)) c h = h
on_message-IsRouted to_string now (Reader.bad_frame e) c h = h
on_message-IsRouted to_string now Reader.end_of_stream c h = h

module _ {A : Type 0} (from_value : Json → Result String A) (to_string : Json → String) (now : ℕ)
    (elapsed : ℤ) (id : ℕ) (c : DapClient) where
  traced_result-IsRouted :
      (k : Call) (r : Response) (o : Option (Option Trace))
      → get c.calls id ≡ some k
      → IsRouted c
      → IsRouted (Reader.traced_result from_value id k r c o).0
  traced_result-IsRouted k r none e h = at-IsRouted returned id k c e h
  traced_result-IsRouted k r (some t) e h = at-IsRouted returned id k (record c { trace = t }) e h

  ended-IsRouted :
      (k : Call) (ch : Channel)
      → get c.calls id ≡ some k
      → IsRouted c
      → IsRouted (Reader.ended from_value to_string now elapsed id c k ch).0
  ended-IsRouted k empty e h = h
  ended-IsRouted k closed e h =
      let (s, a, b) = at-IsRouted returned id k c e h in
      (s, a, remove-Everywhere (Names c.allocated) c.pending_requests k.request.seq b)
  ended-IsRouted k (answered r) e h =
      traced_result-IsRouted k r
        (Reader.trace_answer to_string now k.request.command r (some elapsed) c.trace) e h

  finish_call-IsRouted :
      (o : Option Call)
      → ((k : Call) → o ≡ some k → get c.calls id ≡ some k)
      → IsRouted c
      → IsRouted (Reader.finish_call from_value to_string now elapsed id c o).0
  finish_call-IsRouted none f h = h
  finish_call-IsRouted (some k) f h = ended-IsRouted k k.channel (f k refl) h

module _ (codecs : Codecs) where
  pub step-IsRouted : (a : Action) (c : DapClient) → IsRouted c → IsRouted (step codecs a c)
  unfolding step Client.set_lib_lldb_path Send.register Send.write Reader.finish Reader.receive
      Reader.recv_event Reader.drain_events Reader.close
  step-IsRouted (Action.start now config spawn) c h =
      start-Frame IsRouted c h (λ r s b k t. h) now config spawn
  step-IsRouted (Action.set_lib_lldb_path path) c h = h
  step-IsRouted (Action.begin now command v) c h = begin-IsRouted now command v c h
  step-IsRouted (Action.register id) c h =
      register_call-IsRouted id c (enabled begun (get c.calls id))
        (enabled-some begun (get c.calls id)) h
  step-IsRouted (Action.write w id) c h =
      write_call-IsRouted codecs.to_vec w id c (enabled registered (get c.calls id))
        (enabled-some registered (get c.calls id)) h
  step-IsRouted (Action.finish now elapsed id) c h =
      finish_call-IsRouted codecs.from_value codecs.to_string now elapsed id c
        (enabled waiting (get c.calls id)) (enabled-some waiting (get c.calls id)) h
  step-IsRouted (Action.send_request_nb w command v) c h =
      send_request_nb-Frame IsRouted c (λ _. allocate-IsRouted c h) codecs.to_vec w command v
  step-IsRouted (Action.receive now m) c h =
      if_intro IsRouted (leb 1 c.readers) (on_message-IsRouted codecs.to_string now m c h) h
  step-IsRouted Action.recv_event c h = first_event-Frame IsRouted c (λ _. h) c.events
  step-IsRouted Action.drain_events c h = h
  step-IsRouted Action.close c h = h

  pub run-IsRouted : (l : List Action) (c : DapClient) → IsRouted c → IsRouted (run codecs l c)
  unfolding run
  run-IsRouted [] c h = h
  run-IsRouted (a ∷ l) c h = run-IsRouted l (step codecs a c) (step-IsRouted a c h)

pub new-IsRouted : (n : ℕ) (t : Option Trace) → IsRouted (Client.new n t)
unfolding Client.new number get
new-IsRouted n t = (refl, λ id k p. absurd (cc p), λ s id p. absurd (cc p))
