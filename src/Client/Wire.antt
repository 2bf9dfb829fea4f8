-- ===== src/Client/Wire.antt =====
-- The bytes that the client of crates/dap-client/src/client.rs writes to its adapter.
use teledap.Prelude.{
  subst, ℕ, ◌<◌, ◌≡◌, refl, sym, ap, ◌∙◌, String, Option, none, some, List, [], ◌∷◌, ◌++◌,
  append-nil, Result, ok, err, nat_eq, Bool, true, false, leb, if_intro, if◌then◌else◌, All,
  some_inj,
}
use teledap.Dict.{get}
use teledap.Dap.Json.{Json}
use teledap.Dap.Base.{Request, Response, ProtocolMessage}
use teledap.Codec.{encode, encode_to_bytes, framed, buffer_of, frame}
use teledap.Codec.Decimal.{usize_bound}
use teledap.Codec.Stream.{Decodes, Fits, encode_all, decodes-encode_all, encode_all_last}
use teledap.Session.Calls.{DapClientError}
use teledap.Trace.{Trace, ℤ}
use teledap.Client
use teledap.Client.{
  DapClient, Call, Spawn, spawned, begun, registered, waiting, returned, Channel, empty, closed,
  answered, enabled,
}
use teledap.Client.Send
use teledap.Client.Send.{WriteResult, whole, broken}
use teledap.Client.Reader
use teledap.Client.Reader.{Incoming}
use teledap.Client.Actions.{Action, Codecs, step, run}

-- A step that starts a new adapter, which has read nothing.
abbrev opened : Spawn → List ProtocolMessage → List ProtocolMessage
opened spawned l = []
opened Client.no_stdin l = l
opened Client.no_stdout l = l
opened Client.no_stderr l = l
opened (Client.not_spawned e) l = l

module _ (to_vec : ProtocolMessage → Result String (List ℕ)) where
  abbrev serialized : Result String (List ℕ) → ProtocolMessage → List ProtocolMessage
  serialized (ok body) m = m ∷ []
  serialized (err e) m = []

  -- What a step writes, if the pipe is there and the message can be serialized.
  abbrev written : Option (List ℕ) → Request → List ProtocolMessage
  written none r = []
  written (some bytes) r =
      serialized (to_vec (ProtocolMessage.request r)) (ProtocolMessage.request r)

  abbrev call_written : DapClient → Option Call → List ProtocolMessage
  call_written c none = []
  call_written c (some k) = written c.stdin k.request

  -- The requests that the adapter has been sent since it was started.
  abbrev pub log : Action → DapClient → List ProtocolMessage → List ProtocolMessage
  log (Action.start now config spawn) c l = if c.child then l else opened spawn l
  log (Action.set_lib_lldb_path path) c l = l
  log (Action.begin now command v) c l = l
  log (Action.register id) c l = l
  log (Action.write w id) c l = l ++ call_written c (enabled registered (get c.calls id))
  log (Action.finish now elapsed id) c l = l
  log (Action.send_request_nb w command (err e)) c l = l
  log (Action.send_request_nb w command (ok v)) c l =
      l ++ written c.stdin (Send.request_of c.seq command v)
  log (Action.receive now m) c l = l
  log Action.recv_event c l = l
  log Action.drain_events c l = l
  log Action.close c l = l

  -- The pipe holds these requests, as the codec encodes them.
  abbrev Carries : List ProtocolMessage → DapClient → Type 0
  Carries l c = (bytes : List ℕ) → c.stdin ≡ some bytes → bytes ≡ encode_all to_vec l []

  write_buffer-Carries :
      (l : List ProtocolMessage) (m : ProtocolMessage) (c : DapClient) (bytes : List ℕ)
      (t : Result String (List ℕ))
      → c.stdin ≡ some bytes
      → to_vec m ≡ t
      → Carries l c
      → Carries (l ++ serialized t m) (Send.write_buffer whole bytes (buffer_of (framed [] t)) c).0
  write_buffer-Carries l m c bytes (err x) e p h = rw (append-nil l) h
  write_buffer-Carries l m c bytes (ok body) e p h = λ all q.
      sym (some_inj q)
      ∙ ap (λ b. b ++ frame body) (h bytes e)
      ∙ ap (λ t. (framed (encode_all to_vec l []) t).0) (sym p)
      ∙ unfold encode in refl ∙ sym (encode_all_last to_vec l m)

  write_to-Carries :
      (l : List ProtocolMessage) (r : Request) (w : WriteResult) (c : DapClient)
      (o : Option (List ℕ))
      → w ≡ whole
      → c.stdin ≡ o
      → Carries l c
      → Carries (l ++ written o r) (Send.write_to to_vec w r c o).0
  unfolding encode_to_bytes encode
  write_to-Carries l r w c none p e h = rw (append-nil l) h
  write_to-Carries l r (broken n x) c (some bytes) p e h = absurd (cc p)
  write_to-Carries l r whole c (some bytes) p e h =
      let m = ProtocolMessage.request r in write_buffer-Carries l m c bytes (to_vec m) e refl h

  sent-Carries :
      (l : List ProtocolMessage) (id : ℕ) (k : Call)
      (p : DapClient × Result DapClientError (Unit {0}))
      → Carries l p.0
      → Carries l (Send.sent to_vec id k p).0
  sent-Carries l id k (c, ok a) h = h
  sent-Carries l id k (c, err x) h = h

  write_call-Carries :
      (l : List ProtocolMessage) (w : WriteResult) (id : ℕ) (c : DapClient) (o : Option Call)
      → w ≡ whole
      → Carries l c
      → Carries (l ++ call_written c o) (Send.write_call to_vec w id c o).0
  unfolding Send.write_message
  write_call-Carries l w id c none p h = rw (append-nil l) h
  write_call-Carries l w id c (some k) p h =
      sent-Carries (l ++ written c.stdin k.request) id k (Send.write_message to_vec w k.request c)
        (write_to-Carries l k.request w c c.stdin p refl h)

  launch-Carries :
      (l : List ProtocolMessage) (now : ℕ) (config : Client.AdapterConfig) (spawn : Spawn)
      (c : DapClient)
      → Carries l c
      → Carries (opened spawn l) (Client.launch now config spawn c).0
  unfolding Client.launch encode_all
  launch-Carries l now config (Client.not_spawned e) c h = h
  launch-Carries l now config Client.no_stdout c h = h
  launch-Carries l now config Client.no_stdin c h = h
  launch-Carries l now config Client.no_stderr c h = h
  launch-Carries l now config spawned c h = λ bytes p. sym (some_inj p)

  start-Carries :
      (l : List ProtocolMessage) (now : ℕ) (config : Client.AdapterConfig) (spawn : Spawn)
      (c : DapClient) (e : DapClientError) (b : Bool)
      → Carries l c
      → Carries
          (if b then l else opened spawn l)
          (if b then (c, err e) else Client.launch now config spawn c).0
  start-Carries l now config spawn c e true h = h
  start-Carries l now config spawn c e false h = launch-Carries l now config spawn c h

  nb-Carries :
      (l : List ProtocolMessage) (w : WriteResult) (command : String) (v : Result String Json)
      (c : DapClient)
      → w ≡ whole
      → Carries l c
      → Carries
          (log (Action.send_request_nb w command v) c l)
          (Send.send_request_nb to_vec w command v c).0
  unfolding Send.send_request_nb Send.write_message
  nb-Carries l w command (err x) c p h = h
  nb-Carries l w command (ok v) c p h =
      write_to-Carries l (Send.request_of c.seq command v) w (Send.allocate c) c.stdin p refl h

  begin-Carries :
      (l : List ProtocolMessage) (now : ℕ) (command : String) (v : Result String Json)
      (c : DapClient)
      → Carries l c
      → Carries l (Send.begin now command v c).0
  unfolding Send.begin
  begin-Carries l now command (err x) c h = h
  begin-Carries l now command (ok v) c h = h

  register_call-Carries :
      (l : List ProtocolMessage) (id : ℕ) (c : DapClient) (o : Option Call)
      → Carries l c
      → Carries l (Send.register_call id c o)
  register_call-Carries l id c none h = h
  register_call-Carries l id c (some k) h = h

  deliver-Carries :
      (l : List ProtocolMessage) (r : Response) (c : DapClient) (o : Option ℕ)
      → Carries l c
      → Carries l (Reader.deliver r c o)
  deliver-Carries l r c none h = h
  deliver-Carries l r c (some id) h = h

  dispatch-Carries :
      (l : List ProtocolMessage) (r : Response) (c : DapClient) (o : Option (Option Trace))
      → Carries l c
      → Carries l (Reader.dispatch r c o)
  dispatch-Carries l r c none h = h
  dispatch-Carries l r c (some t) h =
      deliver-Carries l r (record c { trace = t }) (get c.pending_requests r.request_seq) h

  on_message-Carries :
      (l : List ProtocolMessage) (to_string : Json → String) (now : ℕ) (m : Incoming)
      (c : DapClient)
      → Carries l c
      → Carries l (Reader.on_message to_string now m c)
  unfolding Reader.on_message
  on_message-Carries l to_string now (Reader.message (ProtocolMessage.request q)) c h = h
  on_message-Carries l to_string now (Reader.message (ProtocolMessage.response r)) c h =
      dispatch-Carries l r c (Reader.trace_answer to_string now r.command r none c.trace) h
  on_message-Carries l to_string now (Reader.message (ProtocolMessage.event e)) c h = h
  on_message-Carries l to_string now (Reader.bad_frame e) c h = h
  on_message-Carries l to_string now Reader.end_of_stream c h = h

  module _ {A : Type 0} (from_value : Json → Result String A) (to_string : Json → String) where
    traced_result-Carries :
        (l : List ProtocolMessage) (id : ℕ) (k : Call) (r : Response) (c : DapClient)
        (o : Option (Option Trace))
        → Carries l c
        → Carries l (Reader.traced_result from_value id k r c o).0
    traced_result-Carries l id k r c none h = h
    traced_result-Carries l id k r c (some t) h = h

    ended-Carries :
        (l : List ProtocolMessage) (now : ℕ) (elapsed : ℤ) (id : ℕ) (c : DapClient) (k : Call)
        (ch : Channel)
        → Carries l c
        → Carries l (Reader.ended from_value to_string now elapsed id c k ch).0
    ended-Carries l now elapsed id c k empty h = h
    ended-Carries l now elapsed id c k closed h = h
    ended-Carries l now elapsed id c k (answered r) h =
        traced_result-Carries l id k r c
          (Reader.trace_answer to_string now k.request.command r (some elapsed) c.trace) h

    finish_call-Carries :
        (l : List ProtocolMessage) (now : ℕ) (elapsed : ℤ) (id : ℕ) (c : DapClient)
        (o : Option Call)
        → Carries l c
        → Carries l (Reader.finish_call from_value to_string now elapsed id c o).0
    finish_call-Carries l now elapsed id c none h = h
    finish_call-Carries l now elapsed id c (some k) h =
        ended-Carries l now elapsed id c k k.channel h

  first_event-Carries :
      (l : List ProtocolMessage) (c : DapClient) (es : List Client.Event)
      → Carries l c
      → Carries l (Reader.first_event c es).0
  first_event-Carries l c [] h = h
  first_event-Carries l c (e ∷ es) h = h

-- A step whose writing, if there is any, is not cut short.
abbrev pub IsWhole : Action → Type 0
IsWhole (Action.write w id) = w ≡ whole
IsWhole (Action.send_request_nb w command v) = w ≡ whole
IsWhole (Action.start now config spawn) = Unit {0}
IsWhole (Action.set_lib_lldb_path path) = Unit {0}
IsWhole (Action.begin now command v) = Unit {0}
IsWhole (Action.register id) = Unit {0}
IsWhole (Action.finish now elapsed id) = Unit {0}
IsWhole (Action.receive now m) = Unit {0}
IsWhole Action.recv_event = Unit {0}
IsWhole Action.drain_events = Unit {0}
IsWhole Action.close = Unit {0}

module _ (codecs : Codecs) where
  step-Carries :
      (a : Action) (c : DapClient) (l : List ProtocolMessage)
      → IsWhole a
      → Carries codecs.to_vec l c
      → Carries codecs.to_vec (log codecs.to_vec a c l) (step codecs a c)
  unfolding step Client.start Client.is_running Client.set_lib_lldb_path Send.register Send.write
      Reader.finish Reader.receive Reader.recv_event Reader.drain_events Reader.close
  step-Carries (Action.start now config spawn) c l w h =
      start-Carries codecs.to_vec l now config spawn c
        (DapClientError.spawn_failed "adapter is already running") c.child h
  step-Carries (Action.set_lib_lldb_path path) c l w h = h
  step-Carries (Action.begin now command v) c l w h =
      begin-Carries codecs.to_vec l now command v c h
  step-Carries (Action.register id) c l w h =
      register_call-Carries codecs.to_vec l id c (enabled begun (get c.calls id)) h
  step-Carries (Action.write w id) c l p h =
      write_call-Carries codecs.to_vec l w id c (enabled registered (get c.calls id)) p h
  step-Carries (Action.finish now elapsed id) c l w h =
      finish_call-Carries codecs.to_vec codecs.from_value codecs.to_string l now elapsed id c
        (enabled waiting (get c.calls id)) h
  step-Carries (Action.send_request_nb w command v) c l p h =
      nb-Carries codecs.to_vec l w command v c p h
  step-Carries (Action.receive now m) c l w h =
      if_intro (Carries codecs.to_vec l) (leb 1 c.readers)
        (on_message-Carries codecs.to_vec l codecs.to_string now m c h) h
  step-Carries Action.recv_event c l w h = first_event-Carries codecs.to_vec l c c.events h
  step-Carries Action.drain_events c l w h = h
  step-Carries Action.close c l w h = h

  -- The requests of a history.
  unfoldable pub sent_requests :
      List Action → DapClient → List ProtocolMessage → List ProtocolMessage
  sent_requests [] c l = l
  sent_requests (a ∷ history) c l =
      sent_requests history (step codecs a c) (log codecs.to_vec a c l)

  run-Carries :
      (history : List Action) (c : DapClient) (l : List ProtocolMessage)
      → All IsWhole history
      → Carries codecs.to_vec l c
      → Carries codecs.to_vec (sent_requests history c l) (run codecs history c)
  unfolding run sent_requests
  run-Carries [] c l w h = h
  run-Carries (a ∷ history) c l (w, ws) h =
      run-Carries history (step codecs a c) (log codecs.to_vec a c l) ws (step-Carries a c l w h)

-- In every history, traced or not, in which no writing is cut short, however the calls, the readers and the callers
-- interleave, an adapter that reads its pipe with the decoder gets the requests that were written since
-- it was started, in the order of their writing, and nothing else, if their JSON keeps the decoder's
-- size limit, which is below 2 ^ 64, and is read back to them.
pub run-Decodes :
    (codecs : Codecs) (from_slice : List ℕ → Result String ProtocolMessage) (max_frame_size n : ℕ)
    (trace : Option Trace) (history : List Action) (bytes : List ℕ)
    → max_frame_size < usize_bound
    → All IsWhole history
    → (run codecs history (Client.new n trace)).stdin ≡ some bytes
    → All
        (Fits codecs.to_vec from_slice max_frame_size)
        (sent_requests codecs history (Client.new n trace) [])
    → Decodes from_slice max_frame_size bytes
        (sent_requests codecs history (Client.new n trace) [])
        []
run-Decodes codecs from_slice max_frame_size n trace history bytes b w p f =
    let ms = sent_requests codecs history (Client.new n trace) [] in
    let carries =
      run-Carries codecs history (Client.new n trace) [] w
        (unfold Client.new in λ d q. absurd (cc q)) in
    subst (λ s. Decodes from_slice max_frame_size s ms [])
      (append-nil (encode_all codecs.to_vec ms []) ∙ sym (carries bytes p))
      (decodes-encode_all codecs.to_vec from_slice max_frame_size ms [] b f)
