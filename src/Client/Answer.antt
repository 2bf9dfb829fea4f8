-- ===== src/Client/Answer.antt =====
-- What one call of `send_request` returns (crates/dap-client/src/client.rs).
use mathlib.Core.Option.{map}
use teledap.Prelude.{
  ℕ, ◌≡◌, refl, sym, ap, ◌∙◌, subst, String, none, some, List, ◌∷◌, ◌++◌, Result, ok, nat_eq, true,
  leb, All,
}
use teledap.Dict.{get, insert, get-insert_self}
use teledap.Dap.Json.{Json}
use teledap.Dap.Base.{Response, ProtocolMessage}
use teledap.Codec.{encode_to_bytes}
use teledap.Trace.{ℤ, trace_request}
use teledap.Client
use teledap.Client.{
  DapClient, Call, Stage, begun, registered, waiting, returned, Channel, empty, closed, answered,
  Outcome, waits, panics, returns, enabled,
}
use teledap.Client.Send
use teledap.Client.Send.{number, request_of}
use teledap.Client.Reader
use teledap.Client.Reader.{Incoming, message}
use teledap.Client.Actions.{Action, Codecs, run}
use teledap.Client.Routing.{IsRouted, at-IsRouted, begin-IsRouted, register_call-IsRouted}
use teledap.Client.Histories.{run-IsRouted, new-IsRouted}
use teledap.Client.Sequential.{receive_all, await, send, send_request, Other}
use teledap.Client.Replies.{Awaits, answered-HasAnswer, finish-HasAnswer}

-- The steps from the start of the call to its waiting.
registering :
    (id : ℕ) (k : Call) (c : DapClient)
    → get c.calls id ≡ some k
    → k.stage ≡ begun
    → Send.register id c ≡ Send.register_call id c (some k)
unfolding Send.register
registering id k c p w =
    let found : enabled begun (get c.calls id) ≡ some k = rw (p, w) refl in
    ap (λ o. Send.register_call id c o) found

writing :
    (to_vec : ProtocolMessage → Result String (List ℕ)) (id : ℕ) (k : Call) (c : DapClient)
    (bytes buf : List ℕ)
    → get c.calls id ≡ some k
    → k.stage ≡ registered
    → c.stdin ≡ some bytes
    → encode_to_bytes to_vec (ProtocolMessage.request k.request) ≡ ok buf
    → Send.write to_vec Send.whole id c
      ≡ (Send.at waiting id k (record c { stdin = some (bytes ++ buf) }), waits)
unfolding Send.write Send.write_message
writing to_vec id k c bytes buf p w s e =
    let found : enabled registered (get c.calls id) ≡ some k = rw (p, w) refl in
    let written : Send.write_message to_vec Send.whole k.request c
        ≡ (record c { stdin = some (bytes ++ buf) }, ok tt) =
      ap (λ o. Send.write_to to_vec Send.whole k.request c o) s
      ∙ ap (λ b. Send.write_buffer Send.whole bytes b c) e in
    ap (λ o. Send.write_call to_vec Send.whole id c o) found
    ∙ ap (λ x. Send.sent to_vec id k x) written

-- The call that takes the next number, at a stage.
abbrev call_at : Stage → String → Json → DapClient → Call
call_at stage command v c = record {
  request = request_of c.seq command v;
  stage = stage;
  channel = empty;
}

-- The client when the call has been sent.
module _ (codecs : Codecs) (now : ℕ) (command : String) (v : Json) (c : DapClient) where
  abbrev begun_client : DapClient
  begun_client = record (Send.allocate c) {
    trace = map (trace_request now command (some v)) c.trace;
    calls = insert c.calls c.allocated (call_at begun command v c);
  }

  abbrev sent_client : List ℕ → DapClient
  sent_client bytes =
      Send.at waiting c.allocated (call_at registered command v c)
        (record (Send.register_call c.allocated begun_client (some (call_at begun command v c))) {
          stdin = some bytes;
        })

  begin-IsBegun : Send.begin now command (ok v) c ≡ (begun_client, ok c.allocated)
  unfolding Send.begin
  begin-IsBegun = refl

  registered_call :
      get
        (Send.register_call c.allocated begun_client (some (call_at begun command v c))).calls
        c.allocated
      ≡ some (call_at registered command v c)
  registered_call =
      get-insert_self (Send.drop_sender (get c.pending_requests c.seq) begun_client.calls)
        c.allocated (call_at registered command v c)

  write-sent :
      (bytes buf : List ℕ)
      → c.stdin ≡ some bytes
      → encode_to_bytes codecs.to_vec (ProtocolMessage.request (request_of c.seq command v))
        ≡ ok buf
      → Send.write codecs.to_vec Send.whole c.allocated (Send.register c.allocated begun_client)
        ≡ (sent_client (bytes ++ buf), waits)
  write-sent bytes buf s e =
      let k = call_at begun command v c in
      ap (λ d. Send.write codecs.to_vec Send.whole c.allocated d)
        (registering c.allocated k begun_client (get-insert_self c.calls c.allocated k) refl)
      ∙ writing codecs.to_vec c.allocated (call_at registered command v c)
          (Send.register_call c.allocated begun_client (some k)) bytes buf registered_call refl s e

  sent-Awaits :
      (bytes : List ℕ)
      → IsRouted c
      → leb 1 c.readers ≡ true
      → c.trace ≡ none
      → Awaits codecs c.allocated (call_at waiting command v c) (sent_client bytes)
  unfolding Send.begin
  sent-Awaits bytes g l t =
      let k = call_at begun command v c in
      let d = record (Send.register_call c.allocated begun_client (some k)) {
        stdin = some bytes;
      } in
      (
        at-IsRouted waiting c.allocated (call_at registered command v c) d registered_call (
            register_call-IsRouted c.allocated begun_client (some k)
              (λ j p. get-insert_self c.calls c.allocated k ∙ p)
              (begin-IsRouted now command (ok v) c g)),
        l,
        ap (λ x. map (trace_request now command (some v)) x) t,
        get-insert_self d.calls c.allocated (call_at waiting command v c),
        ap (λ s. get (insert c.pending_requests c.seq c.allocated) s) (sym g.0)
            ∙ get-insert_self c.pending_requests c.seq c.allocated,
      )

-- A request that is sent to a running adapter, with tracing off, returns what the first response with
-- its number says, whatever other responses, events and requests the adapter sends before it and
-- whatever comes after it, and its number is no longer waited for.
pub send_request-result_of :
    (codecs : Codecs) (n : ℕ) (history : List Action) (now later : ℕ) (elapsed : ℤ)
    (command : String) (v : Json) (bytes buf : List ℕ) (t : ℕ) (r : Response)
    (before after : List (ℕ × Incoming))
    → let c = run codecs history (Client.new n none) in
      c.stdin ≡ some bytes
      → leb 1 c.readers ≡ true
      → c.trace ≡ none
      → encode_to_bytes codecs.to_vec (ProtocolMessage.request (request_of c.seq command v))
        ≡ ok buf
      → All (Other c.seq) before
      → r.request_seq ≡ c.seq
      → let (c', o) =
          send_request codecs now later elapsed command
            (ok v)
            Send.whole
            (before ++ (t, message (ProtocolMessage.response r)) ∷ after)
            c in
        (o ≡ returns (Reader.result_of codecs.from_value command r))
        × (get c'.pending_requests c.seq ≡ none)
unfolding send_request
send_request-result_of codecs n history now later elapsed command v bytes buf t r before after p l f
      e a s =
    let c = run codecs history (Client.new n none) in
    let g = run-IsRouted codecs history (Client.new n none) (new-IsRouted n none) in
    let answers = before ++ (t, message (ProtocolMessage.response r)) ∷ after in
    let id = c.allocated in
    let k = call_at waiting command v c in
    let held =
      answered-HasAnswer codecs id k t r before after
        (sent_client codecs now command v c (bytes ++ buf))
        (subst (λ x. All (Other x) before) g.0 a) (s ∙ g.0)
        (sent-Awaits codecs now command v c (bytes ++ buf) g l f) in
    let (result, gone) =
      finish-HasAnswer codecs id k r later elapsed
        (receive_all codecs answers (sent_client codecs now command v c (bytes ++ buf))) refl
        held in
    let started =
      ap (λ x. send codecs Send.whole later elapsed answers x)
        (begin-IsBegun codecs now command v c)
      ∙ ap (λ x. await codecs later elapsed id answers x)
          (write-sent codecs now command v c bytes buf p e) in
    rw started (
      result,
      ap
            (λ x.
              get
                (Reader.finish codecs.from_value codecs.to_string later elapsed id (
                  receive_all codecs answers
                    (sent_client codecs now command v c (bytes ++ buf)))).0.pending_requests
                x)
            g.0
          ∙ gone,
    )
