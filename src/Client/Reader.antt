-- ===== src/Client/Reader.antt =====
-- What a reader task passes on, how a call of `send_request` ends, the event channel and the end of
-- `shutdown` (crates/dap-client/src/client.rs).
use mathlib.Core.Option.{map}
use teledap.Prelude.{
  ℕ, ◌-◌, String, false, Option, none, some, List, [], ◌∷◌, ◌++◌, Result, ok, err, leb,
  if◌then◌else◌, nat_eq,
}
use teledap.Dict.{Dict, get, insert, remove}
use teledap.Dap.Json.{Json, null}
use teledap.Dap.Base.{Response, Event, ProtocolMessage}
use teledap.Session.Calls.{DapClientError}
use DapClientError.{process_exited, json, dap_request_failed}
use teledap.Session.Events.{or_value}
use teledap.Trace.{Trace, ℤ, trace_response, trace_event}
use teledap.Client.{
  DapClient, Call, waiting, returned, Channel, empty, closed, answered, Outcome, waits, panics,
  returns, enabled,
}
use teledap.Client.Send.{at}

-- What `framed.next()` yields: a message, a framing error, or the end of the stream.
pub data Incoming : Type 0 where
  message : ProtocolMessage → Incoming
  bad_frame : String → Incoming
  end_of_stream : Incoming

abbrev pub send_answer : Response → Dict ℕ Call → ℕ → Option Call → Dict ℕ Call
send_answer r calls id none = calls
send_answer r calls id (some k) = insert calls id (record k { channel = answered r })

-- The waiter under the response's number gets it, if there is one.
abbrev pub deliver : Response → DapClient → Option ℕ → DapClient
deliver r c none = c
deliver r c (some id) = record c {
  pending_requests = remove c.pending_requests r.request_seq;
  calls = send_answer r c.calls id (get c.calls id);
}

-- A panic of the reader task ends it, as a framing error and the end of the stream do.
abbrev pub stop_reader : DapClient → DapClient
stop_reader c = record c { readers = c.readers - 1 }

-- `none` stands for the panic in the trace of a response.
abbrev pub trace_answer :
    (Json → String) → ℕ → String → Response → Option ℤ → Option Trace → Option (Option Trace)
trace_answer to_string now command r duration none = some none
trace_answer to_string now command r duration (some t) =
    map some (trace_response now command (map to_string r.body) duration t)

abbrev pub dispatch : Response → DapClient → Option (Option Trace) → DapClient
dispatch r c none = stop_reader c
dispatch r c (some t) = deliver r (record c { trace = t }) (get c.pending_requests r.request_seq)

-- `to_string` is the text of a JSON value.
module _ (to_string : Json → String) where
  unfoldable pub on_message : ℕ → Incoming → DapClient → DapClient
  on_message now (message (ProtocolMessage.request q)) c = c
  on_message now (message (ProtocolMessage.response r)) c =
      dispatch r c (trace_answer to_string now r.command r none c.trace)
  on_message now (message (ProtocolMessage.event e)) c = record c {
    trace = map (trace_event now e.event e.body) c.trace;
    events = c.events ++ e ∷ [];
  }
  on_message now (bad_frame e) c = stop_reader c
  on_message now end_of_stream c = stop_reader c

  -- One turn of a reader's loop, if there is a reader.
  unfoldable pub receive : ℕ → Incoming → DapClient → DapClient
  unfolding on_message
  receive now m c = if leb 1 c.readers then on_message now m c else c

-- `from_value` deserializes the body of a response.
module _ {A : Type 0} (from_value : Json → Result String A) where
  abbrev pub parse_body : Result String A → Result DapClientError A
  parse_body (ok a) = ok a
  parse_body (err e) = err (json e)

  -- What a call makes of its response.
  unfoldable pub result_of : String → Response → Result DapClientError A
  result_of command r =
      if r.success
      then parse_body (from_value (or_value r.body null))
      else err (dap_request_failed command (or_value r.message "unknown error"))

  abbrev pub traced_result :
      ℕ → Call → Response → DapClient → Option (Option Trace) → DapClient × Outcome A
  traced_result id k r c none = (at returned id k c, panics)
  traced_result id k r c (some t) =
      (at returned id k (record c { trace = t }), returns (result_of k.request.command r))

  abbrev pub ended :
      (Json → String) → ℕ → ℤ → ℕ → DapClient → Call → Channel → DapClient × Outcome A
  ended to_string now elapsed id c k empty = (c, waits)
  ended to_string now elapsed id c k closed = (
    record (at returned id k c) { pending_requests = remove c.pending_requests k.request.seq },
    returns (err (process_exited "adapter stdout stream closed before response")),
  )
  ended to_string now elapsed id c k (answered r) =
      traced_result id k r c (trace_answer to_string now k.request.command r (some elapsed) c.trace)

  abbrev pub finish_call :
      (Json → String) → ℕ → ℤ → ℕ → DapClient → Option Call → DapClient × Outcome A
  finish_call to_string now elapsed id c none = (c, waits)
  finish_call to_string now elapsed id c (some k) = ended to_string now elapsed id c k k.channel

  -- The end of `send_request`, from `rx.await` on.
  unfoldable pub finish : (Json → String) → ℕ → ℤ → ℕ → DapClient → DapClient × Outcome A
  unfolding result_of
  finish to_string now elapsed id c =
      finish_call to_string now elapsed id c (enabled waiting (get c.calls id))

abbrev pub first_event : DapClient → List Event → DapClient × Option Event
first_event c [] = (c, none)
first_event c (e ∷ es) = (record c { events = es }, some e)

-- `none` is a call that waits: the client keeps a sender, so the channel is never closed.
unfoldable pub recv_event : DapClient → DapClient × Option Event
recv_event c = first_event c c.events

unfoldable pub try_recv_event : DapClient → Option Event
try_recv_event c = none

unfoldable pub drain_events : DapClient → DapClient
drain_events c = record c { events = [] }

-- `shutdown` behind its `disconnect` request. The pipe to the child is kept.
unfoldable pub close : DapClient → DapClient
close c = record c { child = false; adapter_kind = none }
