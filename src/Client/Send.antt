-- ===== src/Client/Send.antt =====
-- The sending half of `send_request`, and `send_request_nb` (crates/dap-client/src/client.rs).
use mathlib.Core.Option.{map}
use teledap.Prelude.{
  ℕ, suc, ◌+◌, ◌%◌, ◌^◌, String, Option, none, some, List, ◌++◌, Result, ok, err, take, nat_eq,
}
use teledap.Dict.{Dict, get, insert}
use teledap.Dap.Json.{Json}
use teledap.Dap.Base.{Request, ProtocolMessage}
use teledap.Codec.{encode_to_bytes}
use teledap.Session.Calls.{DapClientError}
use DapClientError.{not_connected, dap_protocol, io, json}
use teledap.Trace.{trace_request}
use teledap.Client.{
  DapClient, Call, Stage, begun, registered, waiting, returned, Channel, empty, closed, answered,
  Outcome, waits, returns, enabled,
}

-- The number of the call after `n` others, which wraps around.
unfoldable pub number : ℕ → ℕ
number n = (1 + n) % 2 ^ 64

-- `fetch_add`
abbrev pub allocate : DapClient → DapClient
allocate c = record c { seq = (c.seq + 1) % 2 ^ 64; allocated = suc c.allocated }

abbrev pub request_of : ℕ → String → Json → Request
request_of seq command v = record { seq = seq; command = command; arguments = some v }

-- `send_request` up to the request: the call's name, or the error of the arguments' serialization.
unfoldable pub begin :
    ℕ → String → Result String Json → DapClient → DapClient × Result DapClientError ℕ
begin now command (err e) c = (allocate c, err (json e))
begin now command (ok v) c = (
  record (allocate c) {
    trace = map (trace_request now command (some v)) c.trace;
    calls =
        insert c.calls c.allocated
          (record { request = request_of c.seq command v; stage = begun; channel = empty });
  },
  ok c.allocated,
)

-- Dropping a sender closes its channel, unless it has sent.
abbrev pub close_channel : Channel → Channel
close_channel empty = closed
close_channel closed = closed
close_channel (answered r) = answered r

abbrev pub close_call : ℕ → Dict ℕ Call → Option Call → Dict ℕ Call
close_call id calls none = calls
close_call id calls (some k) = insert calls id (record k { channel = close_channel k.channel })

abbrev pub drop_sender : Option ℕ → Dict ℕ Call → Dict ℕ Call
drop_sender none calls = calls
drop_sender (some id) calls = close_call id calls (get calls id)

abbrev pub at : Stage → ℕ → Call → DapClient → DapClient
at stage id k c = record c { calls = insert c.calls id (record k { stage = stage }) }

-- The insertion into `pending_requests`, which drops a sender that stood under the number.
abbrev pub register_call : ℕ → DapClient → Option Call → DapClient
register_call id c none = c
register_call id c (some k) = record c {
  pending_requests = insert c.pending_requests k.request.seq id;
  calls =
      insert (drop_sender (get c.pending_requests k.request.seq) c.calls) id
        (record k { stage = registered });
}

unfoldable pub register : ℕ → DapClient → DapClient
register id c = register_call id c (enabled begun (get c.calls id))

-- How the writing of a buffer ends: all of it is written, or its first bytes and then an error.
pub data WriteResult : Type 0 where
  whole : WriteResult
  broken : ℕ → String → WriteResult

abbrev pub write_buffer :
    WriteResult
    → List ℕ
    → Result String (List ℕ)
    → DapClient
    → DapClient × Result DapClientError (Unit {0})
write_buffer w bytes (err e) c = (c, err (dap_protocol e))
write_buffer whole bytes (ok buf) c = (record c { stdin = some (bytes ++ buf) }, ok tt)
write_buffer (broken n e) bytes (ok buf) c =
    (record c { stdin = some (bytes ++ take n buf) }, err (io e))

-- `to_vec` is `serde_json::to_vec`.
module _ (to_vec : ProtocolMessage → Result String (List ℕ)) where
  abbrev pub write_to :
      WriteResult
      → Request
      → DapClient
      → Option (List ℕ)
      → DapClient × Result DapClientError (Unit {0})
  write_to w r c none = (c, err (not_connected "adapter not started"))
  write_to w r c (some bytes) =
      write_buffer w bytes (encode_to_bytes to_vec (ProtocolMessage.request r)) c

  unfoldable pub write_message :
      WriteResult → Request → DapClient → DapClient × Result DapClientError (Unit {0})
  write_message w r c = write_to w r c c.stdin

  -- After an error the call returns, and its number stays in `pending_requests`.
  abbrev pub sent :
      ℕ → Call → DapClient × Result DapClientError (Unit {0}) → DapClient × Outcome (Unit {0})
  sent id k (c, ok a) = (at waiting id k c, waits)
  sent id k (c, err e) = (at returned id k c, returns (err e))

  abbrev pub write_call : WriteResult → ℕ → DapClient → Option Call → DapClient × Outcome (Unit {0})
  write_call w id c none = (c, waits)
  write_call w id c (some k) = sent id k (write_message w k.request c)

  unfoldable pub write : WriteResult → ℕ → DapClient → DapClient × Outcome (Unit {0})
  unfolding write_message
  write w id c = write_call w id c (enabled registered (get c.calls id))

  unfoldable pub send_request_nb :
      WriteResult
      → String
      → Result String Json
      → DapClient
      → DapClient × Result DapClientError (Unit {0})
  unfolding write_message
  send_request_nb w command (err e) c = (allocate c, err (json e))
  send_request_nb w command (ok v) c = write_message w (request_of c.seq command v) (allocate c)
