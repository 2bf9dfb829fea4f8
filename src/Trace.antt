-- ===== src/Trace.antt =====
-- crates/dap-trace: the entries, the handle that records them, and the background task that moves
-- them from the channel to the ring buffer and to the file. Times are numbers from a clock.
pub mod Ring
use Prim.Native.String.{len, ◌++◌ as string_append}
use mathlib.Core.Option.{map}
use text.Mathlib.Text.{get?}
use teledap.Prelude.{
  ℕ, String, Option, none, some, List, [], ◌∷◌, ◌++◌, arith, leb, length, take, drop, if◌then◌else◌,
  reverse,
}
use teledap.Dap.Json.{Json}

-- entry.rs
pub data TraceSource : Type 0 where
  dap_request dap_response dap_event mcp_trigger open_ocd_tx open_ocd_rx internal : TraceSource

pub data TraceDirection : Type 0 where
  inbound outbound : TraceDirection

-- The range of `i64` is not part of the model: durations are only passed on.
pub data ℤ : Type 0 where
  pos negsuc : ℕ → ℤ

pub record TraceEntry : Type 0 where
  pub timestamp : ℕ
  pub source : TraceSource
  pub direction : TraceDirection
  pub command : String
  pub payload : Option Json
  pub result : Option String
  pub duration_us : Option ℤ
  pub session_id : String
  pub seq : ℕ

-- What the handles and the task share: the channel, first sent first; the ring buffer, oldest first;
-- and the file, if it is open, with the entries that were written to it.
pub record Trace : Type 0 where
  pub channel : List TraceEntry
  pub ring : List TraceEntry
  pub file : Option (List TraceEntry)
  pub session_id : String

-- handle.rs
abbrev pub max_result_len : ℕ
max_result_len = 500

-- `none` stands for the panic of `&s[..max_len]` inside a character.
unfoldable pub truncate : String → ℕ → Option String
truncate s max_len =
    if leb (len s) max_len then some s else map (λ t. string_append t "…") (get? s 0 max_len)

-- Sending fails only when the task has ended, and the result is dropped.
unfoldable pub trace : Trace → TraceEntry → Trace
trace t entry = record t { channel = t.channel ++ entry ∷ [] }

-- The entry that the methods build, with the fields in which they differ.
abbrev pub entry_of :
    ℕ
    → TraceSource
    → TraceDirection
    → String
    → Option Json
    → Option String
    → Option ℤ
    → String
    → TraceEntry
entry_of now source direction command payload result duration session_id = record {
  timestamp = now;
  source = source;
  direction = direction;
  command = command;
  payload = payload;
  result = result;
  duration_us = duration;
  session_id = session_id;
  seq = 0;
}

unfoldable pub trace_request : ℕ → String → Option Json → Trace → Trace
trace_request now command payload t =
    trace t (entry_of now dap_request outbound command payload none none t.session_id)

unfoldable pub trace_event : ℕ → String → Option Json → Trace → Trace
trace_event now event body t =
    trace t (entry_of now dap_event inbound event body none none t.session_id)

unfoldable pub trace_internal : ℕ → String → Option Json → Trace → Trace
trace_internal now message payload t =
    trace t (entry_of now internal outbound message payload none none t.session_id)

-- `result.map(|s| truncate(&s, MAX_RESULT_LEN))`; `none` outside stands for its panic.
unfoldable pub truncated : Option String → Option (Option String)
truncated none = some none
truncated (some s) = map (λ t. some t) (truncate s max_result_len)

unfoldable pub trace_response : ℕ → String → Option String → Option ℤ → Trace → Option Trace
trace_response now command result duration t =
    map (λ r. trace t (entry_of now dap_response inbound command none r duration t.session_id))
      (truncated result)

unfoldable pub recent : Trace → ℕ → List TraceEntry
recent t count = take count (reverse t.ring)

unfoldable pub len_ring : Trace → ℕ
len_ring t = length t.ring

-- logger.rs
-- A full ring loses its oldest entry.
unfoldable pub push : ℕ → List TraceEntry → TraceEntry → List TraceEntry
push max_ring_size ring entry =
    (if leb max_ring_size (length ring) then drop 1 ring else ring) ++ entry ∷ []

-- How an attempt to append an entry to the file ends.
pub data Written : Type 0 where
  written write_failed not_serialized : Written

unfoldable pub append_to :
    Option (List TraceEntry) → TraceEntry → Written → Option (List TraceEntry)
append_to none entry w = none
append_to (some l) entry written = some (l ++ entry ∷ [])
append_to (some l) entry write_failed = none
append_to (some l) entry not_serialized = some l

abbrev pub turn : ℕ → Written → Trace → List TraceEntry → Trace
turn max_ring_size w t [] = t
turn max_ring_size w t (entry ∷ rest) = record t {
  channel = rest;
  ring = push max_ring_size t.ring entry;
  file = append_to t.file entry w;
}

-- One turn of the task's loop; with nothing in the channel it waits.
unfoldable pub consume : ℕ → Written → Trace → Trace
consume max_ring_size w t = turn max_ring_size w t t.channel
