-- ===== src/Checks/Client.antt =====
-- Tests of the client and instances of its theorems.
use teledap.Prelude.{
  ℕ, String, string_eq, nat_eq, true, ◌≡◌, ◌≢◌, refl, none, some, List, [], ◌∷◌, arith, Result, ok,
  err,
}
use teledap.Dict.{get, insert, remove}
use teledap.Dap.Json.{Json, null}
use teledap.Dap.Base.{Response, ProtocolMessage}
use teledap.Session.Calls.{AdapterConfig, gdb, DapClientError}
use DapClientError.{process_exited}
use teledap.Trace.{pos}
use teledap.Codec.{encode, encode_to_bytes, frame}
use teledap.Client
use teledap.Client.{DapClient, Call, waiting, empty, closed, answered, waits, returns, spawned}
use teledap.Client.Send
use teledap.Client.Send.{whole, number, request_of}
use teledap.Client.Reader
use teledap.Client.Reader.{message, end_of_stream}
use teledap.Client.Actions.{Action, Codecs, step, run}
use Action.{start, begin, register, write, receive}
use teledap.Client.Live.{run-answered, run-number}
use teledap.Client.Open.{finish-run}
use teledap.Client.Hangs.{finish-run_hung}
use teledap.Client.Sequential.{send_request}
use teledap.Client.Answer.{send_request-result_of}

abbrev pub text : Json → String
text j = "null"

abbrev pub body : Json → Result String (Unit {0})
body j = ok tt

abbrev bytes : ProtocolMessage → Result String (List ℕ)
bytes m = ok (123 ∷ 125 ∷ [])

abbrev codecs : Codecs
codecs = record { Body = Unit {0}; to_vec = bytes; to_string = text; from_value = body }

abbrev config : AdapterConfig
config = record { path = "gdb"; kind = gdb; args = [] }

abbrev response_to : ℕ → Response
response_to n = record {
  seq = 7;
  request_seq = n;
  success = true;
  command = "threads";
  message = none;
  body = none;
}

abbrev started : List Action
started = start 0 config spawned ∷ []

-- Two requests; the second is sent first and answered first.
abbrev pub two_calls : List Action
two_calls =
    start 0 config spawned
    ∷ begin 1 "threads" (ok null)
    ∷ begin 2 "scopes" (ok null)
    ∷ register 1
    ∷ write whole 1
    ∷ register 0
    ∷ write whole 0
    ∷ receive 3 (message (ProtocolMessage.response (response_to 2)))
    ∷ []

-- The first request waits when the adapter's output ends.
abbrev cut_off : List Action
cut_off =
    start 0 config spawned
    ∷ begin 1 "threads" (ok null)
    ∷ register 0
    ∷ write whole 0
    ∷ receive 2 end_of_stream
    ∷ []

abbrev call : ℕ → String → Client.Stage → Client.Channel → Call
call n command stage channel = record {
  request = record { seq = n; command = command; arguments = some null };
  stage = stage;
  channel = channel;
}

found_second :
    get (run codecs two_calls (Client.new 100 none)).calls 1
    ≡ some (call 2 "scopes" waiting (answered (response_to 2)))
unfolding run step Client.new Client.start Client.launch Client.is_running Send.begin Send.register
    Send.write Send.write_message Reader.receive Reader.on_message get insert remove encode_to_bytes
    encode
found_second = refl

found_first :
    get (run codecs two_calls (Client.new 100 none)).calls 0 ≡ some (call 1 "threads" waiting empty)
unfolding run step Client.new Client.start Client.launch Client.is_running Send.begin Send.register
    Send.write Send.write_message Reader.receive Reader.on_message get insert remove encode_to_bytes
    encode
found_first = refl

two_calls_taken : (run codecs two_calls (Client.new 100 none)).allocated ≡ 2
unfolding run step Client.new Client.start Client.launch Client.is_running Send.begin Send.register
    Send.write Send.write_message Reader.receive Reader.on_message get insert remove encode_to_bytes
    encode
two_calls_taken = refl

run-answered_example : (response_to 2).request_seq ≡ (call 2 "scopes" waiting empty).request.seq
run-answered_example =
    run-answered codecs 100 none two_calls 1 (call 2 "scopes" waiting (answered (response_to 2)))
      (response_to 2) found_second refl

run-number_example :
    (call 1 "threads" waiting empty).request.seq
    ≢ (call 2 "scopes" waiting (answered (response_to 2))).request.seq
run-number_example =
    run-number codecs 100 none two_calls 0 1 (call 1 "threads" waiting empty)
      (call 2 "scopes" waiting (answered (response_to 2))) (omega (arith, two_calls_taken))
      found_first found_second (λ e. omega (arith, e))

finish-run_example :
    (Reader.finish body text 9 (pos 5) 0 (run codecs two_calls (Client.new 100 none))).1
    ≢ returns (err (process_exited "adapter stdout stream closed before response"))
finish-run_example =
    finish-run codecs 100 none two_calls 9 (pos 5) 0 "adapter stdout stream closed before response"
      (omega (arith, two_calls_taken))

none_when_cut : (run codecs cut_off (Client.new 100 none)).readers ≡ 0
unfolding run step Client.new Client.start Client.launch Client.is_running Send.begin Send.register
    Send.write Send.write_message Reader.receive Reader.on_message get insert encode_to_bytes encode
none_when_cut = refl

first_when_cut :
    get (run codecs cut_off (Client.new 100 none)).calls 0 ≡ some (call 1 "threads" waiting empty)
unfolding run step Client.new Client.start Client.launch Client.is_running Send.begin Send.register
    Send.write Send.write_message Reader.receive Reader.on_message get insert encode_to_bytes encode
first_when_cut = refl

-- A shutdown after it.
abbrev later : List Action
later = begin 5 "disconnect" (ok null) ∷ register 1 ∷ write whole 1 ∷ Action.close ∷ []

later_taken : (run codecs later (run codecs cut_off (Client.new 100 none))).allocated ≡ 2
unfolding run step Client.new Client.start Client.launch Client.is_running Send.begin Send.register
    Send.write Send.write_message Reader.receive Reader.on_message get insert encode_to_bytes encode
    Client.Reader.close
later_taken = refl

finish-run_hung_example :
    (Reader.finish body text 9
      (pos 5)
      0
      (run codecs later (run codecs cut_off (Client.new 100 none)))).1
    ≡ waits
finish-run_hung_example =
    finish-run_hung codecs 100 none cut_off later 0 (call 1 "threads" waiting empty) 9 (pos 5)
      none_when_cut first_when_cut refl refl (refl, (refl, (refl, (refl, tt))))
      (omega (arith, later_taken))

started_stdin : (run codecs started (Client.new 100 none)).stdin ≡ some []
unfolding run step Client.new Client.start Client.launch Client.is_running
started_stdin = refl

started_seq : (run codecs started (Client.new 100 none)).seq ≡ 1
unfolding run step Client.new Client.start Client.launch Client.is_running
started_seq = refl

-- A response to another request comes first, and the adapter's output ends behind the response.
send_request-result_of_example :
    let (c', o) =
      send_request codecs 1 9
        (pos 5)
        "threads"
        (ok null)
        whole
        ((2, message (ProtocolMessage.response (response_to 4)))
          ∷ (3, message (ProtocolMessage.response (response_to 1)))
          ∷ (4, end_of_stream)
          ∷ [])
        (run codecs started (Client.new 100 none)) in
    (o ≡ returns (Reader.result_of body "threads" (response_to 1)))
    × (get c'.pending_requests (run codecs started (Client.new 100 none)).seq ≡ none)
unfolding run step Client.new Client.start Client.launch Client.is_running encode_to_bytes encode
send_request-result_of_example =
    send_request-result_of codecs 100 started 1 9 (pos 5) "threads" null [] (frame (123 ∷ 125 ∷ []))
      3 (response_to 1) ((2, message (ProtocolMessage.response (response_to 4))) ∷ [])
      ((4, end_of_stream) ∷ []) refl refl refl refl ((λ e. omega (arith, e)), tt) refl
