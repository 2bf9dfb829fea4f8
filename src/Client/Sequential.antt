-- ===== src/Client/Sequential.antt =====
-- One call of `send_request` from its start to its end (crates/dap-client/src/client.rs), with what the
-- readers get while it waits.
use teledap.Prelude.{
  ℕ, ◌≡◌, ◌≢◌, refl, sym, ap, ◌∙◌, String, Option, none, some, List, [], ◌∷◌, Result, ok, err,
  nat_eq, inl, inr, Bool-cases, ◌==◌, eq_of_beq, ne_of_beq,
}
use teledap.Dict.{Dict, get, remove, get-insert_ne, get-remove_self, get-remove_ne}
use teledap.Dap.Json.{Json}
use teledap.Dap.Base.{Response, ProtocolMessage}
use teledap.Session.Calls.{DapClientError}
use teledap.Trace.{Trace, ℤ}
use teledap.Client.{DapClient, Call, answered, Outcome, waits, panics, returns}
use teledap.Client.Send
use teledap.Client.Send.{number, request_of}
use teledap.Client.Reader
use teledap.Client.Reader.{Incoming, message}
use teledap.Client.Actions.{Codecs}

module _ (codecs : Codecs) where
  -- What the readers get, with the times.
  unfoldable pub receive_all : List (ℕ × Incoming) → DapClient → DapClient
  receive_all [] c = c
  receive_all ((now, m) ∷ ms) c = receive_all ms (Reader.receive codecs.to_string now m c)

  abbrev pub await :
      ℕ
      → ℤ
      → ℕ
      → List (ℕ × Incoming)
      → DapClient × Outcome (Unit {0})
      → DapClient × Outcome codecs.Body
  await later elapsed id incoming (c, waits) =
      Reader.finish codecs.from_value codecs.to_string later elapsed id (receive_all incoming c)
  await later elapsed id incoming (c, panics) = (c, panics)
  await later elapsed id incoming (c, returns (ok a)) =
      Reader.finish codecs.from_value codecs.to_string later elapsed id (receive_all incoming c)
  await later elapsed id incoming (c, returns (err e)) = (c, returns (err e))

  abbrev pub send :
      Send.WriteResult
      → ℕ
      → ℤ
      → List (ℕ × Incoming)
      → DapClient × Result DapClientError ℕ
      → DapClient × Outcome codecs.Body
  send w later elapsed incoming (c, err e) = (c, returns (err e))
  send w later elapsed incoming (c, ok id) =
      await later elapsed id incoming (Send.write codecs.to_vec w id (Send.register id c))

  -- The call with no other call in between, from the time `now` on; `later` is when it ends.
  unfoldable pub send_request :
      ℕ
      → ℕ
      → ℤ
      → String
      → Result String Json
      → Send.WriteResult
      → List (ℕ × Incoming)
      → DapClient
      → DapClient × Outcome codecs.Body
  unfolding receive_all
  send_request now later elapsed command arguments w incoming c =
      send w later elapsed incoming (Send.begin now command arguments c)

-- A message that does not answer the call with the number `s`: another response, an event or a request.
abbrev pub Other : ℕ → ℕ × Incoming → Type 0
Other s (now, message (ProtocolMessage.response r)) = r.request_seq ≢ s
Other s (now, message (ProtocolMessage.event e)) = Unit
Other s (now, message (ProtocolMessage.request q)) = Unit
Other s (now, _) = ⊥

pub send_answer-ne :
    (r : Response) (calls : Dict ℕ Call) (i id : ℕ) (o : Option Call)
    → i ≢ id
    → get (Reader.send_answer r calls i o) id ≡ get calls id
send_answer-ne r calls i id none n = refl
send_answer-ne r calls i id (some k) n =
    get-insert_ne calls i id (record k { channel = answered r }) n

-- Without a trace a response is delivered.
pub dispatch_untraced :
    (to_string : Json → String) (now : ℕ) (command : String) (r : Response) (c : DapClient)
    (t : Option Trace)
    → t ≡ none
    → Reader.dispatch r c (Reader.trace_answer to_string now command r none t)
      ≡ Reader.deliver r (record c { trace = none }) (get c.pending_requests r.request_seq)
dispatch_untraced to_string now command r c none h = refl
dispatch_untraced to_string now command r c (some t) h = absurd (cc h)

-- What a delivery to another call leaves as it is.
module _ (r : Response) (c : DapClient) (id : ℕ) where
  pub deliver-calls :
      (o : Option ℕ)
      → ((i : ℕ) → o ≡ some i → i ≢ id)
      → get (Reader.deliver r c o).calls id ≡ get c.calls id
  deliver-calls none f = refl
  deliver-calls (some i) f = send_answer-ne r c.calls i id (get c.calls i) (f i refl)

  pub deliver-pending_ne :
      (o : Option ℕ) (s : ℕ)
      → r.request_seq ≢ s
      → get (Reader.deliver r c o).pending_requests s ≡ get c.pending_requests s
  deliver-pending_ne none s n = refl
  deliver-pending_ne (some i) s n = get-remove_ne c.pending_requests r.request_seq s n

  pub deliver-readers : (o : Option ℕ) → (Reader.deliver r c o).readers ≡ c.readers
  deliver-readers none = refl
  deliver-readers (some i) = refl

  pub deliver-trace : (o : Option ℕ) → (Reader.deliver r c o).trace ≡ c.trace
  deliver-trace none = refl
  deliver-trace (some i) = refl

  pub deliver-pending_none :
      (o : Option ℕ) (s : ℕ)
      → get c.pending_requests s ≡ none
      → get (Reader.deliver r c o).pending_requests s ≡ none
  deliver-pending_none none s p = p
  deliver-pending_none (some i) s p = elim (Bool-cases (r.request_seq == s)) [
    | inl q ↦
        ap (λ y. get (remove c.pending_requests r.request_seq) y)
          (sym (eq_of_beq r.request_seq s q))
        ∙ get-remove_self c.pending_requests r.request_seq
    | inr q ↦ get-remove_ne c.pending_requests r.request_seq s (ne_of_beq r.request_seq s q) ∙ p
  ]
