-- ===== src/Client/Replies.antt =====
-- The messages that a waiting call of crates/dap-client/src/client.rs sees until it has its response.
use mathlib.Core.Option.{map}
use teledap.Prelude.{
  ℕ, ◌≡◌, ◌≢◌, refl, sym, ap, ◌∙◌, Option, none, some, List, [], ◌∷◌, ◌++◌, nat_eq, true, leb,
  if_intro, some_inj, All,
}
use teledap.Dict.{get, remove, get-insert_self, get-remove_self}
use teledap.Dap.Base.{Response, Event, ProtocolMessage}
use teledap.Trace.{ℤ, trace_event}
use teledap.Client.{DapClient, Call, waiting, answered, returns, enabled}
use teledap.Client.Send.{number}
use teledap.Client.Reader
use teledap.Client.Reader.{Incoming, message}
use teledap.Client.Actions.{Codecs}
use teledap.Client.Routing.{IsRouted, deliver-IsRouted}
use teledap.Client.Sequential.{
  receive_all, Other, dispatch_untraced, deliver-calls, deliver-pending_ne, deliver-readers,
  deliver-trace, deliver-pending_none,
}

module _ (codecs : Codecs) (id : ℕ) (k : Call) where
  -- The call waits, and a reader runs.
  abbrev pub Awaits : DapClient → Type 0
  Awaits c =
      IsRouted c
      × (leb 1 c.readers ≡ true)
      × (c.trace ≡ none)
      × (get c.calls id ≡ some k)
      × (get c.pending_requests (number id) ≡ some id)

  -- The call has its response.
  abbrev pub HasAnswer : Response → DapClient → Type 0
  HasAnswer r c =
      IsRouted c
      × (c.trace ≡ none)
      × (get c.calls id ≡ some (record k { channel = answered r }))
      × (get c.pending_requests (number id) ≡ none)

  other-Awaits :
      (now : ℕ) (r : Response) (c : DapClient)
      → r.request_seq ≢ number id
      → Awaits c
      → Awaits (Reader.on_message codecs.to_string now (message (ProtocolMessage.response r)) c)
  unfolding Reader.on_message
  other-Awaits now r c n (g, l, t, p, q) =
      let o = get c.pending_requests r.request_seq in
      let d = record c { trace = none } in
      let other : (i : ℕ) → o ≡ some i → i ≢ id =
        λ i e x. n ((g.2 r.request_seq i e).1 ∙ ap number x) in
      rw (dispatch_untraced codecs.to_string now r.command r c c.trace t) (
        deliver-IsRouted r d o (λ i e. e) g,
        ap (λ x. leb 1 x) (deliver-readers r d id o) ∙ l,
        deliver-trace r d id o,
        deliver-calls r d id o other ∙ p,
        deliver-pending_ne r d id o (number id) n ∙ q,
      )

  event-Awaits :
      (now : ℕ) (e : Event) (c : DapClient)
      → Awaits c
      → Awaits (Reader.on_message codecs.to_string now (message (ProtocolMessage.event e)) c)
  unfolding Reader.on_message
  event-Awaits now e c (g, l, t, p, q) =
      (g, l, ap (λ x. map (trace_event now e.event e.body) x) t, p, q)

  receive-Awaits :
      (m : ℕ × Incoming) (c : DapClient)
      → Other (number id) m
      → Awaits c
      → Awaits (Reader.receive codecs.to_string m.0 m.1 c)
  unfolding Reader.receive Reader.on_message
  receive-Awaits (now, message (ProtocolMessage.response r)) c n h =
      rw h.1 (other-Awaits now r c n h)
  receive-Awaits (now, message (ProtocolMessage.event e)) c n h = rw h.1 (event-Awaits now e c h)
  receive-Awaits (now, message (ProtocolMessage.request x)) c n h = rw h.1 h
  receive-Awaits (now, Reader.bad_frame e) c n h = absurd n
  receive-Awaits (now, Reader.end_of_stream) c n h = absurd n

  receive_all-Awaits :
      (ms : List (ℕ × Incoming)) (c : DapClient)
      → All (Other (number id)) ms
      → Awaits c
      → Awaits (receive_all codecs ms c)
  unfolding receive_all
  receive_all-Awaits [] c a h = h
  receive_all-Awaits ((now, m) ∷ ms) c (n, a) h =
      receive_all-Awaits ms (Reader.receive codecs.to_string now m c) a
        (receive-Awaits (now, m) c n h)

  deliver-HasAnswer :
      (r : Response) (c : DapClient) (o : Option ℕ) (j : Option Call)
      → o ≡ some id
      → j ≡ some k
      → get c.calls id ≡ j
      → r.request_seq ≡ number id
      → IsRouted (Reader.deliver r c o)
      → c.trace ≡ none
      → HasAnswer r (Reader.deliver r c o)
  deliver-HasAnswer r c none j f g e s i t = absurd (cc f)
  deliver-HasAnswer r c (some i) j f g e s h t =
      let x : i ≡ id = some_inj f in
      let found : get c.calls i ≡ some k = ap (λ y. get c.calls y) x ∙ e ∙ g in
      (
        h,
        t,
        rw (found, x) (get-insert_self c.calls id (record k { channel = answered r })),
        ap (λ y. get (remove c.pending_requests r.request_seq) y) (sym s)
            ∙ get-remove_self c.pending_requests r.request_seq,
      )

  -- The response comes.
  answer-HasAnswer :
      (now : ℕ) (r : Response) (c : DapClient)
      → r.request_seq ≡ number id
      → Awaits c
      → HasAnswer r (Reader.receive codecs.to_string now (message (ProtocolMessage.response r)) c)
  unfolding Reader.receive Reader.on_message
  answer-HasAnswer now r c s (g, l, t, p, q) =
      let o = get c.pending_requests r.request_seq in
      let d = record c { trace = none } in
      rw (l, dispatch_untraced codecs.to_string now r.command r c c.trace t)
        (deliver-HasAnswer r d o (some k) (ap (λ y. get c.pending_requests y) s ∙ q) refl p s
          (deliver-IsRouted r d o (λ i e. e) g) refl)

  late-HasAnswer :
      (r x : Response) (now : ℕ) (c : DapClient)
      → HasAnswer r c
      → HasAnswer r
          (Reader.on_message codecs.to_string now (message (ProtocolMessage.response x)) c)
  unfolding Reader.on_message
  late-HasAnswer r x now c (g, t, p, q) =
      let o = get c.pending_requests x.request_seq in
      let d = record c { trace = none } in
      let other : (i : ℕ) → o ≡ some i → i ≢ id = λ i e y.
        let z : x.request_seq ≡ number id = (g.2 x.request_seq i e).1 ∙ ap number y in
        cc (e, ap (λ w. get c.pending_requests w) z, q) in
      rw (dispatch_untraced codecs.to_string now x.command x c c.trace t) (
        deliver-IsRouted x d o (λ i e. e) g,
        deliver-trace x d id o,
        deliver-calls x d id o other ∙ p,
        deliver-pending_none x d id o (number id) q,
      )

  message-HasAnswer :
      (r : Response) (now : ℕ) (m : Incoming) (c : DapClient)
      → HasAnswer r c
      → HasAnswer r (Reader.on_message codecs.to_string now m c)
  unfolding Reader.on_message
  message-HasAnswer r now (message (ProtocolMessage.response x)) c h = late-HasAnswer r x now c h
  message-HasAnswer r now (message (ProtocolMessage.event e)) c (g, t, p, q) =
      (g, ap (λ x. map (trace_event now e.event e.body) x) t, p, q)
  message-HasAnswer r now (message (ProtocolMessage.request x)) c h = h
  message-HasAnswer r now (Reader.bad_frame e) c h = h
  message-HasAnswer r now Reader.end_of_stream c h = h

  receive_all-HasAnswer :
      (r : Response) (ms : List (ℕ × Incoming)) (c : DapClient)
      → HasAnswer r c
      → HasAnswer r (receive_all codecs ms c)
  unfolding receive_all Reader.receive
  receive_all-HasAnswer r [] c h = h
  receive_all-HasAnswer r ((now, m) ∷ ms) c h =
      receive_all-HasAnswer r ms (Reader.receive codecs.to_string now m c)
        (if_intro (HasAnswer r) (leb 1 c.readers) (message-HasAnswer r now m c h) h)

  -- Other messages, the response, and whatever comes then.
  pub answered-HasAnswer :
      (now : ℕ) (r : Response) (before after : List (ℕ × Incoming)) (c : DapClient)
      → All (Other (number id)) before
      → r.request_seq ≡ number id
      → Awaits c
      → HasAnswer r
          (receive_all codecs (before ++ (now, message (ProtocolMessage.response r)) ∷ after) c)
  unfolding receive_all
  answered-HasAnswer now r [] after c a s h =
      receive_all-HasAnswer r after
        (Reader.receive codecs.to_string now (message (ProtocolMessage.response r)) c)
        (answer-HasAnswer now r c s h)
  answered-HasAnswer now r ((t, m) ∷ ms) after c (n, a) s h =
      answered-HasAnswer now r ms after (Reader.receive codecs.to_string t m c) a s
        (receive-Awaits (t, m) c n h)

  pub finish-HasAnswer :
      (r : Response) (later : ℕ) (elapsed : ℤ) (c : DapClient)
      → k.stage ≡ waiting
      → HasAnswer r c
      → ((Reader.finish codecs.from_value codecs.to_string later elapsed id c).1
          ≡ returns (Reader.result_of codecs.from_value k.request.command r))
        × (get
              (Reader.finish codecs.from_value codecs.to_string later elapsed id
                c).0.pending_requests
              (number id)
            ≡ none)
  unfolding Reader.finish
  finish-HasAnswer r later elapsed c w (g, t, p, q) =
      let found : enabled waiting (get c.calls id) ≡ some (record k { channel = answered r }) =
        rw (p, w) refl in
      rw (found, t) (refl, q)
