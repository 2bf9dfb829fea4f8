-- ===== src/Client/Routing.antt =====
-- Every response goes to the call with its number (crates/dap-client/src/client.rs).
use teledap.Prelude.{
  ℕ, suc, ◌+◌, ◌<◌, ◌%◌, ◌^◌, ◌≡◌, refl, sym, ap, ◌∙◌, String, Option, none, some, List, ◌++◌,
  Result, ok, err, arith, nat_eq, inl, inr, Bool-cases, take,
}
use teledap.Dict.{Dict, get, Everywhere, insert-Everywhere, remove-Everywhere}
use teledap.Dap.Json.{Json}
use teledap.Dap.Base.{Request, Response, ProtocolMessage}
use teledap.Trace.{Trace}
use teledap.Codec.{encode_to_bytes}
use teledap.Session.Calls.{DapClientError}
use teledap.Client.{
  DapClient, Call, Stage, begun, registered, waiting, returned, Channel, empty, closed, answered,
  enabled, stage_is,
}
use teledap.Client.Send
use teledap.Client.Send.{number}
use teledap.Client.Reader

-- The call named `id` has its number, and what it was answered has it too; `n` numbers were taken.
abbrev pub IsOwn : ℕ → ℕ → Call → Type 0
IsOwn n id k =
    (id < n)
    × (k.request.seq ≡ number id)
    × ((r : Response) → k.channel ≡ answered r → r.request_seq ≡ number id)

abbrev pub Names : ℕ → ℕ → ℕ → Type 0
Names n s id = (id < n) × (s ≡ number id)

abbrev pub IsRouted : DapClient → Type 0
IsRouted c =
    (c.seq ≡ number c.allocated)
    × Everywhere (IsOwn c.allocated) c.calls
    × Everywhere (Names c.allocated) c.pending_requests

number-suc : (n : ℕ) → (number n + 1) % 2 ^ 64 ≡ number (suc n)
unfolding number
number-suc n = omega arith

pub enabled-some :
    (stage : Stage) (o : Option Call) (k : Call) → enabled stage o ≡ some k → o ≡ some k
enabled-some stage none k h = h
enabled-some stage (some j) k h = elim (Bool-cases (stage_is j.stage stage)) [
  | inl p ↦ cc (p, h)
  | inr p ↦ absurd (cc (p, h))
]

closing : (ch : Channel) (r : Response) → Send.close_channel ch ≡ answered r → ch ≡ answered r
closing empty r h = absurd (cc h)
closing closed r h = absurd (cc h)
closing (answered q) r h = h

abbrev Owned : ℕ → Dict ℕ Call → Type 0
Owned n calls = Everywhere (IsOwn n) calls

close_call-Owned :
    (n id : ℕ) (calls : Dict ℕ Call) (o : Option Call)
    → ((k : Call) → o ≡ some k → IsOwn n id k)
    → Owned n calls
    → Owned n (Send.close_call id calls o)
close_call-Owned n id calls none f a = a
close_call-Owned n id calls (some k) f a =
    let (l, e, g) = f k refl in
    insert-Everywhere (IsOwn n) calls id (record k { channel = Send.close_channel k.channel })
      (l, e, λ r h. g r (closing k.channel r h)) a

answered_inj : {r s : Response} → answered r ≡ answered s → r ≡ s
answered_inj {r} {s} h = cc h

drop_sender-Owned :
    (n : ℕ) (o : Option ℕ) (calls : Dict ℕ Call)
    → Owned n calls
    → Owned n (Send.drop_sender o calls)
drop_sender-Owned n none calls a = a
drop_sender-Owned n (some id) calls a =
    close_call-Owned n id calls (get calls id) (λ k h. a id k h) a

pub at-IsRouted :
    (stage : Stage) (id : ℕ) (k : Call) (c : DapClient)
    → get c.calls id ≡ some k
    → IsRouted c
    → IsRouted (Send.at stage id k c)
at-IsRouted stage id k c p (s, a, b) = (
  s,
  insert-Everywhere (IsOwn c.allocated) c.calls id (record k { stage = stage }) (a id k p) a,
  b,
)

pub allocate-IsRouted : (c : DapClient) → IsRouted c → IsRouted (Send.allocate c)
allocate-IsRouted c (s, a, b) = (
  ap (λ n. (n + 1) % 2 ^ 64) s ∙ number-suc c.allocated,
  λ id k p. let (l, e, f) = a id k p in (omega (arith, l), e, f),
  λ n id p. let (l, e) = b n id p in (omega (arith, l), e),
)

pub begin-IsRouted :
    (now : ℕ) (command : String) (v : Result String Json) (c : DapClient)
    → IsRouted c
    → IsRouted (Send.begin now command v c).0
unfolding Send.begin
begin-IsRouted now command (err e) c h = allocate-IsRouted c h
begin-IsRouted now command (ok v) c h =
    let (s, a, b) = allocate-IsRouted c h in
    let call : Call = record {
      request = Send.request_of c.seq command v;
      stage = begun;
      channel = empty;
    } in
    (
      s,
      insert-Everywhere (IsOwn (suc c.allocated)) c.calls c.allocated call
          (omega arith, h.0, λ r p. absurd (cc p)) a,
      b,
    )

pub register_call-IsRouted :
    (id : ℕ) (c : DapClient) (o : Option Call)
    → ((k : Call) → o ≡ some k → get c.calls id ≡ some k)
    → IsRouted c
    → IsRouted (Send.register_call id c o)
register_call-IsRouted id c none f h = h
register_call-IsRouted id c (some k) f (s, a, b) =
    let (l, e, g) = a id k (f k refl) in
    let old = get c.pending_requests k.request.seq in
    (
      s,
      insert-Everywhere (IsOwn c.allocated) (Send.drop_sender old c.calls) id
          (record k { stage = registered }) (l, e, g) (drop_sender-Owned c.allocated old c.calls a),
      insert-Everywhere (Names c.allocated) c.pending_requests k.request.seq id (l, e) b,
    )

-- Writing changes the pipe at most.
module _ (P : DapClient → Type 0) (c : DapClient)
    (keep : (bytes : Option (List ℕ)) → P (record c { stdin = bytes })) where
  write_buffer-Frame :
      (w : Send.WriteResult) (bytes : List ℕ) (buf : Result String (List ℕ))
      → P (Send.write_buffer w bytes buf c).0
  write_buffer-Frame w bytes (err e) = keep c.stdin
  write_buffer-Frame Send.whole bytes (ok buf) = keep (some (bytes ++ buf))
  write_buffer-Frame (Send.broken n e) bytes (ok buf) = keep (some (bytes ++ take n buf))

  write_to-Frame :
      (to_vec : ProtocolMessage → Result String (List ℕ)) (w : Send.WriteResult) (r : Request)
      (pipe : Option (List ℕ))
      → P (Send.write_to to_vec w r c pipe).0
  write_to-Frame to_vec w r none = keep c.stdin
  write_to-Frame to_vec w r (some bytes) =
      write_buffer-Frame w bytes (encode_to_bytes to_vec (ProtocolMessage.request r))

  pub write_message-Frame :
      (to_vec : ProtocolMessage → Result String (List ℕ)) (w : Send.WriteResult) (r : Request)
      → P (Send.write_message to_vec w r c).0
  unfolding Send.write_message
  write_message-Frame to_vec w r = write_to-Frame to_vec w r c.stdin

sent-IsRouted :
    (to_vec : ProtocolMessage → Result String (List ℕ)) (id : ℕ) (k : Call)
    (p : DapClient × Result DapClientError (Unit {0}))
    → get p.0.calls id ≡ some k
    → IsRouted p.0
    → IsRouted (Send.sent to_vec id k p).0
sent-IsRouted to_vec id k (c, ok a) e h = at-IsRouted waiting id k c e h
sent-IsRouted to_vec id k (c, err x) e h = at-IsRouted returned id k c e h

pub write_call-IsRouted :
    (to_vec : ProtocolMessage → Result String (List ℕ)) (w : Send.WriteResult) (id : ℕ)
    (c : DapClient) (o : Option Call)
    → ((k : Call) → o ≡ some k → get c.calls id ≡ some k)
    → IsRouted c
    → IsRouted (Send.write_call to_vec w id c o).0
write_call-IsRouted to_vec w id c none f h = h
write_call-IsRouted to_vec w id c (some k) f h =
    sent-IsRouted to_vec id k (Send.write_message to_vec w k.request c)
      (write_message-Frame (λ d. get d.calls id ≡ some k) c (λ _. f k refl) to_vec w k.request)
      (write_message-Frame IsRouted c (λ _. h) to_vec w k.request)

send_answer-Owned :
    (n : ℕ) (r : Response) (calls : Dict ℕ Call) (id : ℕ) (o : Option Call)
    → ((k : Call) → o ≡ some k → IsOwn n id k)
    → r.request_seq ≡ number id
    → Owned n calls
    → Owned n (Reader.send_answer r calls id o)
send_answer-Owned n r calls id none f e a = a
send_answer-Owned n r calls id (some k) f e a =
    let (l, q, _) = f k refl in
    insert-Everywhere (IsOwn n) calls id (record k { channel = answered r })
      (l, q, λ s h. ap (λ x. x.request_seq) (sym (answered_inj h)) ∙ e) a

pub deliver-IsRouted :
    (r : Response) (c : DapClient) (o : Option ℕ)
    → ((id : ℕ) → o ≡ some id → get c.pending_requests r.request_seq ≡ some id)
    → IsRouted c
    → IsRouted (Reader.deliver r c o)
deliver-IsRouted r c none f h = h
deliver-IsRouted r c (some id) f (s, a, b) = (
  s,
  send_answer-Owned c.allocated r c.calls id (get c.calls id) (λ k h. a id k h)
      (b r.request_seq id (f id refl)).1 a,
  remove-Everywhere (Names c.allocated) c.pending_requests r.request_seq b,
)

pub dispatch-IsRouted :
    (r : Response) (c : DapClient) (o : Option (Option Trace))
    → IsRouted c
    → IsRouted (Reader.dispatch r c o)
dispatch-IsRouted r c none h = h
dispatch-IsRouted r c (some t) h =
    deliver-IsRouted r (record c { trace = t }) (get c.pending_requests r.request_seq) (λ id p. p) h
