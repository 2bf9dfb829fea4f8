-- ===== src/Client/Live.antt =====
-- Numbers are not reused and no waiter is dropped while fewer than 2 ^ 64 numbers are taken
-- (crates/dap-client/src/client.rs).
use teledap.Prelude.{
  ℕ, ◌≤◌, ◌<◌, ◌^◌, ◌≡◌, ◌≢◌, refl, sym, ap, ◌∙◌, Option, none, some, List, arith, nat_eq, true,
  Bool-cases, inl, inr, some_inj,
}
use teledap.Dict.{Dict, get, get-insert_ne}
use teledap.Dap.Base.{Response}
use teledap.Trace.{Trace}
use teledap.Client
use teledap.Client.{
  DapClient, Call, Stage, begun, registered, waiting, returned, Channel, empty, closed, answered,
  enabled, stage_is,
}
use teledap.Client.Send
use teledap.Client.Send.{number}
use teledap.Client.Actions.{Action, Codecs, run}
use teledap.Client.Routing.{IsRouted}
use teledap.Client.Histories.{run-IsRouted, new-IsRouted}

pub number_injective : (i j : ℕ) → i < 2 ^ 64 → j < 2 ^ 64 → number i ≡ number j → i ≡ j
unfolding number
number_injective i j a b h = omega (arith, a, b, h)

-- In every history a call that has got a response got one that bears the number of its own request,
-- in whatever order the requests are sent and the responses come.
pub run-answered :
    (codecs : Codecs) (n : ℕ) (t : Option Trace) (history : List Action) (id : ℕ) (k : Call)
    (r : Response)
    → get (run codecs history (Client.new n t)).calls id ≡ some k
    → k.channel ≡ answered r
    → r.request_seq ≡ k.request.seq
run-answered codecs n t history id k r e h =
    let (_, a, _) = run-IsRouted codecs history (Client.new n t) (new-IsRouted n t) in
    let (_, s, f) = a id k e in f r h ∙ sym s

-- While at most 2 ^ 64 numbers have been taken, different calls have different numbers.
pub run-number :
    (codecs : Codecs) (n : ℕ) (t : Option Trace) (history : List Action) (i j : ℕ) (k l : Call)
    → (run codecs history (Client.new n t)).allocated ≤ 2 ^ 64
    → get (run codecs history (Client.new n t)).calls i ≡ some k
    → get (run codecs history (Client.new n t)).calls j ≡ some l
    → i ≢ j
    → k.request.seq ≢ l.request.seq
run-number codecs n t history i j k l b p q d e =
    let (_, a, _) = run-IsRouted codecs history (Client.new n t) (new-IsRouted n t) in
    let (x, u, _) = a i k p in
    let (y, v, _) = a j l q in
    d (number_injective i j (omega (arith, x, b)) (omega (arith, y, b)) (sym u ∙ e ∙ v))

stage_is_eq : (a b : Stage) → stage_is a b ≡ true → a ≡ b
stage_is_eq a b h = ground arith

pub enabled-stage :
    (stage : Stage) (o : Option Call) (k : Call) → enabled stage o ≡ some k → k.stage ≡ stage
enabled-stage stage none k h = absurd (cc h)
enabled-stage stage (some j) k h = elim (Bool-cases (stage_is j.stage stage)) [
  | inl p ↦
      let e : some j ≡ some k = cc (p, h) in
      ap (λ x. x.stage) (sym (some_inj e)) ∙ stage_is_eq j.stage stage p
  | inr p ↦ absurd (cc (p, h))
]

get-close_call_ne :
    (i j : ℕ) (calls : Dict ℕ Call) (o : Option Call)
    → i ≢ j
    → get (Send.close_call i calls o) j ≡ get calls j
get-close_call_ne i j calls none h = refl
get-close_call_ne i j calls (some k) h =
    get-insert_ne calls i j (record k { channel = Send.close_channel k.channel }) h

get-drop_sender_ne :
    (i j : ℕ) (calls : Dict ℕ Call) (o : Option ℕ)
    → ((m : ℕ) → o ≡ some m → m ≡ i)
    → i ≢ j
    → get (Send.drop_sender o calls) j ≡ get calls j
get-drop_sender_ne i j calls none f h = refl
get-drop_sender_ne i j calls (some m) f h =
    get-close_call_ne m j calls (get calls m) (λ e. h (sym (f m refl) ∙ e))

-- The sender that an insertion drops is the call's own, so that no other call is touched.
pub register_call-ne :
    (id j : ℕ) (c : DapClient) (k : Call)
    → IsRouted c
    → c.allocated ≤ 2 ^ 64
    → get c.calls id ≡ some k
    → id ≢ j
    → get (Send.register_call id c (some k)).calls j ≡ get c.calls j
register_call-ne id j c k (_, a, b) w e h =
    let old = get c.pending_requests k.request.seq in
    let (l, s, _) = a id k e in
    let own : (m : ℕ) → old ≡ some m → m ≡ id = λ m p.
      let (x, y) = b k.request.seq m p in
      number_injective m id (omega (arith, x, w)) (omega (arith, l, w)) (sym y ∙ s) in
    get-insert_ne (Send.drop_sender old c.calls) id j (record k { stage = registered }) h
    ∙ get-drop_sender_ne id j c.calls old own h
