-- ===== src/Http/Delivery.antt =====
-- Who gets a broadcast of src/http_server.rs.
use teledap.Prelude.{
  ◌≡◌, ◌≢◌, refl, sym, ap, ◌∙◌, String, string_eq, Bool, true, false, Option, none, some, List, [],
  ◌∷◌, Result, ok, ◌==◌, if◌then◌else◌, All, contains, Bool-cases, inl, inr, eq_of_beq, ne_of_beq,
  beq_of_ne, subst,
}
use teledap.Dict.{Dict, get, remove, get-remove_self, get-remove_ne}
use teledap.Dict.Distinct.{IsDistinct}
use teledap.Mcp.Router.{JsonRpcMessage}
use teledap.Http.{ClientConnection, SharedSession, push, send_all, remove_all, broadcast_all}

none_either : (b : Bool) → ◌≡◌ {A = Option ClientConnection} (if b then none else none) none
none_either true = refl
none_either false = refl

get-remove_all :
    (l : Dict String ClientConnection) (dead : List String) (id : String)
    → get (remove_all l dead) id ≡ (if contains id dead then none else get l id)
unfolding remove_all
get-remove_all l [] id = refl
get-remove_all l (k ∷ dead) id = elim (Bool-cases (k == id)) [
  | inl p ↦
      let e : k ≡ id = eq_of_beq k id p in
      let gone : get (remove l k) id ≡ none =
        ap (λ i. get (remove l k) i) (sym e) ∙ get-remove_self l k in
      rw (get-remove_all (remove l k) dead id, p, gone) (none_either (contains id dead))
  | inr p ↦ rw (get-remove_all (remove l k) dead id, p, get-remove_ne l k id (ne_of_beq k id p))
]

-- Only those that were walked are dead.
contains-dead :
    (json : String) (l : Dict String ClientConnection) (id : String)
    → All (λ y. y.0 ≢ id) l
    → contains id (send_all json l).1 ≡ false
unfolding send_all
contains-dead json [] id h = refl
contains-dead json ((k, conn) ∷ l) id (n, h) = elim (Bool-cases conn.is_open) [
  | inl p ↦ rw p (contains-dead json l id h)
  | inr p ↦ rw (p, beq_of_ne k id n) (contains-dead json l id h)
]

-- What a client's channel is after a broadcast: with the text behind the others, or gone.
abbrev pub delivered : String → Option ClientConnection → Option ClientConnection
delivered json none = none
delivered json (some conn) = if conn.is_open then some (push json conn) else none

get-send_all :
    (json : String) (l : Dict String ClientConnection) (id : String)
    → IsDistinct l
    → (if contains id (send_all json l).1 then none else get (send_all json l).0 id)
      ≡ delivered json (get l id)
unfolding send_all get
get-send_all json [] id d = refl
get-send_all json ((k, conn) ∷ l) id (n, d) = elim (Bool-cases (k == id)) [
  | inl p ↦
      let e : k ≡ id = eq_of_beq k id p in
      let live = contains-dead json l id (subst (λ i. All (λ y. y.0 ≢ i) l) e n) in
      elim (Bool-cases conn.is_open) [ inl q ↦ rw (q, live, p) | inr q ↦ rw (q, p) ]
  | inr p ↦ elim (Bool-cases conn.is_open) [
    | inl q ↦ rw (q, p) (get-send_all json l id d)
    | inr q ↦ rw (q, p) (get-send_all json l id d)
  ]
]

-- A broadcast reaches every client whose stream is open, once and behind what it was sent before, takes
-- the others out of the map, and adds no one.
pub broadcast_all-delivered :
    (to_string : JsonRpcMessage → Result String String) {Caps : Type 0} (msg : JsonRpcMessage)
    (json : String) (s : SharedSession Caps) (id : String)
    → to_string msg ≡ ok json
    → IsDistinct s.clients
    → get (broadcast_all to_string msg s).clients id ≡ delivered json (get s.clients id)
unfolding broadcast_all
broadcast_all-delivered to_string msg json s id h d =
    rw (h, get-remove_all (send_all json s.clients).0 (send_all json s.clients).1 id)
      (get-send_all json s.clients id d)
