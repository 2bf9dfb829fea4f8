-- ===== src/Http/Broadcaster.antt =====
-- The task of src/http_server.rs that tells the clients that the list of tools has changed.
use teledap.Prelude.{
  eq_of_beq, ℕ, zero, suc, ◌≡◌, ◌≢◌, sym, ap, ◌∙◌, String, string_eq, Bool, true, false, none, some,
  List, [], ◌∷◌, ◌++◌, append-nil, Result, ok, ◌==◌, if◌then◌else◌, All, Bool-cases, inl, inr,
}
use teledap.Dict.{Dict, get, remove}
use teledap.Dict.Distinct.{IsDistinct, remove-IsDistinct}
use teledap.State.{SessionState, state_eq}
use teledap.Mcp.Router.{JsonRpcMessage, notify}
use teledap.Http.{ClientConnection, SharedSession, send_all, remove_all, broadcast_all, on_changed}
use teledap.Http.Delivery.{broadcast_all-delivered, delivered}

send_all-All :
    (json k : String) (l : Dict String ClientConnection)
    → All (λ y. y.0 ≢ k) l
    → All (λ y. y.0 ≢ k) (send_all json l).0
unfolding send_all
send_all-All json k [] h = tt
send_all-All json k ((j, conn) ∷ l) (n, h) = elim (Bool-cases conn.is_open) [
  | inl p ↦ rw p (n, send_all-All json k l h)
  | inr p ↦ rw p (n, send_all-All json k l h)
]

send_all-IsDistinct :
    (json : String) (l : Dict String ClientConnection)
    → IsDistinct l
    → IsDistinct (send_all json l).0
unfolding send_all
send_all-IsDistinct json [] h = tt
send_all-IsDistinct json ((j, conn) ∷ l) (n, h) = elim (Bool-cases conn.is_open) [
  | inl p ↦ rw p (send_all-All json j l n, send_all-IsDistinct json l h)
  | inr p ↦ rw p (send_all-All json j l n, send_all-IsDistinct json l h)
]

remove_all-IsDistinct :
    (l : Dict String ClientConnection) (dead : List String)
    → IsDistinct l
    → IsDistinct (remove_all l dead)
unfolding remove_all
remove_all-IsDistinct l [] h = h
remove_all-IsDistinct l (k ∷ dead) h =
    remove_all-IsDistinct (remove l k) dead (remove-IsDistinct l k h)

-- How often the state changes between two readings.
abbrev pub changes : SessionState → List SessionState → ℕ
changes last [] = 0
changes last (state ∷ seen) =
    let rest = changes state seen in if state == last then rest else suc rest

abbrev pub last_of : SessionState → List SessionState → SessionState
last_of last [] = last
last_of last (state ∷ seen) = last_of state seen

abbrev pub replicate : ℕ → String → List String
replicate zero json = []
replicate (suc n) json = json ∷ replicate n json

module _ (to_string : JsonRpcMessage → Result String String) (json : String)
    (written : to_string (notify "notifications/tools/list_changed" none) ≡ ok json)
    {Caps : Type 0} where
  on_changed_same :
      (state last : SessionState) (s : SharedSession Caps)
      → (state == last) ≡ true
      → on_changed to_string state (last, s) ≡ (state, s)
  unfolding on_changed
  on_changed_same state last s p =
      rw p (ap (λ (t : SessionState). (t, s)) (sym (eq_of_beq state last p)))

  on_changed_new :
      (state last : SessionState) (s : SharedSession Caps)
      → (state == last) ≡ false
      → on_changed to_string state (last, s)
        ≡ (state, broadcast_all to_string (notify "notifications/tools/list_changed" none) s)
  unfolding on_changed
  on_changed_new state last s p = rw p

  broadcast_all-IsDistinct :
      (s : SharedSession Caps)
      → IsDistinct s.clients
      → IsDistinct
          (broadcast_all to_string (notify "notifications/tools/list_changed" none) s).clients
  unfolding broadcast_all
  broadcast_all-IsDistinct s h = rw written (
      remove_all-IsDistinct (send_all json s.clients).0 (send_all json s.clients).1
        (send_all-IsDistinct json s.clients h))

  -- A client whose stream is open, after a reading.
  pub on_changed-open :
      (state last : SessionState) (s : SharedSession Caps) (id : String) (inbox : List String)
      (initialized : Bool)
      → IsDistinct s.clients
      → get s.clients id
        ≡ some (record { is_open = true; inbox = inbox; initialized = initialized })
      → (s' : SharedSession Caps) × (on_changed to_string state (last, s) ≡ (state, s'))
        × IsDistinct s'.clients
        × (get s'.clients id
            ≡ some (record {
              is_open = true;
              inbox = inbox ++ (if state == last then [] else json ∷ []);
              initialized = initialized;
            }))
  on_changed-open state last s id inbox initialized d g = elim (Bool-cases (state == last)) [
    | inl p ↦ rw p (s, on_changed_same state last s p, d, rw (append-nil inbox) g)
    | inr p ↦ rw p (
      broadcast_all to_string (notify "notifications/tools/list_changed" none) s,
      on_changed_new state last s p,
      broadcast_all-IsDistinct s d,
      broadcast_all-delivered to_string (notify "notifications/tools/list_changed" none) json s id
            written d
          ∙ ap (delivered json) g,
    )
  ]

pub replicate-changes :
    (state last : SessionState) (seen : List SessionState) (json : String)
    → replicate (changes last (state ∷ seen)) json
      ≡ (if state == last then [] else json ∷ []) ++ replicate (changes state seen) json
replicate-changes state last seen json = elim (Bool-cases (state == last)) [
  | inl p ↦ rw p
  | inr p ↦ rw p
]
