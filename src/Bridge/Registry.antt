-- ===== src/Bridge/Registry.antt =====
-- The tools that are offered in a state are those that the dispatch lets through.
use teledap.Prelude.{
  ℕ, String, string_eq, ◌==◌, eq_of_beq, Bool, true, false, ◌&&◌, ◌≡◌, refl, ap, ◌∙◌, sym, subst,
  Option, none, some, List, [], ◌∷◌, contains, retain, Bool-cases, inl, inr, All, some_inj, err,
}
use teledap.Dict.{Dict, get}
use teledap.Dap.Json.{Json}
use teledap.State.{SessionState}
use teledap.Gating.{is_allowed, all_operations, operations_for_state, describe_requirements}
use teledap.Gating.Operations.{contains-operations_for_state}
use teledap.Session.{DebugSession}
use teledap.Trace.{Trace}
use teledap.Bridge.{BridgeError, Handler, offered, list_tools_for_state, refused, refusal, dispatch}
use BridgeError.{internal}
use teledap.Bridge.Tools.{Tool, all_tools, operation_table, tool_operation}

abbrev pub names : List Tool → List String
names [] = []
names (t ∷ ts) = t.name ∷ names ts

and_false : (b : Bool) → (b && false) ≡ false
and_false true = refl
and_false false = refl

contains-names-retain :
    (p : String → Bool) (n : String) (l : List Tool)
    → contains n (names (retain (λ t. p t.name) l)) ≡ (contains n (names l) && p n)
contains-names-retain p n [] = refl
contains-names-retain p n (t ∷ l) =
    let rest = contains-names-retain p n l in
    elim (Bool-cases (t.name == n)) [
      | inl e ↦
          let same : p t.name ≡ p n = ap p (eq_of_beq t.name n e) in
          elim (Bool-cases (p n)) [
            | inl q ↦ let k : p t.name ≡ true = same ∙ q in rw (k, e, q)
            | inr q ↦
                let k : p t.name ≡ false = same ∙ q in
                rw (k, e, q)
                  (rest ∙ ap (λ b. contains n (names l) && b) q ∙ and_false (contains n (names l)))
          ]
      | inr e ↦ elim (Bool-cases (p t.name)) [ inl q ↦ rw (q, e) rest | inr q ↦ rw (q, e) rest ]
    ]

abbrev is_none : {A : Type 0} → Option A → Bool
is_none none = true
is_none (some a) = false

-- What the dispatch lets through.
abbrev pub passes : String → SessionState → Bool
passes name state = is_none (refusal name state)

offered_passes :
    (state : SessionState) (o : Option String)
    → offered (operations_for_state state) o ≡ is_none (refused state o)
offered_passes state none = refl
offered_passes state (some op) =
    contains-operations_for_state op state
    ∙ elim (Bool-cases (is_allowed op state)) [ inl p ↦ rw p | inr p ↦ rw p ]

-- In every state the tools that are offered are exactly the known tools that the dispatch lets through.
pub list_tools_for_state-passes :
    (name : String) (state : SessionState)
    → contains name (names (list_tools_for_state state))
      ≡ (contains name (names all_tools) && passes name state)
unfolding list_tools_for_state refusal
list_tools_for_state-passes name state =
    contains-names-retain (λ n. offered (operations_for_state state) (tool_operation n)) name
      all_tools
    ∙ ap (λ b. contains name (names all_tools) && b) (offered_passes state (tool_operation name))

-- Every row of the table has this of its two names.
abbrev Gated : String × String → Type 0
Gated row = (row.1 ≡ row.0) × (contains row.1 all_operations ≡ true)

get-All :
    (m : Dict String String)
    → All Gated m
    → (name op : String) → get m name ≡ some op
    → (op ≡ name) × (contains op all_operations ≡ true)
unfolding get
get-All [] a name op h = absurd (cc h)
get-All ((j, v) ∷ m) ((same, known), a) name op h = elim (Bool-cases (j == name)) [
  | inl p ↦
      let first : get ((j, v) ∷ m) name ≡ some v = rw p in
      let e : v ≡ op = some_inj (sym first ∙ h) in
      (sym e ∙ same ∙ eq_of_beq j name p, subst (λ o. contains o all_operations ≡ true) e known)
  | inr p ↦
      let later : get ((j, v) ∷ m) name ≡ get m name = rw p in get-All m a name op (sym later ∙ h)
]

operation_table-Gated : All Gated operation_table
unfolding operation_table all_operations
operation_table-Gated = (
  (refl, refl),
  (
    (refl, refl),
    (
      (refl, refl),
      (
        (refl, refl),
        (
          (refl, refl),
          (
            (refl, refl),
            (
              (refl, refl),
              (
                (refl, refl),
                (
                  (refl, refl),
                  (
                    (refl, refl),
                    (
                      (refl, refl),
                      (
                        (refl, refl),
                        (
                          (refl, refl),
                          (
                            (refl, refl),
                            (
                              (refl, refl),
                              (
                                (refl, refl),
                                (
                                  (refl, refl),
                                  (
                                    (refl, refl),
                                    ((refl, refl), ((refl, refl), ((refl, refl), tt))),
                                  ),
                                ),
                              ),
                            ),
                          ),
                        ),
                      ),
                    ),
                  ),
                ),
              ),
            ),
          ),
        ),
      ),
    ),
  ),
)

-- A tool with a gating operation has its own name for it, and the operation is one of the known ones.
pub tool_operation-known :
    (name op : String)
    → tool_operation name ≡ some op
    → (op ≡ name) × (contains op all_operations ≡ true)
unfolding tool_operation
tool_operation-known name op h = get-All operation_table operation_table-Gated name op h

-- A call of a tool whose operation the state does not allow fails with the operation's requirements,
-- runs no handler and records nothing, whatever the handlers do.
pub dispatch_refused :
    {Caps R : Type 0} (handlers : String → Json → Option (Handler Caps R)) (now : ℕ)
    (name op : String) (params : Json) (t : Option Trace) (s : DebugSession Caps)
    → tool_operation name ≡ some op
    → is_allowed op s.state ≡ false
    → dispatch handlers now name params t s ≡ (t, (s, err (internal (describe_requirements op))))
unfolding dispatch refusal
dispatch_refused handlers now name op params t s p q = rw (p, q)
