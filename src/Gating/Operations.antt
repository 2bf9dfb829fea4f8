-- ===== src/Gating/Operations.antt =====
-- The operations that gating.rs lists for a state are those that it allows there.
use teledap.Prelude.{
  ◌≡◌, refl, Bool, true, false, List, [], ◌∷◌, ◌&&◌, String, arith, contains, retain, PartialEq,
  ◌==◌, string_eq, Bool-cases, eq_of_beq, inl, inr,
}
use teledap.Dict.{keys, get_of_not_contains}
use teledap.State.{SessionState, state_eq}
use teledap.Gating.{gating_table, all_operations, allowed_states, is_allowed, operations_for_state}

contains-retain {ℓ} :
    {A : Type ℓ} ⦃e : PartialEq A⦄ (p : A → Bool) (a : A) (xs : List A)
    → contains a (retain p xs) ≡ contains a xs && p a
contains-retain p a [] = refl
contains-retain p a (x ∷ xs) = elim (Bool-cases (x == a)) [
  | inl h ↦ rw (eq_of_beq x a h) (ground (arith, contains-retain p a xs, h))
  | inr h ↦ ground (arith, contains-retain p a xs, h)
]

keys-gating_table : keys gating_table ≡ all_operations
unfolding gating_table all_operations
keys-gating_table = refl

-- A key of no row is found nowhere.
contains_of_get :
    (op : String) (s : SessionState)
    → is_allowed op s ≡ true
    → contains op (keys gating_table) ≡ true
unfolding is_allowed allowed_states
contains_of_get op s h = elim (Bool-cases (contains op (keys gating_table))) [
  | inl p ↦ p
  | inr p ↦ ground (arith, get_of_not_contains gating_table op p)
]

-- An operation outside `ALL_OPERATIONS` is allowed in no state.
pub allowed_states_unknown :
    (op : String) → contains op all_operations ≡ false → allowed_states op ≡ []
unfolding allowed_states
allowed_states_unknown op h = rw (get_of_not_contains gating_table op (rw keys-gating_table h))

-- For every name at all, the operations listed for a state contain it exactly when it is allowed
-- in that state.
pub contains-operations_for_state :
    (op : String) (s : SessionState) → contains op (operations_for_state s) ≡ is_allowed op s
unfolding operations_for_state
contains-operations_for_state op s = elim (Bool-cases (is_allowed op s)) [
  | inl h ↦ rw (
    contains-retain (λ op. is_allowed op s) op all_operations,
    h,
    ← keys-gating_table,
    contains_of_get op s h,
  )
  | inr h ↦ rw (contains-retain (λ op. is_allowed op s) op all_operations, h) (ground arith)
]
