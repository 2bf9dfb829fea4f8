-- ===== src/Cache/Priority.antt =====
-- The priorities by which `lookup` of crates/debug-session/src/cache.rs chooses an entry.
use teledap.Prelude.{
  ℕ, ◌≡◌, ◌≢◌, ◌↔◌, inl, inr, refl, Bool, true, Option, none, some, List, [], ◌∷◌, String, arith,
  nat_eq, string_eq, option_eq, ◌==◌, find, All, Bool-cases, Option-cases, eq_of_beq, some_inj,
  subst,
}
use teledap.Dict
use teledap.Cache.{
  VariableHandleEntry, VariableHandleCache, exact_in, in_frame, head, choose, lookup,
}
use teledap.Cache.Slots.{Named, IsWellFormed}
use teledap.Cache.Lookup.{at_slot, at_slot→eq}

find-All {ℓ κ} :
    {A : Type ℓ} (P : A → Type κ) (p : A → Bool) (l : List A) {a : A}
    → All P l
    → find p l ≡ some a
    → P a × (p a ≡ true)
find-All P p [] h k = cc
find-All P p (x ∷ l) (q, h) k = elim (Bool-cases (p x)) [
  | inl e ↦ subst (λ y. P y × (p y ≡ true)) (some_inj (rw e at k)) (q, e)
  | inr e ↦ find-All P p l h (rw e at k)
]

-- How a found entry stands to the entries of its name: it is the exact one; or there is no exact
-- one and it is of the named frame; or there is none of that frame either and it is the first.
pub data Found (f : Option ℕ) (s : Option String) (l : List VariableHandleEntry)
    (e : VariableHandleEntry) : Type 0 where
  exactly : e.frame_id ≡ f → e.scope_name ≡ s → Found f s l e
  same_frame : exact_in f s l ≡ none → e.frame_id ≡ f → f ≢ none → Found f s l e
  any_frame : exact_in f s l ≡ none → in_frame f l ≡ none → head l ≡ some e → Found f s l e

in_frame→eq :
    (f : Option ℕ) (l : List VariableHandleEntry) {e : VariableHandleEntry} (n : String)
    → Named n l
    → in_frame f l ≡ some e
    → (e.name ≡ n) × (e.frame_id ≡ f) × (f ≢ none)
unfolding in_frame
in_frame→eq none l n h k = cc
in_frame→eq (some f) l {e} n h k =
    let (p, q) = find-All (λ x. x.name ≡ n) (λ x. x.frame_id == some f) l h k in
    (p, eq_of_beq e.frame_id (some f) q, λ z. cc z)

head-Named :
    (l : List VariableHandleEntry) {e : VariableHandleEntry} (n : String)
    → Named n l
    → head l ≡ some e
    → e.name ≡ n
head-Named [] n h k = cc
head-Named (x ∷ l) n (q, h) k = subst (λ y. y.name ≡ n) (some_inj k) q

choose-Found :
    (f : Option ℕ) (s : Option String) (l : List VariableHandleEntry) {e : VariableHandleEntry}
    (n : String)
    → Named n l
    → choose f s (some l) ≡ some e
    → (e.name ≡ n) × Found f s l e
unfolding exact_in
choose-Found f s l {e} n h k = elim (Option-cases (exact_in f s l)) [
  | inr (x, p) ↦
      let (q, r) = find-All (λ y. y.name ≡ n) (at_slot f s) l h p in
      let (rf, rs) = at_slot→eq f s x r in
      subst (λ y. (y.name ≡ n) × Found f s l y) (some_inj (rw p at k)) (q, exactly rf rs)
  | inl p ↦ elim (Option-cases (in_frame f l)) [
    | inr (x, q) ↦
        let (a, b, c) = in_frame→eq f l n h q in
        subst (λ y. (y.name ≡ n) × Found f s l y) (some_inj (rw (p, q) at k)) (a, same_frame p b c)
    | inl q ↦ let t = rw (p, q) at k in (head-Named l n h t, any_frame p q t)
  ]
]

lookup-some :
    (c : VariableHandleCache) (n : String) (f : Option ℕ) (s : Option String)
    {l : List VariableHandleEntry} {e : VariableHandleEntry}
    → IsWellFormed c
    → Dict.get c.entries n ≡ some l
    → lookup c n f s ≡ some e
    → (e.name ≡ n) × Found f s l e
unfolding lookup
lookup-some c n f s {l} w g h = choose-Found f s l n (w n l g).named (rw g at h)

choose-ne-none :
    (f : Option ℕ) (s : Option String) (l : List VariableHandleEntry)
    → l ≢ []
    → choose f s (some l) ≢ none
choose-ne-none f s [] h k = h refl
choose-ne-none f s (x ∷ l) h k = ground arith

-- A lookup fails exactly when no entry of the name is cached, whatever frame and scope it asks for.
lookup-none :
    (c : VariableHandleCache) (n : String) (f : Option ℕ) (s : Option String)
    → IsWellFormed c
    → (lookup c n f s ≡ none) ↔ (Dict.get c.entries n ≡ none)
unfolding lookup
lookup-none c n f s w = (
  λ h. elim (Option-cases (Dict.get c.entries n)) [
    | inl p ↦ p
    | inr (l, p) ↦ absurd (choose-ne-none f s l (w n l p).filled (rw p at h))
  ],
  λ h. rw h,
)

-- A lookup in a well-formed cache fails exactly when no entry of the name is cached; among the entries
-- of the name, if there are any, it finds one by the documented priorities: the one of the frame and
-- scope, else one of the frame, else the first.
pub lookup-Found :
    (c : VariableHandleCache) (n : String) (f : Option ℕ) (s : Option String)
    → IsWellFormed c
    → ((lookup c n f s ≡ none) ↔ (Dict.get c.entries n ≡ none))
      × ((l : List VariableHandleEntry)
          → Dict.get c.entries n ≡ some l
          → (e : VariableHandleEntry) × (lookup c n f s ≡ some e) × (e.name ≡ n) × Found f s l e)
lookup-Found c n f s w = (
  lookup-none c n f s w,
  λ l g. elim (Option-cases (lookup c n f s)) [
    | inl p ↦ absurd (cc (g, (lookup-none c n f s w).0 p))
    | inr (e, p) ↦ let (named, found) = lookup-some c n f s w g p in (e, p, named, found)
  ],
)
