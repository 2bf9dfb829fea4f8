-- ===== src/Cache/Lookup.antt =====
-- What `lookup` finds: the priorities, and what insertions and invalidation change.
use teledap.Prelude.{
  ℕ, ◌≡◌, inl, inr, refl, Bool, true, false, not, ◌&&◌, Option, none, some, List, [], ◌∷◌, ◌++◌,
  String, arith, nat_eq, string_eq, option_eq, ◌==◌, retain, find, All, Bool-cases, Option-cases,
  eq_of_beq, beq_refl, ne_of_beq, and_true, subst,
}
use teledap.Dict
use teledap.Cache.{
  VariableHandleEntry, VariableHandleCache, same_slot, or_default, replace_in, put, insert,
  invalidate, exact_in, lookup, is_empty, len,
}
use teledap.Cache.Slots.{
  IsWellFormed, retain-Fresh, Named-or_default, get-put_self, get-put_ne, invalidate-IsWellFormed,
}

abbrev pub at_slot : Option ℕ → Option String → VariableHandleEntry → Bool
at_slot f s e = e.frame_id == f && e.scope_name == s

find-append_last {ℓ} :
    {A : Type ℓ} (p : A → Bool) (xs : List A) (a : A)
    → All (λ x. p x ≡ false) xs
    → p a ≡ true
    → find p (xs ++ a ∷ []) ≡ some a
find-append_last p [] a h q = rw q
find-append_last p (x ∷ xs) a (k, h) q = rw k (find-append_last p xs a h q)

find-retain {ℓ} :
    {A : Type ℓ} (p q : A → Bool) (xs ys : List A) {a : A}
    → ((x : A) → p x ≡ true → q x ≡ true)
    → find p xs ≡ some a
    → find p (retain q xs ++ ys) ≡ some a
find-retain p q [] ys h k = cc
find-retain p q (x ∷ xs) ys h k = elim (Bool-cases (p x)) [
  | inl e ↦ rw (h x e, e) (rw e at k)
  | inr e ↦ elim (Bool-cases (q x)) [
    | inl d ↦ rw (d, e) (find-retain p q xs ys h (rw e at k))
    | inr d ↦ rw d (find-retain p q xs ys h (rw e at k))
  ]
]

at_slot_self : (a : VariableHandleEntry) → at_slot a.frame_id a.scope_name a ≡ true
at_slot_self a = rw (beq_refl a.frame_id, beq_refl a.scope_name)

-- What was inserted last for a name, frame and scope is what a lookup of these three returns.
pub lookup-insert_self :
    (c : VariableHandleCache) (a : VariableHandleEntry)
    → IsWellFormed c
    → lookup (insert c a) a.name a.frame_id a.scope_name ≡ some a
unfolding lookup insert replace_in exact_in
lookup-insert_self c a w =
    let l = or_default (Dict.get c.entries a.name) in
    let (named, _) = Named-or_default c a.name w in
    rw (
      get-put_self c.entries a,
      find-append_last (at_slot a.frame_id a.scope_name) (retain (λ e. not (same_slot a e)) l) a
          (retain-Fresh a l named) (at_slot_self a),
    )

pub at_slot→eq :
    (f : Option ℕ) (s : Option String) (e : VariableHandleEntry)
    → at_slot f s e ≡ true
    → (e.frame_id ≡ f) × (e.scope_name ≡ s)
at_slot→eq f s e h =
    let (p, q) = and_true (e.frame_id == f) (e.scope_name == s) h in
    (eq_of_beq e.frame_id f p, eq_of_beq e.scope_name s q)

same_slot→eq :
    (a e : VariableHandleEntry) → same_slot a e ≡ true → at_slot a.frame_id a.scope_name e ≡ true
unfolding same_slot
same_slot→eq a e h = ground arith

-- An entry at the looked-up frame and scope is not in the slot of an entry that is elsewhere.
other_slot :
    (a e : VariableHandleEntry) (f : Option ℕ) (s : Option String)
    → at_slot f s a ≡ false
    → at_slot f s e ≡ true
    → not (same_slot a e) ≡ true
other_slot a e f s h k = elim (Bool-cases (same_slot a e)) [
  | inr q ↦ rw q
  | inl q ↦
      let (ef, es) = at_slot→eq f s e k in
      let (af, ag) = at_slot→eq a.frame_id a.scope_name e (same_slot→eq a e q) in
      cc (h, at_slot_self a, ef, es, af, ag)
]

exact_kept :
    (a : VariableHandleEntry) (l : List VariableHandleEntry) (f : Option ℕ) (s : Option String)
    {e : VariableHandleEntry}
    → at_slot f s a ≡ false
    → exact_in f s l ≡ some e
    → exact_in f s (replace_in a l) ≡ some e
unfolding exact_in replace_in
exact_kept a l f s h k =
    find-retain (at_slot f s) (λ e. not (same_slot a e)) l (a ∷ []) (λ x p. other_slot a x f s h p)
      k

-- The exact entry of a name, frame and scope.
unfoldable pub exact :
    VariableHandleCache → String → Option ℕ → Option String → Option VariableHandleEntry
exact c name frame_id scope_name =
    exact_in frame_id scope_name (or_default (Dict.get c.entries name))

exact-lookup :
    (c : VariableHandleCache) (n : String) (f : Option ℕ) (s : Option String)
    {e : VariableHandleEntry}
    → exact c n f s ≡ some e
    → lookup c n f s ≡ some e
unfolding exact lookup exact_in
exact-lookup c n f s h = elim (Option-cases (Dict.get c.entries n)) [
  | inl k ↦ cc (rw k at h)
  | inr (l, k) ↦ rw (k, rw k at h)
]

exact-insert_ne :
    (c : VariableHandleCache) (a : VariableHandleEntry) (n : String) (f : Option ℕ)
    (s : Option String) {e : VariableHandleEntry}
    → (a.name == n && at_slot f s a) ≡ false
    → exact c n f s ≡ some e
    → exact (insert c a) n f s ≡ some e
unfolding exact insert
exact-insert_ne c a n f s {e} h k = elim (Bool-cases (a.name == n)) [
  | inr p ↦ rw (get-put_ne c.entries a n (ne_of_beq a.name n p)) k
  | inl p ↦
      subst
        (λ m.
          exact_in f s (or_default (Dict.get c.entries m)) ≡ some e
          → exact_in f s (or_default (Dict.get (put c.entries a) m)) ≡ some e)
        (eq_of_beq a.name n p)
        (λ q. rw (get-put_self c.entries a) (exact_kept a _ f s (ground arith) q)) k
]

-- A lookup that has an exact entry returns it still after an insertion for another name, frame or
-- scope.
pub lookup-insert_ne :
    (c : VariableHandleCache) (a : VariableHandleEntry) (n : String) (f : Option ℕ)
    (s : Option String) {e : VariableHandleEntry}
    → (a.name == n && at_slot f s a) ≡ false
    → exact c n f s ≡ some e
    → lookup (insert c a) n f s ≡ some e
lookup-insert_ne c a n f s h k = exact-lookup (insert c a) n f s (exact-insert_ne c a n f s h k)

-- After an invalidation no lookup finds anything, until an insertion: the cache is empty and not
-- valid, and an insertion makes it valid with the new entry.
pub invalidate_forgets :
    (c : VariableHandleCache) (n : String) (f : Option ℕ) (s : Option String)
    (a : VariableHandleEntry)
    → (lookup (invalidate c) n f s ≡ none)
      × (is_empty (invalidate c) ≡ true)
      × ((invalidate c).valid ≡ false)
      × ((insert (invalidate c) a).valid ≡ true)
      × (lookup (insert (invalidate c) a) a.name a.frame_id a.scope_name ≡ some a)
unfolding invalidate lookup Dict.get is_empty len insert
invalidate_forgets c n f s a =
    (refl, refl, refl, refl, lookup-insert_self (invalidate c) a (invalidate-IsWellFormed c))
