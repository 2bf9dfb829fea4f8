-- ===== src/Cache/Slots.antt =====
-- What holds of a cache that insertions have built: every list stands under its entries' name and
-- holds an entry, and no frame and scope stand twice in it.
use teledap.Prelude.{
  ◌≡◌, refl, Bool, true, false, not, ◌&&◌, some, List, [], ◌∷◌, ◌++◌, String, arith, PartialEq,
  nat_eq, string_eq, option_eq, ◌==◌, retain, All, All-append, Bool-cases, inl, inr, eq_of_beq,
  beq_refl, beq_of_ne, ◌≢◌, eq_iff, sym, Option-cases, subst, some_inj, ne_of_beq, ◌∙◌,
}
use teledap.Dict
use teledap.Cache.{
  VariableHandleEntry, Entries, VariableHandleCache, new, same_slot, or_default, replace_in, put,
  insert, put_all, insert_batch, invalidate,
}

abbrev pub Named : String → List VariableHandleEntry → Type 0
Named n = All (λ e. e.name ≡ n)

-- No other entry of the list has this one's frame and scope.
abbrev pub Fresh : VariableHandleEntry → List VariableHandleEntry → Type 0
Fresh a = All (λ e. (e.frame_id == a.frame_id && e.scope_name == a.scope_name) ≡ false)

abbrev pub Distinct : List VariableHandleEntry → Type 0
Distinct [] = Unit
Distinct (e ∷ l) = Fresh e l × Distinct l

pub record IsSlotList (n : String) (l : List VariableHandleEntry) : Type 0 where
  pub named : Named n l
  pub distinct : Distinct l
  pub filled : l ≢ []

abbrev pub IsWellFormed : VariableHandleCache → Type 0
IsWellFormed c =
    (n : String) (l : List VariableHandleEntry) → Dict.get c.entries n ≡ some l → IsSlotList n l

retain-Named :
    (n : String) (p : VariableHandleEntry → Bool) (l : List VariableHandleEntry)
    → Named n l
    → Named n (retain p l)
retain-Named n p [] h = tt
retain-Named n p (e ∷ l) (q, h) = elim (Bool-cases (p e)) [
  | inl k ↦ rw k (q, retain-Named n p l h)
  | inr k ↦ rw k (retain-Named n p l h)
]

retain-Fresh_keep :
    (a : VariableHandleEntry) (p : VariableHandleEntry → Bool) (l : List VariableHandleEntry)
    → Fresh a l
    → Fresh a (retain p l)
retain-Fresh_keep a p [] h = tt
retain-Fresh_keep a p (e ∷ l) (q, h) = elim (Bool-cases (p e)) [
  | inl k ↦ rw k (q, retain-Fresh_keep a p l h)
  | inr k ↦ rw k (retain-Fresh_keep a p l h)
]

retain-Distinct :
    (p : VariableHandleEntry → Bool) (l : List VariableHandleEntry)
    → Distinct l
    → Distinct (retain p l)
retain-Distinct p [] h = tt
retain-Distinct p (e ∷ l) (q, h) = elim (Bool-cases (p e)) [
  | inl k ↦ rw k (retain-Fresh_keep e p l q, retain-Distinct p l h)
  | inr k ↦ rw k (retain-Distinct p l h)
]

-- `a` and `e` differ in frame or scope if their names agree and `same_slot` refuses them.
slot_of_name :
    (a e : VariableHandleEntry)
    → e.name ≡ a.name
    → same_slot a e ≡ false
    → (e.frame_id == a.frame_id && e.scope_name == a.scope_name) ≡ false
unfolding same_slot
slot_of_name a e p h = ground (arith, eq_iff e.name a.name)

-- What `retain` leaves has no entry of the new entry's frame and scope.
pub retain-Fresh :
    (a : VariableHandleEntry) (l : List VariableHandleEntry)
    → Named a.name l
    → Fresh a (retain (λ e. not (same_slot a e)) l)
retain-Fresh a [] h = tt
retain-Fresh a (e ∷ l) (p, h) = elim (Bool-cases (same_slot a e)) [
  | inl k ↦ rw k (retain-Fresh a l h)
  | inr k ↦ rw k (slot_of_name a e p k, retain-Fresh a l h)
]

beq_comm {ℓ} : {A : Type ℓ} ⦃e : PartialEq A⦄ (x y : A) → (x == y) ≡ (y == x)
beq_comm ⦃e⦄ x y = elim (Bool-cases (x == y)) [
  | inl h ↦ rw (h, eq_of_beq x y h) (sym (beq_refl y))
  | inr h ↦ rw h (sym (beq_of_ne y x (λ p. cc (h, beq_refl x, p))))
]

Distinct-append :
    (l : List VariableHandleEntry) (a : VariableHandleEntry)
    → Distinct l
    → Fresh a l
    → Distinct (l ++ a ∷ [])
Distinct-append [] a h f = (tt, tt)
Distinct-append (e ∷ l) a (p, h) (q, f) = (
  All-append _ l (a ∷ []) p
      (rw (beq_comm a.frame_id e.frame_id, beq_comm a.scope_name e.scope_name) q, tt),
  Distinct-append l a h f,
)

append-ne-nil {ℓ} : {A : Type ℓ} (l : List A) (a : A) → l ++ a ∷ [] ≢ []
append-ne-nil [] a h = cc
append-ne-nil (x ∷ l) a h = cc

replace_in-IsSlotList :
    (a : VariableHandleEntry) (l : List VariableHandleEntry)
    → Named a.name l
    → Distinct l
    → IsSlotList a.name (replace_in a l)
unfolding replace_in
replace_in-IsSlotList a l h d =
    let kept = retain (λ e. not (same_slot a e)) l in
    record {
      named = All-append _ kept (a ∷ []) (retain-Named a.name _ l h) (refl, tt);
      distinct = Distinct-append kept a (retain-Distinct _ l d) (retain-Fresh a l h);
      filled = append-ne-nil kept a;
    }

-- The list that an insertion starts from.
pub Named-or_default :
    (c : VariableHandleCache) (n : String)
    → IsWellFormed c
    → Named n (or_default (Dict.get c.entries n)) × Distinct (or_default (Dict.get c.entries n))
Named-or_default c n w = elim (Option-cases (Dict.get c.entries n)) [
  | inl h ↦ rw h (tt, tt)
  | inr (l, h) ↦ rw h ((w n l h).named, (w n l h).distinct)
]

pub get-put_self :
    (m : Entries) (a : VariableHandleEntry)
    → Dict.get (put m a) a.name ≡ some (replace_in a (or_default (Dict.get m a.name)))
unfolding put
get-put_self m a = Dict.get-insert_self m a.name _

pub get-put_ne :
    (m : Entries) (a : VariableHandleEntry) (n : String)
    → a.name ≢ n
    → Dict.get (put m a) n ≡ Dict.get m n
unfolding put
get-put_ne m a n h = Dict.get-insert_ne m a.name n _ h

-- A list of the new cache, under the new entry's name.
put_at :
    (c : VariableHandleCache) (a : VariableHandleEntry) {l : List VariableHandleEntry} (n : String)
    → IsWellFormed c
    → a.name ≡ n
    → Dict.get (put c.entries a) n ≡ some l
    → IsSlotList n l
put_at c a {l} n w e =
    let (named, distinct) = Named-or_default c a.name w in
    subst (λ m. Dict.get (put c.entries a) m ≡ some l → IsSlotList m l) e
      (λ q.
        subst (IsSlotList a.name) (some_inj (sym (get-put_self c.entries a) ∙ q))
          (replace_in-IsSlotList a _ named distinct))

-- Inserting an entry keeps every list under its name, free of double slots and filled.
pub insert-IsWellFormed :
    (c : VariableHandleCache) (a : VariableHandleEntry) → IsWellFormed c → IsWellFormed (insert c a)
unfolding insert
insert-IsWellFormed c a w n l q = elim (Bool-cases (a.name == n)) [
  | inl h ↦ put_at c a n w (eq_of_beq a.name n h) q
  | inr h ↦ w n l (sym (get-put_ne c.entries a n (ne_of_beq a.name n h)) ∙ q)
]

put_all-IsWellFormed :
    (m : Entries) (batch : List VariableHandleEntry) (b d : Bool)
    → IsWellFormed (record { entries = m; valid = b })
    → IsWellFormed (record { entries = put_all m batch; valid = d })
unfolding put_all
put_all-IsWellFormed m [] b d w = w
put_all-IsWellFormed m (a ∷ batch) b d w =
    put_all-IsWellFormed (put m a) batch true d
      (unfold insert in insert-IsWellFormed (record { entries = m; valid = b }) a w)

-- A batch of insertions keeps the cache well formed too.
pub insert_batch-IsWellFormed :
    (c : VariableHandleCache) (batch : List VariableHandleEntry)
    → IsWellFormed c
    → IsWellFormed (insert_batch c batch)
unfolding insert_batch
insert_batch-IsWellFormed c batch w = put_all-IsWellFormed c.entries batch c.valid true w

pub new-IsWellFormed : IsWellFormed new
unfolding Dict.get
new-IsWellFormed n l h = cc

pub invalidate-IsWellFormed : (c : VariableHandleCache) → IsWellFormed (invalidate c)
unfolding Dict.get invalidate
invalidate-IsWellFormed c n l h = cc
