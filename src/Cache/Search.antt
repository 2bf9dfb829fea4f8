-- ===== src/Cache/Search.antt =====
-- What `search` returns: the most recent of the entries whose name holds the query.
use mathlib.Core.List.{Perm}
use mathlib.Core.List.Perm
use teledap.Prelude.{
  ℕ, suc, ◌≤◌, min, ◌≡◌, refl, ap, List, [], ◌∷◌, ◌++◌, String, arith, leb, length, drop,
  take-append-drop, length-take, All, Bool-cases, inl, inr, ◌∙◌, leb→le,
}
use teledap.Cache.{
  VariableHandleEntry, VariableHandleCache, insert_by_age, sort_by_age, collect, search,
}

-- No entry of the list is more recent.
abbrev pub Recent : VariableHandleEntry → List VariableHandleEntry → Type 0
Recent e = All (λ x. x.captured_at ≤ e.captured_at)

abbrev pub SortedByAge : List VariableHandleEntry → Type 0
SortedByAge [] = Unit
SortedByAge (e ∷ l) = Recent e l × SortedByAge l

insert_by_age-perm :
    (e : VariableHandleEntry) (l : List VariableHandleEntry) → Perm (insert_by_age e l) (e ∷ l)
unfolding insert_by_age
insert_by_age-perm e [] = Perm.refl (e ∷ [])
insert_by_age-perm e (x ∷ l) = elim (Bool-cases (leb x.captured_at e.captured_at)) [
  | inl h ↦ rw h (Perm.refl (e ∷ x ∷ l))
  | inr h ↦ rw h (Perm.trans (Perm.cons x (insert_by_age-perm e l)) (Perm.swap e x l))
]

sort_by_age-perm : (l : List VariableHandleEntry) → Perm (sort_by_age l) l
unfolding sort_by_age
sort_by_age-perm [] = Perm.refl []
sort_by_age-perm (e ∷ l) =
    Perm.trans (insert_by_age-perm e (sort_by_age l)) (Perm.cons e (sort_by_age-perm l))

insert_by_age-Recent :
    (a e : VariableHandleEntry) (l : List VariableHandleEntry)
    → e.captured_at ≤ a.captured_at
    → Recent a l
    → Recent a (insert_by_age e l)
unfolding insert_by_age
insert_by_age-Recent a e [] p h = (p, tt)
insert_by_age-Recent a e (x ∷ l) p (q, h) = elim (Bool-cases (leb x.captured_at e.captured_at)) [
  | inl k ↦ rw k (p, (q, h))
  | inr k ↦ rw k (q, insert_by_age-Recent a e l p h)
]

Recent-trans :
    (a e : VariableHandleEntry) (l : List VariableHandleEntry)
    → e.captured_at ≤ a.captured_at
    → Recent e l
    → Recent a l
Recent-trans a e [] p h = tt
Recent-trans a e (x ∷ l) p (q, h) = (omega arith, Recent-trans a e l p h)

insert_by_age-SortedByAge :
    (e : VariableHandleEntry) (l : List VariableHandleEntry)
    → SortedByAge l
    → SortedByAge (insert_by_age e l)
unfolding insert_by_age
insert_by_age-SortedByAge e [] h = (tt, tt)
insert_by_age-SortedByAge e (x ∷ l) (q, h) = elim (Bool-cases (leb x.captured_at e.captured_at)) [
  | inl k ↦
      let p = leb→le x.captured_at e.captured_at k in rw k ((p, Recent-trans e x l p q), (q, h))
  | inr k ↦ rw k (insert_by_age-Recent x e l (ground arith) q, insert_by_age-SortedByAge e l h)
]

sort_by_age-SortedByAge : (l : List VariableHandleEntry) → SortedByAge (sort_by_age l)
unfolding sort_by_age
sort_by_age-SortedByAge [] = tt
sort_by_age-SortedByAge (e ∷ l) =
    insert_by_age-SortedByAge e (sort_by_age l) (sort_by_age-SortedByAge l)

length-insert_by_age :
    (e : VariableHandleEntry) (l : List VariableHandleEntry)
    → length (insert_by_age e l) ≡ suc (length l)
unfolding insert_by_age
length-insert_by_age e [] = refl
length-insert_by_age e (x ∷ l) = ground (arith, length-insert_by_age e l)

length-sort_by_age : (l : List VariableHandleEntry) → length (sort_by_age l) ≡ length l
unfolding sort_by_age
length-sort_by_age [] = refl
length-sort_by_age (e ∷ l) = length-insert_by_age e (sort_by_age l) ∙ ap suc (length-sort_by_age l)

-- With the entries that a search leaves out behind its results, these are all the matching entries,
-- the most recent first; and it leaves none out unless it returns as many as the limit.
pub search_most_recent :
    (to_lowercase : String → String) (c : VariableHandleCache) (query : String) (limit : ℕ)
    → (rest : List VariableHandleEntry) × Perm
        (search to_lowercase c query limit ++ rest)
        (collect to_lowercase query c.entries)
      × SortedByAge (search to_lowercase c query limit ++ rest)
      × (length (search to_lowercase c query limit)
          ≡ min limit (length (collect to_lowercase query c.entries)))
unfolding search
search_most_recent to_lowercase c query limit =
    let all = collect to_lowercase query c.entries in
    let e = take-append-drop limit (sort_by_age all) in
    (
      drop limit (sort_by_age all),
      rw e (sort_by_age-perm all),
      rw e (sort_by_age-SortedByAge all),
      rw (length-take limit (sort_by_age all), length-sort_by_age all),
    )
