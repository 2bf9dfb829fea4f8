-- ===== src/PathMapper/RoundTrip.antt =====
-- `reverse` after `resolve` (crates/debug-session/src/mapping.rs).
use mathlib.Core.Option.{map}
use teledap.Prelude.{
  ℕ, ◌<◌, ◌≡◌, refl, ap, ◌∙◌, Bool, true, false, Option, none, some, List, [], ◌∷◌, ◌++◌, nat_eq,
  list_eq, ◌==◌, arith, length, ltb, lt→ltb, ge→ltb, All, ◌⊎◌, inl, inr, Bool-cases, if_intro,
}
use teledap.Dict.{Dict}
use teledap.Paths
use teledap.Paths.{slash, split, is_absolute, ends_with_slash, strip_prefix}
use teledap.Paths.Laws.{IsTidy, strip_prefix-tidy, starts_with-append}
use teledap.PathMapper.{
  PathMapper, replace, resolve, reverse, reversed, best, better, with_remainder,
}
use teledap.PathMapper.Longest.{Entry, Has, IsLongest}
use teledap.PathMapper.Joined.{resolve_relative}

module _ (path : List ℕ) (e : Entry) where
  -- A directory that leads to the path is that of the entry or has a shorter text.
  abbrev pub IsLess : Entry → Type 0
  IsLess x = (x ≡ e) ⊎ (length x.1 < length e.1)

  abbrev IsBelow : Option Entry → Type 0
  IsBelow none = Unit {0}
  IsBelow (some x) = IsLess x

  abbrev pub IsSpecific : Dict (List ℕ) (List ℕ) → Type 0
  IsSpecific l = All (λ x. Paths.starts_with path x.1 ≡ true → IsLess x) l

  better_self : (o : Option Entry) → IsBelow o → better e o ≡ some e
  better_self none h = refl
  better_self (some x) (inl p) =
      if_intro (λ o. o ≡ some e) (ltb (length x.1) (length e.1)) refl (ap {B = Option Entry} some p)
  better_self (some x) (inr p) = rw (lt→ltb (length x.1) (length e.1) p)

  better_less : (x : Entry) → IsLess x → better x (some e) ≡ some e
  better_less x (inl p) =
      if_intro (λ o. o ≡ some e) (ltb (length e.1) (length x.1)) (ap {B = Option Entry} some p) refl
  better_less x (inr p) = rw (ge→ltb (length e.1) (length x.1) (omega (arith, p)))

  better-IsBelow : (x : Entry) (o : Option Entry) → IsLess x → IsBelow o → IsBelow (better x o)
  better-IsBelow x none h k = h
  better-IsBelow x (some y) h k = if_intro IsBelow (ltb (length y.1) (length x.1)) h k

  best-kept :
      (l : Dict (List ℕ) (List ℕ)) (o : Option Entry)
      → o ≡ some e
      → IsSpecific l
      → best path l o ≡ some e
  unfolding best
  best-kept [] o p h = p
  best-kept ((a, d) ∷ l) o p (q, h) = elim (Bool-cases (Paths.starts_with path d)) [
    | inl t ↦
        rw t (best-kept l (better (a, d) o) (ap (better (a, d)) p ∙ better_less (a, d) (q t)) h)
    | inr t ↦ rw t (best-kept l o p h)
  ]

  -- The loop finds the entry.
  best-found :
      (l : Dict (List ℕ) (List ℕ)) (o : Option Entry)
      → IsBelow o
      → Has e l
      → Paths.starts_with path e.1 ≡ true
      → IsSpecific l
      → best path l o ≡ some e
  unfolding best
  best-found [] o b has s h = absurd has
  best-found ((a, d) ∷ l) o b (inl p) s (q, h) =
      let t : Paths.starts_with path d ≡ true =
        ap (λ (x : Entry). Paths.starts_with path x.1) p ∙ s in
      rw t (best-kept l (better (a, d) o) (ap (λ (x : Entry). better x o) p ∙ better_self o b) h)
  best-found ((a, d) ∷ l) o b (inr has) s (q, h) = elim (Bool-cases (Paths.starts_with path d)) [
    | inl t ↦ rw t (best-found l (better (a, d) o) (better-IsBelow (a, d) o (q t) b) has s h)
    | inr t ↦ rw t (best-found l o b has s h)
  ]

tidy_relative : (r : List ℕ) → IsTidy r → is_absolute r ≡ false
unfolding is_absolute split
tidy_relative [] h = refl
tidy_relative (c ∷ s) (f, l) = elim (Bool-cases (c == slash)) [ inl p ↦ cc (rw p at f) | inr p ↦ p ]

with_remainder-tidy :
    (alias r : List ℕ)
    → replace alias ≡ alias
    → replace r ≡ r
    → IsTidy r
    → with_remainder alias r ≡ alias ++ slash ∷ r
unfolding split
with_remainder-tidy alias [] ea er (f, l) = cc f
with_remainder-tidy alias (c ∷ s) ea er t =
    let rel : Paths.has_slash (replace (c ∷ s)) ≡ false =
      ap Paths.has_slash er ∙ unfold is_absolute in tidy_relative (c ∷ s) t in
    rw (rel, ea, er)

reverse-found :
    (m : PathMapper) (path alias dir r : List ℕ)
    → best path m.aliases none ≡ some (alias, dir)
    → strip_prefix path dir ≡ some r
    → reverse m path ≡ some (with_remainder alias r)
unfolding reverse
reverse-found m path alias dir r b s =
    ap (reversed path m.base_dirs) b ∙ ap (map (with_remainder alias)) s

-- A relative path that is tidy behind an alias, all with slashes for separators, is resolved to a path
-- that is reversed to it, if neither the alias nor its absolute directory ends in a slash, the alias is
-- the longest one that matches the path, no other alias differs from it in separators only, and no
-- other registered directory that leads to the result has a text as long as the alias's directory.
pub reverse-resolve :
    (exists : List ℕ → Bool) (m : PathMapper) (alias d rem : List ℕ)
    → replace alias ≡ alias
    → replace d ≡ d
    → replace rem ≡ rem
    → IsTidy rem
    → is_absolute (alias ++ slash ∷ rem) ≡ false
    → ends_with_slash alias ≡ false
    → ends_with_slash (slash ∷ d) ≡ false
    → Has (alias, slash ∷ d) m.aliases
    → IsLongest (alias ++ slash ∷ rem) m.aliases (alias, slash ∷ d)
    → IsSpecific (slash ∷ (d ++ slash ∷ rem)) (alias, slash ∷ d) m.aliases
    → (p : List ℕ) × (resolve exists m (alias ++ slash ∷ rem) ≡ some p)
      × (reverse m p ≡ some (alias ++ slash ∷ rem))
reverse-resolve exists m alias d rem ea ed er t rel sa sd has longest specific =
    let path = slash ∷ (d ++ slash ∷ rem) in
    let found =
      best-found path (alias, slash ∷ d) m.aliases none tt has (starts_with-append d rem)
        specific in
    (
      path,
      resolve_relative exists m alias d rem rel has longest (ap ends_with_slash ea ∙ sa)
            (ap is_absolute er ∙ tidy_relative rem t) sd
          ∙ (λ i. some (slash ∷ (ed i ++ slash ∷ er i))),
      reverse-found m path alias (slash ∷ d) rem found (strip_prefix-tidy d rem t)
          ∙ ap {B = Option (List ℕ)} some (with_remainder-tidy alias rem ea er t),
    )
