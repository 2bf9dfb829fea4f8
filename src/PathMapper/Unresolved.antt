-- ===== src/PathMapper/Unresolved.antt =====
-- When `resolve` of crates/debug-session/src/mapping.rs finds nothing.
use teledap.Prelude.{
  ℕ, ◌≡◌, ◌↔◌, refl, Bool, false, Option, none, some, List, [], ◌∷◌, nat_eq, list_eq, length, leb,
  All, Bool-cases, inl, inr,
}
use teledap.Dict.{Dict}
use teledap.Paths.{is_absolute}
use teledap.PathMapper.{
  PathMapper, match_alias, place, longest_first, first_match, existing, in_first, or_else, resolve,
}
use teledap.PathMapper.Longest.{Entry, All-longest_first}

All-place_inverse :
    (P : Entry → Type 0) (x : Entry) (l : Dict (List ℕ) (List ℕ))
    → All P (place x l)
    → P x × All P l
unfolding place
All-place_inverse P (a, d) [] h = h
All-place_inverse P (a, d) ((b, e) ∷ l) h = elim (Bool-cases (leb (length b) (length a))) [
  | inl t ↦ rw t at h
  | inr t ↦
      let (q, k) : P (b, e) × All P (place (a, d) l) = rw t at h in
      let (p, r) = All-place_inverse P (a, d) l k in (p, (q, r))
]

All-longest_first_inverse :
    (P : Entry → Type 0) (l : Dict (List ℕ) (List ℕ)) → All P (longest_first l) → All P l
unfolding longest_first
All-longest_first_inverse P [] h = tt
All-longest_first_inverse P (x ∷ l) h =
    let (p, r) = All-place_inverse P x (longest_first l) h in (p, All-longest_first_inverse P l r)

abbrev pub Misses : List ℕ → Entry → Type 0
Misses path x = match_alias path x.0 x.1 ≡ none

or_else-none : {A : Type 0} (o p : Option A) → or_else o p ≡ none → (o ≡ none) × (p ≡ none)
or_else-none none p h = (refl, h)
or_else-none (some a) p h = absurd (cc h)

first_match-none :
    (path : List ℕ) (l : Dict (List ℕ) (List ℕ)) → (first_match path l ≡ none) ↔ All (Misses path) l
unfolding first_match
first_match-none path [] = (λ _. tt, λ _. refl)
first_match-none path ((a, d) ∷ l) = (
  λ h.
      let (m, r) = or_else-none (match_alias path a d) (first_match path l) h in
      (m, (first_match-none path l).0 r),
  λ h. rw h.0 ((first_match-none path l).1 h.1),
)

in_first-none : (path : List ℕ) (bases : List (List ℕ)) → in_first path bases ≡ none → bases ≡ []
in_first-none path [] h = refl
in_first-none path (b ∷ bases) h = absurd (cc h)

unresolved :
    (exists : List ℕ → Bool) (m : PathMapper) (path : List ℕ)
    → resolve exists m path ≡ none
    → (is_absolute path ≡ false) × All (Misses path) m.aliases × (m.base_dirs ≡ [])
unfolding resolve
unresolved exists m path h = elim (Bool-cases (is_absolute path)) [
  | inl a ↦ absurd (cc (rw a at h))
  | inr a ↦
      let found = first_match path (longest_first m.aliases) in
      let bases = existing exists path m.base_dirs in
      let k : or_else found (or_else bases (in_first path m.base_dirs)) ≡ none = rw a at h in
      let (f, g) = or_else-none found (or_else bases (in_first path m.base_dirs)) k in
      let (b, i) = or_else-none bases (in_first path m.base_dirs) g in
      (
        a,
        All-longest_first_inverse (Misses path) m.aliases
            ((first_match-none path (longest_first m.aliases)).0 f),
        in_first-none path m.base_dirs i,
      )
]

none_left :
    (exists : List ℕ → Bool) (m : PathMapper) (path : List ℕ) (bases : List (List ℕ))
    → m.base_dirs ≡ bases
    → bases ≡ []
    → or_else (existing exists path m.base_dirs) (in_first path m.base_dirs) ≡ none
unfolding existing
none_left exists m path [] p q = rw p
none_left exists m path (b ∷ bases) p q = absurd (cc q)

-- A path is left unresolved exactly when it is relative, no alias matches it, and there is no base
-- directory.
pub resolve-none :
    (exists : List ℕ → Bool) (m : PathMapper) (path : List ℕ)
    → (resolve exists m path ≡ none)
      ↔ ((is_absolute path ≡ false) × All (Misses path) m.aliases × (m.base_dirs ≡ []))
unfolding resolve
resolve-none exists m path = (
  unresolved exists m path,
  λ h.
      let f : first_match path (longest_first m.aliases) ≡ none =
        (first_match-none path (longest_first m.aliases)).1
          (All-longest_first (Misses path) m.aliases h.1) in
      rw (h.0, f) (none_left exists m path m.base_dirs refl h.2),
)
