-- ===== src/PathMapper/Longest.antt =====
-- Which alias `resolve` of crates/debug-session/src/mapping.rs uses.
use teledap.Prelude.{
  subst, ℕ, ◌≤◌, ◌≡◌, refl, sym, ap, ◌∙◌, Bool, true, false, some, List, [], ◌∷◌, arith, nat_eq,
  list_eq, length, take, leb, leb→le, Bool-cases, Option-cases, ◌⊎◌, inl, inr, All,
}
use teledap.Dict.{Dict}
use teledap.Cache.{is_some}
use teledap.Paths.{is_absolute}
use teledap.PathMapper.{
  PathMapper, replace, match_alias, place, longest_first, first_match, resolve,
}
use teledap.PathMapper.Matches.{length-replace, take_of_match}

abbrev pub Entry : Type 0
Entry = List ℕ × List ℕ

-- An entry of the map.
abbrev pub Has : Entry → Dict (List ℕ) (List ℕ) → Type 0
Has e [] = ⊥
Has e (x ∷ l) = (x ≡ e) ⊎ Has e l

abbrev pub Matches : List ℕ → Entry → Type 0
Matches path e = is_some (match_alias path e.0 e.1) ≡ true

All-Has : (P : Entry → Type 0) (l : Dict (List ℕ) (List ℕ)) (e : Entry) → Has e l → All P l → P e
All-Has P [] e h a = absurd h
All-Has P (x ∷ l) e (inl q) (p, a) = subst P q p
All-Has P (x ∷ l) e (inr h) (p, a) = All-Has P l e h a

-- No entry stands behind one with a shorter alias.
abbrev IsDescending : Dict (List ℕ) (List ℕ) → Type 0
IsDescending [] = Unit {0}
IsDescending (x ∷ l) = All (λ y. length y.0 ≤ length x.0) l × IsDescending l

All-place :
    (P : Entry → Type 0) (x : Entry) (l : Dict (List ℕ) (List ℕ))
    → P x
    → All P l
    → All P (place x l)
unfolding place
All-place P (a, d) [] p h = (p, tt)
All-place P (a, d) ((b, e) ∷ l) p (q, h) = elim (Bool-cases (leb (length b) (length a))) [
  | inl t ↦ rw t (p, (q, h))
  | inr t ↦ rw t (q, All-place P (a, d) l p h)
]

pub All-longest_first :
    (P : Entry → Type 0) (l : Dict (List ℕ) (List ℕ)) → All P l → All P (longest_first l)
unfolding longest_first
All-longest_first P [] h = tt
All-longest_first P (x ∷ l) (p, h) = All-place P x (longest_first l) p (All-longest_first P l h)

Has-place : (x e : Entry) (l : Dict (List ℕ) (List ℕ)) → (x ≡ e) ⊎ Has e l → Has e (place x l)
unfolding place
Has-place (a, d) e [] h = h
Has-place (a, d) e ((b, f) ∷ l) h = elim (Bool-cases (leb (length b) (length a))) [
  | inl t ↦ rw t h
  | inr t ↦ rw t (elim h [
    | inl p ↦ inr (Has-place (a, d) e l (inl p))
    | inr (inl p) ↦ inl p
    | inr (inr k) ↦ inr (Has-place (a, d) e l (inr k))
  ])
]

Has-longest_first : (e : Entry) (l : Dict (List ℕ) (List ℕ)) → Has e l → Has e (longest_first l)
unfolding longest_first
Has-longest_first e [] h = h
Has-longest_first e (x ∷ l) (inl p) = Has-place x e (longest_first l) (inl p)
Has-longest_first e (x ∷ l) (inr h) =
    Has-place x e (longest_first l) (inr (Has-longest_first e l h))

All-le :
    (n m : ℕ) (l : Dict (List ℕ) (List ℕ))
    → n ≤ m
    → All (λ y. length y.0 ≤ n) l
    → All (λ y. length y.0 ≤ m) l
All-le n m [] h a = tt
All-le n m (x ∷ l) h (p, a) = (omega (arith, h, p), All-le n m l h a)

place-IsDescending :
    (x : Entry) (l : Dict (List ℕ) (List ℕ)) → IsDescending l → IsDescending (place x l)
unfolding place
place-IsDescending (a, d) [] h = (tt, tt)
place-IsDescending (a, d) ((b, e) ∷ l) (g, h) = elim (Bool-cases (leb (length b) (length a))) [
  | inl t ↦
      let n : length b ≤ length a = leb→le (length b) (length a) t in
      rw t ((n, All-le (length b) (length a) l n g), (g, h))
  | inr t ↦
      let n : length a ≤ length b = ground (arith, t) in
      rw t (All-place (λ y. length y.0 ≤ length b) (a, d) l n g, place-IsDescending (a, d) l h)
]

longest_first-IsDescending : (l : Dict (List ℕ) (List ℕ)) → IsDescending (longest_first l)
unfolding longest_first
longest_first-IsDescending [] = tt
longest_first-IsDescending (x ∷ l) =
    place-IsDescending x (longest_first l) (longest_first-IsDescending l)

-- Two aliases of one length that match one path differ in their separators at most.
same_alias :
    (path : List ℕ) (x e : Entry)
    → Matches path x
    → Matches path e
    → length x.0 ≡ length e.0
    → replace x.0 ≡ replace e.0
same_alias path x e p q n =
    let t : length (replace x.0) ≡ length (replace e.0) =
      length-replace x.0 ∙ n ∙ sym (length-replace e.0) in
    sym (take_of_match path x.0 x.1 p)
    ∙ ap (λ k. take k (replace path)) t
    ∙ take_of_match path e.0 e.1 q

-- The alias is the longest one that matches, and no other one differs from it in separators only.
abbrev pub IsLongest : List ℕ → Dict (List ℕ) (List ℕ) → Entry → Type 0
IsLongest path l e =
    All (λ x. Matches path x → length x.0 ≤ length e.0) l
    × All (λ x. replace x.0 ≡ replace e.0 → x ≡ e) l

same_result :
    (path r s : List ℕ) (x e : Entry)
    → match_alias path x.0 x.1 ≡ some s
    → match_alias path e.0 e.1 ≡ some r
    → x ≡ e
    → some s ≡ some r
same_result path r s x e n m p = sym n ∙ ap (λ y. match_alias path y.0 y.1) p ∙ m

first_match-longest :
    (path r : List ℕ) (l : Dict (List ℕ) (List ℕ)) (e : Entry)
    → IsDescending l
    → Has e l
    → match_alias path e.0 e.1 ≡ some r
    → IsLongest path l e
    → first_match path l ≡ some r
unfolding first_match
first_match-longest path r [] e d h m b = absurd h
first_match-longest path r ((a, f) ∷ l) e (d, ds) h m ((b, bs), (u, us)) =
    elim (Option-cases (match_alias path a f)) [
      | inl n ↦ rw n (elim h [
        | inl p ↦ absurd (cc (n, m, p))
        | inr k ↦ first_match-longest path r l e ds k m (bs, us)
      ])
      | inr (s, n) ↦ rw n (elim h [
        | inl p ↦ same_result path r s (a, f) e n m p
        | inr k ↦
            let p : Matches path (a, f) = rw n refl in
            let q : Matches path e = rw m refl in
            let t : length a ≡ length e.0 =
              omega (arith, b p, All-Has (λ y. length y.0 ≤ length a) l e k d) in
            same_result path r s (a, f) e n m (u (same_alias path (a, f) e p q t))
      ])
    ]

-- A relative path goes by the longest alias that matches it, in whatever order the map is walked and
-- whatever base directories there are.
pub resolve-longest :
    (exists : List ℕ → Bool) (m : PathMapper) (path alias dir r : List ℕ)
    → is_absolute path ≡ false
    → Has (alias, dir) m.aliases
    → IsLongest path m.aliases (alias, dir)
    → match_alias path alias dir ≡ some r
    → resolve exists m path ≡ some r
unfolding resolve
resolve-longest exists m path alias dir r a h (b, u) e =
    let found : first_match path (longest_first m.aliases) ≡ some r =
      first_match-longest path r (longest_first m.aliases) (alias, dir)
        (longest_first-IsDescending m.aliases) (Has-longest_first (alias, dir) m.aliases h) e
        (
          All-longest_first (λ x. Matches path x → length x.0 ≤ length alias) m.aliases b,
          All-longest_first (λ x. replace x.0 ≡ replace alias → x ≡ (alias, dir)) m.aliases u,
        ) in
    rw (a, found)
