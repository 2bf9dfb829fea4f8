-- ===== src/Paths/Laws.antt =====
-- What is left of a path when the directory before it is stripped (std::path, as
-- crates/debug-session/src/mapping.rs uses it).
use teledap.Prelude.{
  ℕ, ◌≡◌, ◌≢◌, refl, sym, ap, ◌∙◌, Bool, true, false, not, some, List, [], ◌∷◌, ◌++◌, nat_eq,
  list_eq, ◌==◌, arith, Bool-cases, inl, inr, beq_refl, if◌then◌else◌, not-true,
}
use teledap.Paths.{
  slash, begin_segment, split, join_segments, skipped, trim_left, trim_right, body, shape_of,
  rooted, components, body_after, as_path, strip_prefix, starts_with,
}

begin_segment-cons :
    (c : ℕ) (segs : List (List ℕ))
    → (seg : List ℕ) × (rest : List (List ℕ)) × (begin_segment c segs ≡ seg ∷ rest)
begin_segment-cons c [] = (c ∷ [], [], refl)
begin_segment-cons c (seg ∷ segs) = (c ∷ seg, segs, refl)

-- There is a segment.
split-cons : (s : List ℕ) → (seg : List ℕ) × (rest : List (List ℕ)) × (split s ≡ seg ∷ rest)
unfolding split
split-cons [] = ([], [], refl)
split-cons (c ∷ s) = elim (Bool-cases (c == slash)) [
  | inl p ↦ ([], split s, rw p)
  | inr p ↦ let (seg, rest, e) = begin_segment-cons c (split s) in (seg, rest, rw p e)
]

-- The segments of a path and of what is behind a slash.
pub split-append : (a b : List ℕ) → split (a ++ slash ∷ b) ≡ split a ++ split b
unfolding split
split-append [] b = refl
split-append (c ∷ a) b =
    let (seg, rest, e) = split-cons a in
    elim (Bool-cases (c == slash)) [
      | inl p ↦ rw (p, split-append a b)
      | inr p ↦ rw (p, split-append a b, e)
    ]

join_segments-begin :
    (c : ℕ) (seg : List ℕ) (segs : List (List ℕ))
    → join_segments (begin_segment c (seg ∷ segs)) ≡ c ∷ join_segments (seg ∷ segs)
unfolding join_segments
join_segments-begin c seg [] = refl
join_segments-begin c seg (next ∷ segs) = refl

join_segments-slash :
    (segs : List (List ℕ)) → segs ≢ [] → join_segments ([] ∷ segs) ≡ slash ∷ join_segments segs
unfolding join_segments
join_segments-slash [] h = absurd (h refl)
join_segments-slash (seg ∷ segs) h = refl

pub join_segments-split : (s : List ℕ) → join_segments (split s) ≡ s
unfolding split
join_segments-split [] = unfold join_segments in refl
join_segments-split (c ∷ s) =
    let (seg, rest, e) = split-cons s in
    let ih : join_segments (seg ∷ rest) ≡ s = ap join_segments (sym e) ∙ join_segments-split s in
    elim (Bool-cases (c == slash)) [
      | inl p ↦
          let q : c ≡ slash = ground (arith, p) in
          rw (p, e, join_segments-slash (seg ∷ rest) (λ h. cc h), ih, q)
      | inr p ↦ rw (p, e, join_segments-begin, ih)
    ]

body_after-skipped :
    (seg : List ℕ) (segs bs : List (List ℕ))
    → skipped seg ≡ true
    → as_path (body_after (seg ∷ segs) bs) ≡ as_path (body_after segs bs)
unfolding body_after as_path trim_left
body_after-skipped seg [] [] p = rw p
body_after-skipped seg (next ∷ segs) [] p = rw p
body_after-skipped seg segs (b ∷ bs) p = rw p

body_after-kept :
    (seg : List ℕ) (segs bs : List (List ℕ))
    → skipped seg ≡ false
    → body_after (seg ∷ segs) (seg ∷ bs) ≡ body_after segs bs
unfolding body_after
body_after-kept seg segs bs p = rw (p, beq_refl seg)

body-cons :
    (seg : List ℕ) (segs : List (List ℕ))
    → body (seg ∷ segs) ≡ (if skipped seg then body segs else seg ∷ body segs)
unfolding body
body-cons seg segs = refl

body_after-nil : (segs : List (List ℕ)) → body_after segs [] ≡ some segs
unfolding body_after
body_after-nil [] = refl
body_after-nil (seg ∷ segs) = refl

-- Behind the components of some segments stand the segments that follow, but for skipped ones.
pub as_path-body_after :
    (segs rest : List (List ℕ))
    → as_path (body_after (segs ++ rest) (body segs)) ≡ as_path (some rest)
unfolding body
as_path-body_after [] rest = ap as_path (body_after-nil rest)
as_path-body_after (seg ∷ segs) rest = elim (Bool-cases (skipped seg)) [
  | inl p ↦
      rw (p, body_after-skipped seg (segs ++ rest) (body segs) p) (as_path-body_after segs rest)
  | inr p ↦ rw (p, body_after-kept seg (segs ++ rest) (body segs) p) (as_path-body_after segs rest)
]

shape_of-rooted : (s : List ℕ) → shape_of (split (slash ∷ s)) ≡ rooted (split s)
unfolding split
shape_of-rooted s = let (seg, rest, e) = split-cons s in rw e

-- What stands behind an absolute directory and a slash, but for skipped segments at its ends.
pub strip_prefix-append :
    (d r : List ℕ) → strip_prefix (slash ∷ (d ++ slash ∷ r)) (slash ∷ d) ≡ as_path (some (split r))
unfolding strip_prefix components
strip_prefix-append d r =
    rw (shape_of-rooted (d ++ slash ∷ r), shape_of-rooted d, split-append d r)
      (as_path-body_after (split d) (split r))

-- So it starts with the directory.
pub starts_with-append : (d r : List ℕ) → starts_with (slash ∷ (d ++ slash ∷ r)) (slash ∷ d) ≡ true
unfolding starts_with
starts_with-append d r = rw (strip_prefix-append d r) (unfold as_path in refl)

-- The first segment, or the last one, is a component.
abbrev pub first_kept : List (List ℕ) → Bool
first_kept [] = false
first_kept (seg ∷ segs) = not (skipped seg)

abbrev pub last_kept : List (List ℕ) → Bool
last_kept [] = false
last_kept (seg ∷ []) = not (skipped seg)
last_kept (seg ∷ next ∷ segs) = last_kept (next ∷ segs)

-- A relative path with components at both ends: it is not empty, and neither begins with "/" or "./"
-- nor ends with "/" or "/.".
abbrev pub IsTidy : List ℕ → Type 0
IsTidy r = (first_kept (split r) ≡ true) × (last_kept (split r) ≡ true)

trim_left-kept : (segs : List (List ℕ)) → first_kept segs ≡ true → trim_left segs ≡ segs
unfolding trim_left
trim_left-kept [] h = cc h
trim_left-kept (seg ∷ segs) h = rw (not-true (skipped seg) h)

trim_right-kept : (segs : List (List ℕ)) → last_kept segs ≡ true → trim_right segs ≡ segs
unfolding trim_right
trim_right-kept [] h = cc h
trim_right-kept (seg ∷ []) h = rw (not-true (skipped seg) h)
trim_right-kept (seg ∷ next ∷ segs) h = rw (trim_right-kept (next ∷ segs) h)

pub strip_prefix-tidy :
    (d r : List ℕ) → IsTidy r → strip_prefix (slash ∷ (d ++ slash ∷ r)) (slash ∷ d) ≡ some r
strip_prefix-tidy d r (f, l) =
    strip_prefix-append d r
    ∙ unfold as_path in
      rw (trim_left-kept (split r) f, trim_right-kept (split r) l, join_segments-split r)
