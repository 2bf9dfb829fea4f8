-- ===== src/PathMapper/Matches.antt =====
-- Which aliases match a path (crates/debug-session/src/mapping.rs).
use teledap.Prelude.{
  ℕ, suc, ◌≡◌, ◌≢◌, refl, sym, ap, ◌∙◌, true, false, some, List, [], ◌∷◌, ◌++◌, nat_eq, list_eq,
  ◌==◌, arith, length, take, length-append, drop-append, Bool-cases, inl, inr, beq_refl, beq_of_ne,
  eq_of_beq, if◌then◌else◌, append_assoc, and_true,
}
use teledap.Codec
use teledap.Cache.{is_some}
use teledap.Paths.{slash, ends_with_slash, join}
use teledap.PathMapper.{replace, prefix_of, match_alias, normalize_path}

pub length-replace : (s : List ℕ) → length (replace s) ≡ length s
unfolding replace
length-replace [] = refl
length-replace (c ∷ s) = ap (λ n. suc n) (length-replace s)

pub replace-append : (s t : List ℕ) → replace (s ++ t) ≡ replace s ++ replace t
unfolding replace
replace-append [] t = refl
replace-append (c ∷ s) t = ap (λ l. (if c == 92 then slash else c) ∷ l) (replace-append s t)

pub replace_twice : (s : List ℕ) → replace (replace s) ≡ replace s
unfolding replace
replace_twice [] = refl
replace_twice (c ∷ s) = ground (arith, replace_twice s)

take_of_starts_with : (s p : List ℕ) → Codec.starts_with s p ≡ true → take (length p) s ≡ p
unfolding Codec.starts_with
take_of_starts_with s [] h = refl
take_of_starts_with [] (c ∷ p) h = cc h
take_of_starts_with (b ∷ s) (c ∷ p) h =
    let (e, r) = and_true (b == c) (Codec.starts_with s p) h in
    cc (eq_of_beq b c e, take_of_starts_with s p r)

pub starts_with-append : (p s : List ℕ) → Codec.starts_with (p ++ s) p ≡ true
unfolding Codec.starts_with
starts_with-append [] s = refl
starts_with-append (c ∷ p) s = rw (beq_refl c, starts_with-append p s)

take_less : (p q s : List ℕ) → take (length (p ++ q)) s ≡ p ++ q → take (length p) s ≡ p
take_less [] q s h = refl
take_less (c ∷ p) q [] h = cc h
take_less (c ∷ p) q (d ∷ s) h =
    let e : d ≡ c = cc h in
    let t : take (length (p ++ q)) s ≡ p ++ q = cc h in cc (e, take_less p q s t)

take-length : (s : List ℕ) → take (length s) s ≡ s
take-length [] = refl
take-length (c ∷ s) = ap (λ l. c ∷ l) (take-length s)

take_of_prefix : (s a : List ℕ) → Codec.starts_with s (prefix_of a) ≡ true → take (length a) s ≡ a
unfolding prefix_of
take_of_prefix s a h = elim (Bool-cases (ends_with_slash a)) [
  | inl p ↦ take_of_starts_with s a (rw p at h)
  | inr p ↦ take_less a (slash ∷ []) s (take_of_starts_with s (a ++ slash ∷ []) (rw p at h))
]

-- An alias that matches is where the path begins.
pub take_of_match :
    (path alias dir : List ℕ)
    → is_some (match_alias path alias dir) ≡ true
    → take (length (replace alias)) (replace path) ≡ replace alias
unfolding match_alias
take_of_match path alias dir h = elim (Bool-cases (replace path == replace alias)) [
  | inl p ↦
      let e : replace path ≡ replace alias = eq_of_beq (replace path) (replace alias) p in
      rw e (take-length (replace alias))
  | inr p ↦ elim (Bool-cases (Codec.starts_with (replace path) (prefix_of (replace alias)))) [
    | inl q ↦ take_of_prefix (replace path) (replace alias) q
    | inr q ↦ cc (rw (p, q) at h)
  ]
]

longer : (a b : List ℕ) (c : ℕ) → a ++ c ∷ b ≢ a
longer a b c h = absurd (omega (arith, ap length h, length-append a (c ∷ b)))

-- The path of an alias and a file behind it.
pub match_alias-append :
    (alias rem dir : List ℕ)
    → ends_with_slash (replace alias) ≡ false
    → match_alias (alias ++ slash ∷ rem) alias dir ≡ some (replace (join dir (replace rem)))
unfolding match_alias prefix_of normalize_path
match_alias-append alias rem dir h =
    let a = replace alias in
    let r = replace rem in
    let e : replace (alias ++ slash ∷ rem) ≡ (a ++ slash ∷ []) ++ r =
      replace-append alias (slash ∷ rem) ∙ unfold replace in sym (append_assoc a (slash ∷ []) r) in
    let n : (replace (alias ++ slash ∷ rem) == a) ≡ false =
      beq_of_ne (replace (alias ++ slash ∷ rem)) a
        (λ p. longer a r slash (sym (append_assoc a (slash ∷ []) r) ∙ sym e ∙ p)) in
    rw (n, h, e, starts_with-append (a ++ slash ∷ []) r, drop-append (a ++ slash ∷ []) r)
