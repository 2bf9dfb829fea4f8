-- ===== src/PathMapper/Registered.antt =====
-- What a registration does to `resolve` (crates/debug-session/src/mapping.rs).
use teledap.Prelude.{
  subst, ne_of_beq, ℕ, ◌≤◌, ◌≡◌, ◌≢◌, refl, ap, Bool, false, some, List, [], ◌∷◌, nat_eq, list_eq,
  ◌==◌, arith, length, take, length-take, All, inl, inr, beq_refl, Bool-cases, eq_of_beq,
}
use teledap.Dict.{Dict, insert}
use teledap.Dict.Distinct.{IsDistinct}
use teledap.Paths.{is_absolute}
use teledap.PathMapper.{PathMapper, replace, resolve, match_alias, register_alias}
use teledap.PathMapper.Matches.{length-replace, take_of_match}
use teledap.PathMapper.Longest.{Has, Matches, resolve-longest}

Has-insert : (l : Dict (List ℕ) (List ℕ)) (a d : List ℕ) → Has (a, d) (insert l a d)
unfolding insert
Has-insert [] a d = inl refl
Has-insert ((b, e) ∷ l) a d = elim (Bool-cases (b == a)) [
  | inl p ↦ rw p (inl refl)
  | inr p ↦ rw p (inr (Has-insert l a d))
]

others :
    (l : Dict (List ℕ) (List ℕ)) (a d : List ℕ)
    → All (λ y. y.0 ≢ a) l
    → All (λ x. replace x.0 ≡ replace a → x.0 ≡ a) l
    → All (λ x. replace x.0 ≡ replace a → x ≡ (a, d)) l
others [] a d n h = tt
others (x ∷ l) a d (p, n) (q, h) = (λ e. absurd (p (q e)), others l a d n h)

-- The other entries have other aliases, also when their separators are made slashes.
insert-distinct :
    (l : Dict (List ℕ) (List ℕ)) (a d : List ℕ)
    → IsDistinct l
    → All (λ x. replace x.0 ≡ replace a → x.0 ≡ a) l
    → All (λ x. replace x.0 ≡ replace a → x ≡ (a, d)) (insert l a d)
unfolding insert
insert-distinct [] a d n h = (λ q. refl, tt)
insert-distinct ((b, e) ∷ l) a d (n, ns) (h, hs) = elim (Bool-cases (b == a)) [
  | inl t ↦
      rw t (λ q. refl, others l a d (subst (λ c. All (λ y. y.0 ≢ c) l) (eq_of_beq b a t) n) hs)
  | inr t ↦ rw t (λ q. absurd (ne_of_beq b a t (h q)), insert-distinct l a d ns hs)
]

-- An alias that matches an alias is no longer than it.
no_longer :
    (a : List ℕ) (l : Dict (List ℕ) (List ℕ)) → All (λ x. Matches a x → length x.0 ≤ length a) l
no_longer a [] = tt
no_longer a (x ∷ l) = (
  λ p.
      let e : length (take (length (replace x.0)) (replace a)) ≡ length (replace x.0) =
        ap length (take_of_match a x.0 x.1 p) in
      omega (
        arith,
        e,
        length-take (length (replace x.0)) (replace a),
        length-replace x.0,
        length-replace a,
      ),
  no_longer a l,
)

match_alias_self : (a d : List ℕ) → match_alias a a d ≡ some d
unfolding match_alias
match_alias_self a d = rw (beq_refl (replace a))

-- A relative alias that has been registered resolves to its path, whatever else is registered, if no
-- other alias differs from it in separators only.
pub resolve-register_alias :
    (exists : List ℕ → Bool) (m : PathMapper) (alias path : List ℕ)
    → IsDistinct m.aliases
    → is_absolute alias ≡ false
    → All (λ x. replace x.0 ≡ replace alias → x.0 ≡ alias) m.aliases
    → resolve exists (register_alias m alias path) alias ≡ some path
unfolding register_alias
resolve-register_alias exists m alias path n a h =
    resolve-longest exists (register_alias m alias path) alias alias path path a
      (Has-insert m.aliases alias path)
      (no_longer alias (insert m.aliases alias path), insert-distinct m.aliases alias path n h)
      (match_alias_self alias path)
