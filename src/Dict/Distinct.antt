-- ===== src/Dict/Distinct.antt =====
-- Maps with each key once, as a `HashMap` of Rust has it.
use teledap.Prelude.{
  ◌≡◌, ◌≢◌, refl, sym, subst, [], ◌∷◌, none, PartialEq, ◌==◌, All, Bool-cases, inl, inr, eq_of_beq,
  ne_of_beq, beq_of_ne,
}
use teledap.Dict.{Dict, get, insert, remove}

module _ {K : Type 0} {V : Type 0} where
  abbrev pub IsDistinct : Dict K V → Type 0
  IsDistinct [] = Unit {0}
  IsDistinct (x ∷ l) = All (λ y. y.0 ≢ x.0) l × IsDistinct l

module _ {K : Type 0} {V : Type 0} ⦃e : PartialEq K⦄ where
  pub All-insert :
      (P : K × V → Type 0) (l : Dict K V) (k : K) (v : V)
      → P (k, v)
      → All P l
      → All P (insert l k v)
  unfolding insert
  All-insert P [] k v p h = (p, tt)
  All-insert P ((j, w) ∷ l) k v p (q, h) = elim (Bool-cases (j == k)) [
    | inl t ↦ rw t (p, h)
    | inr t ↦ rw t (q, All-insert P l k v p h)
  ]

  pub insert-IsDistinct : (l : Dict K V) (k : K) (v : V) → IsDistinct l → IsDistinct (insert l k v)
  unfolding insert
  insert-IsDistinct [] k v h = (tt, tt)
  insert-IsDistinct ((j, w) ∷ l) k v (n, h) = elim (Bool-cases (j == k)) [
    | inl t ↦ rw t (subst (λ c. All (λ y. y.0 ≢ c) l) (eq_of_beq j k t) n, h)
    | inr t ↦ rw t (
      All-insert (λ y. y.0 ≢ j) l k v (λ p. ne_of_beq j k t (sym p)) n,
      insert-IsDistinct l k v h,
    )
  ]

  pub All-remove : (P : K × V → Type 0) (l : Dict K V) (k : K) → All P l → All P (remove l k)
  unfolding remove
  All-remove P [] k h = tt
  All-remove P ((j, w) ∷ l) k (q, h) = elim (Bool-cases (j == k)) [
    | inl t ↦ rw t (All-remove P l k h)
    | inr t ↦ rw t (q, All-remove P l k h)
  ]

  pub remove-IsDistinct : (l : Dict K V) (k : K) → IsDistinct l → IsDistinct (remove l k)
  unfolding remove
  remove-IsDistinct [] k h = tt
  remove-IsDistinct ((j, w) ∷ l) k (n, h) = elim (Bool-cases (j == k)) [
    | inl t ↦ rw t (remove-IsDistinct l k h)
    | inr t ↦ rw t (All-remove (λ y. y.0 ≢ j) l k n, remove-IsDistinct l k h)
  ]

  pub get-absent : (l : Dict K V) (k : K) → All (λ y. y.0 ≢ k) l → get l k ≡ none
  unfolding get
  get-absent [] k h = refl
  get-absent ((j, w) ∷ l) k (n, h) = rw (beq_of_ne j k n) (get-absent l k h)
