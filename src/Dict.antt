-- ===== src/Dict.antt =====
-- `HashMap` as an association list with each key once. An insertion under an old key replaces the
-- value where it stands and under a new key adds an entry at the end; the order of a Rust map is
-- not specified, and the theorems about traversals hold for every list of entries.
pub mod Distinct
use teledap.Prelude.{
  ◌≡◌, ◌≢◌, refl, sym, ap, ◌∙◌, subst, some_inj, ne_of_beq, false, Option, none, some, List, [],
  ◌∷◌, arith, PartialEq, ◌==◌, if◌then◌else◌, contains, Bool-cases, eq_of_beq, beq_refl, beq_of_ne,
  inl, inr,
}

abbrev pub Dict {ℓ κ} : Type ℓ → Type κ → Type (ℓ ⊔ κ)
Dict K V = List (K × V)

module _ {ℓ κ} {K : Type ℓ} {V : Type κ} ⦃e : PartialEq K⦄ where
  unfoldable pub get : Dict K V → K → Option V
  get [] k = none
  get ((j, v) ∷ m) k = let rest = get m k in if j == k then some v else rest

  unfoldable pub insert : Dict K V → K → V → Dict K V
  insert [] k v = (k, v) ∷ []
  insert ((j, w) ∷ m) k v = let rest = insert m k v in if j == k then (k, v) ∷ m else (j, w) ∷ rest

  unfoldable pub remove : Dict K V → K → Dict K V
  remove [] k = []
  remove ((j, w) ∷ m) k = let rest = remove m k in if j == k then rest else (j, w) ∷ rest

module _ {ℓ κ} {K : Type ℓ} {V : Type κ} where
  abbrev pub keys : Dict K V → List K
  keys [] = []
  keys ((j, v) ∷ m) = j ∷ keys m

  abbrev pub values : Dict K V → List V
  values [] = []
  values ((j, v) ∷ m) = v ∷ values m

module _ {ℓ κ} {K : Type ℓ} {V : Type κ} ⦃e : PartialEq K⦄ where
  pub get-insert_self : (m : Dict K V) (k : K) (v : V) → get (insert m k v) k ≡ some v
  unfolding get insert
  get-insert_self [] k v = ground (arith, beq_refl k)
  get-insert_self ((j, w) ∷ m) k v = ground (arith, beq_refl k, get-insert_self m k v)

  pub get-insert_ne : (m : Dict K V) (k j : K) (v : V) → k ≢ j → get (insert m k v) j ≡ get m j
  unfolding get insert
  get-insert_ne [] k j v h = rw (beq_of_ne k j h)
  get-insert_ne ((i, w) ∷ m) k j v h = elim (Bool-cases (i == k)) [
    | inl p ↦ rw (p, beq_of_ne k j h, eq_of_beq i k p, beq_of_ne k j h)
    | inr p ↦ rw (p, get-insert_ne m k j v h)
  ]

  -- Looking up a key that is not there finds nothing.
  pub get_of_not_contains : (m : Dict K V) (k : K) → contains k (keys m) ≡ false → get m k ≡ none
  unfolding get
  get_of_not_contains [] k h = refl
  get_of_not_contains ((j, v) ∷ m) k h = ground (arith, get_of_not_contains m k)

  pub insert-insert : (m : Dict K V) (k : K) (v w : V) → insert (insert m k v) k w ≡ insert m k w
  unfolding insert
  insert-insert [] k v w = rw (beq_refl k)
  insert-insert ((j, u) ∷ m) k v w = ground (arith, beq_refl k, insert-insert m k v w)

  pub get-remove_self : (m : Dict K V) (k : K) → get (remove m k) k ≡ none
  unfolding get remove
  get-remove_self [] k = refl
  get-remove_self ((j, w) ∷ m) k = elim (Bool-cases (j == k)) [
    | inl p ↦ rw p (get-remove_self m k)
    | inr p ↦ rw (p, p) (get-remove_self m k)
  ]

  pub get-remove_ne : (m : Dict K V) (k j : K) → k ≢ j → get (remove m k) j ≡ get m j
  unfolding get remove
  get-remove_ne [] k j h = refl
  get-remove_ne ((i, w) ∷ m) k j h = elim (Bool-cases (i == k)) [
    | inl p ↦ let e : i ≡ k = eq_of_beq i k p in rw (p, e, beq_of_ne k j h, get-remove_ne m k j h)
    | inr p ↦ rw (p, get-remove_ne m k j h)
  ]

  -- What holds of every entry that a lookup finds.
  abbrev pub Everywhere {μ} : (K → V → Type μ) → Dict K V → Type (ℓ ⊔ κ ⊔ μ)
  Everywhere P m = (k : K) (v : V) → get m k ≡ some v → P k v

  pub insert-Everywhere {μ} :
      (P : K → V → Type μ) (m : Dict K V) (k : K) (v : V)
      → P k v
      → Everywhere P m
      → Everywhere P (insert m k v)
  insert-Everywhere P m k v p a j w h = elim (Bool-cases (k == j)) [
    | inl q ↦
        let e : k ≡ j = eq_of_beq k j q in
        let f : v ≡ w =
          some_inj (sym (get-insert_self m k v) ∙ ap (λ i. get (insert m k v) i) e ∙ h) in
        subst (λ i. P i w) e (subst (λ u. P k u) f p)
    | inr q ↦ a j w (sym (get-insert_ne m k j v (ne_of_beq k j q)) ∙ h)
  ]

  pub remove-Everywhere {μ} :
      (P : K → V → Type μ) (m : Dict K V) (k : K) → Everywhere P m → Everywhere P (remove m k)
  remove-Everywhere P m k a j w h = elim (Bool-cases (k == j)) [
    | inl q ↦
        let e : k ≡ j = eq_of_beq k j q in
        absurd (cc (h, ap (λ i. get (remove m k) i) e, get-remove_self m k))
    | inr q ↦ a j w (sym (get-remove_ne m k j (ne_of_beq k j q)) ∙ h)
  ]

  -- A map that agrees but for one key.
  pub change-Everywhere {μ} :
      (P : K → V → Type μ) (m n : Dict K V) (k : K)
      → ((j : K) → k ≢ j → get n j ≡ get m j)
      → ((v : V) → get n k ≡ some v → P k v)
      → Everywhere P m
      → Everywhere P n
  change-Everywhere P m n k same p a j w h = elim (Bool-cases (k == j)) [
    | inl q ↦
        let e : k ≡ j = eq_of_beq k j q in subst (λ i. P i w) e (p w (ap (λ i. get n i) e ∙ h))
    | inr q ↦ a j w (sym (same j (ne_of_beq k j q)) ∙ h)
  ]
