-- ===== src/Prelude/Errors.antt =====
-- Rust's `Result`, and its `?` as the bind of a `do` block.

pub data Result {ℓ} (E : Type ℓ) (A : Type ℓ) : Type ℓ where
  ok : A → Result E A
  err : E → Result E A

infixl 5 ◌>>=◌ ◌>>◌
abbrev pub ◌>>=◌ {ℓ} : {E : Type ℓ} {A B : Type ℓ} → Result E A → (A → Result E B) → Result E B
ok a >>= f = f a
err e >>= f = err e

abbrev pub ◌>>◌ {ℓ} : {E : Type ℓ} {A B : Type ℓ} → Result E A → Result E B → Result E B
m >> k = m >>= λ _. k
