-- ===== src/Expansion/Totals.antt =====
-- What the counters of crates/debug-session/src/context.rs and variables.rs count.
use teledap.Prelude.{ℕ, ◌+◌, ◌≡◌, refl, ap, ◌∙◌, List, [], ◌∷◌, ◌++◌, arith, length, leb, nat_eq}
use teledap.Expansion.{
  ContextChain, ThreadContext, FrameContext, ScopeContext, sum_of, flat_map, total_variables,
  VariableExpander, new_expander, is_capped, reset,
}

sum_of-append {ℓ} :
    {A : Type ℓ} (f : A → ℕ) (l k : List A) → sum_of f (l ++ k) ≡ sum_of f l + sum_of f k
sum_of-append f [] k = omega arith
sum_of-append f (a ∷ l) k = omega (arith, sum_of-append f l k)

sum_of-flat_map {ℓ} :
    {A B : Type ℓ} (f : B → ℕ) (g : A → List B) (l : List A)
    → sum_of f (flat_map g l) ≡ sum_of (λ a. sum_of f (g a)) l
sum_of-flat_map f g [] = refl
sum_of-flat_map f g (a ∷ l) =
    sum_of-append f (g a) (flat_map g l) ∙ ap (λ n. sum_of f (g a) + n) (sum_of-flat_map f g l)

-- The variables of a chain are those of its threads, theirs those of their frames, and theirs those of
-- their scopes.
pub total_variables-sum_of :
    (c : ContextChain)
    → total_variables c
      ≡ sum_of (λ t. sum_of (λ f. sum_of (λ s. length s.variables) f.scopes) t.frames) c.threads
unfolding total_variables
total_variables-sum_of c =
    sum_of-flat_map (λ (s : ScopeContext). length s.variables) (λ (f : FrameContext). f.scopes)
      (flat_map (λ (t : ThreadContext). t.frames) c.threads)
    ∙ sum_of-flat_map
        (λ (f : FrameContext). sum_of (λ (s : ScopeContext). length s.variables) f.scopes)
        (λ (t : ThreadContext). t.frames) c.threads

-- Nothing that an expander offers counts a variable: a new one and one that is reset are at their limit
-- only if it is zero.
is_capped-reset :
    (e : VariableExpander)
    → (is_capped (reset e) ≡ leb e.config.max_total_variables 0)
      × (is_capped (new_expander e.config) ≡ leb e.config.max_total_variables 0)
unfolding is_capped reset new_expander
is_capped-reset e = (refl, refl)
