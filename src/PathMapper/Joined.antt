-- ===== src/PathMapper/Joined.antt =====
-- Where a path under an alias leads (crates/debug-session/src/mapping.rs).
use teledap.Prelude.{ℕ, ◌≡◌, ap, ◌∙◌, Bool, false, some, List, ◌∷◌, ◌++◌, nat_eq, list_eq, Option}
use teledap.Paths.{slash, is_absolute, ends_with_slash, join}
use teledap.PathMapper.{PathMapper, replace, resolve}
use teledap.PathMapper.Matches.{match_alias-append, replace-append, replace_twice}
use teledap.PathMapper.Longest.{Has, IsLongest, resolve-longest}

-- A directory with a slash in front and none at the end.
pub join-relative :
    (d r : List ℕ)
    → is_absolute r ≡ false
    → ends_with_slash (slash ∷ d) ≡ false
    → join (slash ∷ d) r ≡ slash ∷ (d ++ slash ∷ r)
unfolding join
join-relative d r a h = rw (a, h)

module _ (exists : List ℕ → Bool) (m : PathMapper) (alias d rem : List ℕ)
    (relative : is_absolute (alias ++ slash ∷ rem) ≡ false) (has : Has (alias, slash ∷ d) m.aliases)
    (longest : IsLongest (alias ++ slash ∷ rem) m.aliases (alias, slash ∷ d))
    (no_slash : ends_with_slash (replace alias) ≡ false) where
  pub resolve_joined :
      resolve exists m (alias ++ slash ∷ rem) ≡ some (replace (join (slash ∷ d) (replace rem)))
  resolve_joined =
      resolve-longest exists m (alias ++ slash ∷ rem) alias (slash ∷ d)
        (replace (join (slash ∷ d) (replace rem))) relative has longest
        (match_alias-append alias rem (slash ∷ d) no_slash)

  pub resolve_relative :
      is_absolute (replace rem) ≡ false
      → ends_with_slash (slash ∷ d) ≡ false
      → resolve exists m (alias ++ slash ∷ rem) ≡ some (slash ∷ (replace d ++ slash ∷ replace rem))
  resolve_relative a e =
      resolve_joined
      ∙ ap (λ p. some (replace p)) (join-relative d (replace rem) a e)
      ∙ ap {B = Option (List ℕ)} some (
          replace-append (slash ∷ d) (slash ∷ replace rem)
          ∙ unfold replace in ap (λ t. slash ∷ (replace d ++ slash ∷ t)) (replace_twice rem))
