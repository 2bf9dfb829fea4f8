-- ===== src/Checks/Paths.antt =====
-- Tests of paths and of the path mapper, after the tests in crates/debug-session/src/mapping.rs, and
-- instances of its theorems. The texts are short: "s" for an alias, "/p" for its directory.
use teledap.Prelude.{
  ℕ, ◌≡◌, refl, String, Bool, false, some, List, [], ◌∷◌, ◌++◌, arith, nat_eq, list_eq, string_eq,
  ◌==◌, if◌then◌else◌, inl, inr,
}
use teledap.Dict.{insert}
use teledap.Dap.Json.{Json, obj, str, field, end, get, get_field}
use teledap.Codec
use teledap.Paths
use teledap.Paths.{slash, split, body, is_absolute, ends_with_slash, components}
use teledap.PathMapper
use teledap.PathMapper.{
  PathMapper, replace, match_alias, resolve, reverse, register_alias, register_base_dir,
}
use teledap.PathMapper.Longest.{resolve-longest}
use teledap.PathMapper.RoundTrip.{reverse-resolve}
use teledap.Bridge.BreakpointTools.{breakpoints_arguments}
use teledap.Bridge.PathTools.{
  handle_register_base_dir, handle_register_path_alias, register_path_alias_params, resolve_path,
  handle_register_path_alias-breakpoints,
}

-- "s", "s/t", "a", "/p", "/p/x"
abbrev alias_s : List ℕ
alias_s = 115 ∷ []

abbrev alias_st : List ℕ
alias_st = 115 ∷ 47 ∷ 116 ∷ []

abbrev file : List ℕ
file = 97 ∷ []

abbrev dir_p : List ℕ
dir_p = 47 ∷ 112 ∷ []

abbrev dir_px : List ℕ
dir_px = 47 ∷ 112 ∷ 47 ∷ 120 ∷ []

abbrev nowhere : List ℕ → Bool
nowhere path = false

abbrev mapper : PathMapper
mapper = record {
  aliases = (alias_s, dir_p) ∷ (alias_st, dir_px) ∷ [];
  reverse_cache = [];
  base_dirs = [];
}

-- "/a//./b/" by "/a/" is "b"
strip_dots :
    Paths.strip_prefix (47 ∷ 97 ∷ 47 ∷ 47 ∷ 46 ∷ 47 ∷ 98 ∷ 47 ∷ []) (47 ∷ 97 ∷ 47 ∷ [])
    ≡ some (98 ∷ [])
unfolding Paths.strip_prefix
strip_dots = refl

-- "/ab" does not start with "/a".
starts_by_component : Paths.starts_with (47 ∷ 97 ∷ 98 ∷ []) (47 ∷ 97 ∷ []) ≡ false
unfolding Paths.starts_with
starts_by_component = refl

registered :
    (register_alias (register_alias PathMapper.new alias_s dir_p) alias_st dir_px).aliases
    ≡ mapper.aliases
unfolding register_alias PathMapper.new insert
registered = refl

-- "s/t/a" goes by "s/t", and "/p/x/a" comes from it.
resolve_most_specific :
    resolve nowhere mapper (alias_st ++ slash ∷ file) ≡ some (dir_px ++ slash ∷ file)
unfolding resolve is_absolute Codec.starts_with ends_with_slash Paths.join
resolve_most_specific = refl

reverse_most_specific : reverse mapper (dir_px ++ slash ∷ file) ≡ some (alias_st ++ slash ∷ file)
unfolding reverse Paths.starts_with
reverse_most_specific = refl

resolve-longest_example :
    resolve nowhere mapper (alias_st ++ slash ∷ file) ≡ some (dir_px ++ slash ∷ file)
unfolding match_alias is_absolute replace Codec.starts_with ends_with_slash Paths.join
resolve-longest_example =
    resolve-longest nowhere mapper (alias_st ++ slash ∷ file) alias_st dir_px
      (dir_px ++ slash ∷ file) refl (inr (inl refl))
      ((λ _. omega arith, (λ _. omega arith, tt)), (λ e. absurd (cc e), (λ _. refl, tt))) refl

reverse-resolve_example :
    (p : List ℕ) × (resolve nowhere mapper (alias_st ++ slash ∷ file) ≡ some p)
    × (reverse mapper p ≡ some (alias_st ++ slash ∷ file))
unfolding is_absolute replace ends_with_slash split
reverse-resolve_example =
    reverse-resolve nowhere mapper alias_st (112 ∷ 47 ∷ 120 ∷ []) file refl refl refl (refl, refl)
      refl refl refl (inr (inl refl))
      ((λ _. omega arith, (λ _. omega arith, tt)), (λ e. absurd (cc e), (λ _. refl, tt)))
      (λ _. inr (omega arith), (λ _. inl refl, tt))

abbrev params : Json
params = obj (field "alias" (str "s") (field "absolutePath" (str "/p") end))

read_params :
    register_path_alias_params params ≡ some (record { alias = "s"; absolute_path = "/p" })
unfolding register_path_alias_params get get_field
read_params = refl

-- A coding of the texts "s" and "/p" is enough here.
abbrev bytes : String → List ℕ
bytes s = if s == "s" then alias_s else if s == "/p" then dir_p else []

base_dir_registered :
    (handle_register_base_dir bytes
      (λ j. "")
      (obj (field "dir" (str "/p") end))
      PathMapper.new).0.base_dirs
    ≡ dir_p ∷ []
unfolding handle_register_base_dir get get_field register_base_dir PathMapper.new
base_dir_registered = refl

abbrev text : List ℕ → String
text l = if l == dir_p then "/p" else ""

handle_register_path_alias-breakpoints_example :
    (breakpoints_arguments
      (resolve_path bytes text nowhere
        (handle_register_path_alias bytes (λ j. "") params PathMapper.new).0)
      (record { source_path = "s"; breakpoints = [] })).source.path
    ≡ some "/p"
unfolding PathMapper.new is_absolute
handle_register_path_alias-breakpoints_example =
    handle_register_path_alias-breakpoints bytes text (λ j. "") nowhere params
      (record { alias = "s"; absolute_path = "/p" }) PathMapper.new [] refl read_params tt refl tt
