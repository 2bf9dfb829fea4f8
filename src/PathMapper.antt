-- ===== src/PathMapper.antt =====
-- crates/debug-session/src/mapping.rs: the aliases and base directories by which paths are translated.
-- Texts and paths are their bytes, and `exists` is the test of the file system.
pub mod Matches
pub mod Longest
pub mod Joined
pub mod Registered
pub mod RoundTrip
pub mod Unresolved
use mathlib.Core.Option.{map}
use teledap.Prelude.{
  ℕ, Bool, true, false, ◌&&◌, Option, none, some, List, [], ◌∷◌, ◌++◌, nat_eq, list_eq, ◌==◌, ltb,
  leb, if◌then◌else◌, length, drop,
}
use teledap.Dict.{Dict, insert, keys}
use teledap.Codec
use teledap.Paths
use teledap.Paths.{slash, components, strip_prefix, is_absolute, ends_with_slash, join}

-- The maps are in the order of their first insertions. A key of the reverse cache is a path, and
-- paths are equal by their components.
pub record PathMapper : Type 0 where
  pub aliases : Dict (List ℕ) (List ℕ)
  pub reverse_cache : Dict (List ℕ) (List ℕ)
  pub base_dirs : List (List ℕ)

unfoldable pub new : PathMapper
new = record { aliases = []; reverse_cache = []; base_dirs = [] }

unfoldable pub register_base_dir : PathMapper → List ℕ → PathMapper
register_base_dir m dir = record m { base_dirs = m.base_dirs ++ dir ∷ [] }

-- `insert` of a map from paths.
unfoldable pub insert_path : Dict (List ℕ) (List ℕ) → List ℕ → List ℕ → Dict (List ℕ) (List ℕ)
insert_path [] path alias = (path, alias) ∷ []
insert_path ((p, a) ∷ cache) path alias =
    let rest = insert_path cache path alias in
    if components p == components path then (p, alias) ∷ cache else (p, a) ∷ rest

unfoldable pub register_alias : PathMapper → List ℕ → List ℕ → PathMapper
unfolding insert_path
register_alias m alias absolute_path = record m {
  reverse_cache = insert_path m.reverse_cache absolute_path alias;
  aliases = insert m.aliases alias absolute_path;
}

unfoldable pub register_aliases : PathMapper → List (List ℕ × List ℕ) → PathMapper
unfolding register_alias
register_aliases m [] = m
register_aliases m ((alias, path) ∷ mappings) =
    register_aliases (register_alias m alias path) mappings

-- `replace('\\', "/")`
unfoldable pub replace : List ℕ → List ℕ
replace [] = []
replace (c ∷ s) = (if c == 92 then slash else c) ∷ replace s

unfoldable pub normalize_path : List ℕ → List ℕ
unfolding replace
normalize_path path = replace path

-- An alias before those that are no longer, so that equally long ones keep their order.
unfoldable pub place : List ℕ × List ℕ → Dict (List ℕ) (List ℕ) → Dict (List ℕ) (List ℕ)
place (a, d) [] = (a, d) ∷ []
place (a, d) ((b, e) ∷ l) =
    let rest = place (a, d) l in
    if leb (length b) (length a) then (a, d) ∷ (b, e) ∷ l else (b, e) ∷ rest

-- `sort_by_key` by the negative length.
unfoldable pub longest_first : Dict (List ℕ) (List ℕ) → Dict (List ℕ) (List ℕ)
unfolding place
longest_first [] = []
longest_first (x ∷ l) = place x (longest_first l)

unfoldable pub prefix_of : List ℕ → List ℕ
prefix_of normalized_alias =
    if ends_with_slash normalized_alias then normalized_alias else normalized_alias ++ slash ∷ []

abbrev pub under : List ℕ → List ℕ → List ℕ → Option (List ℕ)
under path prefix dir =
    if Codec.starts_with path prefix
    then some (normalize_path (join dir (drop (length prefix) path)))
    else none

-- A turn of the loop over the aliases.
unfoldable pub match_alias : List ℕ → List ℕ → List ℕ → Option (List ℕ)
unfolding replace prefix_of normalize_path
match_alias path alias dir =
    if replace path == replace alias
    then some dir
    else under (replace path) (prefix_of (replace alias)) dir

abbrev pub or_else : {A : Type 0} → Option A → Option A → Option A
or_else none o = o
or_else (some a) o = some a

unfoldable pub first_match : List ℕ → Dict (List ℕ) (List ℕ) → Option (List ℕ)
unfolding match_alias
first_match path [] = none
first_match path ((alias, dir) ∷ l) = or_else (match_alias path alias dir) (first_match path l)

unfoldable pub existing : (List ℕ → Bool) → List ℕ → List (List ℕ) → Option (List ℕ)
unfolding normalize_path
existing exists path [] = none
existing exists path (base ∷ bases) =
    let rest = existing exists path bases in
    if exists (join base path) then some (normalize_path (join base path)) else rest

abbrev pub in_first : List ℕ → List (List ℕ) → Option (List ℕ)
in_first path [] = none
in_first path (base ∷ bases) = some (normalize_path (join base path))

unfoldable pub resolve : (List ℕ → Bool) → PathMapper → List ℕ → Option (List ℕ)
unfolding longest_first first_match existing normalize_path
resolve exists m path =
    if is_absolute path
    then some (normalize_path path)
    else or_else (first_match path (longest_first m.aliases))
        (or_else (existing exists path m.base_dirs) (in_first path m.base_dirs))

abbrev pub better : List ℕ × List ℕ → Option (List ℕ × List ℕ) → Option (List ℕ × List ℕ)
better (alias, dir) none = some (alias, dir)
better (alias, dir) (some (a, existing_dir)) =
    if ltb (length existing_dir) (length dir) then some (alias, dir) else some (a, existing_dir)

-- The loop over the aliases, with the best so far.
unfoldable pub best :
    List ℕ → Dict (List ℕ) (List ℕ) → Option (List ℕ × List ℕ) → Option (List ℕ × List ℕ)
best path [] found = found
best path ((alias, dir) ∷ l) found =
    best path l (if Paths.starts_with path dir then better (alias, dir) found else found)

abbrev pub with_remainder : List ℕ → List ℕ → List ℕ
with_remainder alias [] = alias
with_remainder alias (c ∷ s) =
    if Paths.has_slash (replace (c ∷ s))
    then replace alias ++ replace (c ∷ s)
    else replace alias ++ slash ∷ replace (c ∷ s)

unfoldable pub strip_bases : List ℕ → List (List ℕ) → Option (List ℕ)
strip_bases path [] = none
strip_bases path (base ∷ bases) = or_else (strip_prefix path base) (strip_bases path bases)

abbrev pub reversed : List ℕ → List (List ℕ) → Option (List ℕ × List ℕ) → Option (List ℕ)
reversed path bases none = strip_bases path bases
reversed path bases (some (alias, dir)) = map (with_remainder alias) (strip_prefix path dir)

unfoldable pub reverse : PathMapper → List ℕ → Option (List ℕ)
unfolding best replace strip_bases
reverse m path = reversed path m.base_dirs (best path m.aliases none)

unfoldable pub alias_count : PathMapper → ℕ
alias_count m = length m.aliases

unfoldable pub base_dir_count : PathMapper → ℕ
base_dir_count m = length m.base_dirs

abbrev pub is_empty_list : {A : Type 0} → List A → Bool
is_empty_list [] = true
is_empty_list (a ∷ l) = false

unfoldable pub is_empty : PathMapper → Bool
is_empty m = is_empty_list m.aliases && is_empty_list m.base_dirs

unfoldable pub clear : PathMapper → PathMapper
clear m = record { aliases = []; reverse_cache = []; base_dirs = [] }
