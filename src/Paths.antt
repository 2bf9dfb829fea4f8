-- ===== src/Paths.antt =====
-- The paths of Rust's library on Unix, `std::path`, as crates/debug-session/src/mapping.rs uses them. A
-- path is its bytes, and it is taken apart into the segments between its slashes.
pub mod Laws
use teledap.Prelude.{
  ℕ, Bool, true, false, ◌||◌, Option, none, some, List, [], ◌∷◌, ◌++◌, nat_eq, list_eq, ◌==◌,
  if◌then◌else◌,
}
use teledap.Cache.{is_some}

-- "/"
abbrev pub slash : ℕ
slash = 47

-- "." as a segment
abbrev pub dot : List ℕ
dot = 46 ∷ []

abbrev pub begin_segment : ℕ → List (List ℕ) → List (List ℕ)
begin_segment c [] = (c ∷ []) ∷ []
begin_segment c (seg ∷ segs) = (c ∷ seg) ∷ segs

-- The segments between slashes, at least one.
unfoldable pub split : List ℕ → List (List ℕ)
split [] = [] ∷ []
split (c ∷ s) = let segs = split s in if c == slash then [] ∷ segs else begin_segment c segs

unfoldable pub join_segments : List (List ℕ) → List ℕ
join_segments [] = []
join_segments (seg ∷ []) = seg
join_segments (seg ∷ next ∷ segs) = seg ++ slash ∷ join_segments (next ∷ segs)

-- A segment that makes no component.
abbrev pub skipped : List ℕ → Bool
skipped seg = seg == [] || seg == dot

unfoldable pub trim_left : List (List ℕ) → List (List ℕ)
trim_left [] = []
trim_left (seg ∷ segs) = let rest = trim_left segs in if skipped seg then rest else seg ∷ segs

abbrev pub cons_unless : List ℕ → List (List ℕ) → List (List ℕ)
cons_unless seg [] = if skipped seg then [] else seg ∷ []
cons_unless seg (next ∷ segs) = seg ∷ next ∷ segs

unfoldable pub trim_right : List (List ℕ) → List (List ℕ)
trim_right [] = []
trim_right (seg ∷ segs) = cons_unless seg (trim_right segs)

-- A component is kept as its text: "/" for the root, "." for a leading dot, ".." for the parent.
unfoldable pub body : List (List ℕ) → List (List ℕ)
body [] = []
body (seg ∷ segs) = let rest = body segs in if skipped seg then rest else seg ∷ rest

-- How a path begins, and the segments behind that.
pub data Shape : Type 0 where
  rooted dotted plain : List (List ℕ) → Shape

abbrev pub shape_of : List (List ℕ) → Shape
shape_of [] = plain []
shape_of (seg ∷ []) = if seg == dot then dotted [] else plain (seg ∷ [])
shape_of (seg ∷ next ∷ segs) =
    if seg == []
    then rooted (next ∷ segs)
    else if seg == dot
    then dotted (next ∷ segs)
    else plain (seg ∷ next ∷ segs)

abbrev pub components_of : Shape → List (List ℕ)
components_of (rooted segs) = (slash ∷ []) ∷ body segs
components_of (dotted segs) = dot ∷ body segs
components_of (plain segs) = body segs

-- `Path::components`
unfoldable pub components : List ℕ → List (List ℕ)
unfolding split body
components path = components_of (shape_of (split path))

-- What is left of the segments when these components have been taken from the front.
unfoldable pub body_after : List (List ℕ) → List (List ℕ) → Option (List (List ℕ))
body_after segs [] = some segs
body_after [] (c ∷ cs) = none
body_after (seg ∷ segs) (c ∷ cs) =
    let skip = body_after segs (c ∷ cs) in
    let rest = body_after segs cs in if skipped seg then skip else if seg == c then rest else none

-- `as_path` of an iterator that has begun.
unfoldable pub as_path : Option (List (List ℕ)) → Option (List ℕ)
unfolding trim_left trim_right join_segments
as_path none = none
as_path (some segs) = some (join_segments (trim_right (trim_left segs)))

abbrev pub after_dot : List (List ℕ) → List ℕ
after_dot [] = []
after_dot (seg ∷ segs) = slash ∷ join_segments (seg ∷ segs)

-- `as_path` of an iterator that has not.
unfoldable pub whole : Shape → List ℕ
unfolding trim_right join_segments
whole (rooted segs) = slash ∷ join_segments (trim_right segs)
whole (dotted segs) = dot ++ after_dot (trim_right segs)
whole (plain segs) = join_segments (trim_right segs)

abbrev pub strip_shape : Shape → List (List ℕ) → Option (List ℕ)
strip_shape shape [] = some (whole shape)
strip_shape (rooted segs) (c ∷ cs) = if c == slash ∷ [] then as_path (body_after segs cs) else none
strip_shape (dotted segs) (c ∷ cs) = if c == dot then as_path (body_after segs cs) else none
strip_shape (plain segs) (c ∷ cs) = as_path (body_after segs (c ∷ cs))

-- `Path::strip_prefix`, `none` for its error.
unfoldable pub strip_prefix : List ℕ → List ℕ → Option (List ℕ)
unfolding split components whole body_after as_path
strip_prefix path base = strip_shape (shape_of (split path)) (components base)

-- `Path::starts_with`
unfoldable pub starts_with : List ℕ → List ℕ → Bool
unfolding strip_prefix
starts_with path base = is_some (strip_prefix path base)

abbrev pub has_slash : List ℕ → Bool
has_slash [] = false
has_slash (c ∷ s) = c == slash

-- `Path::is_absolute`
unfoldable pub is_absolute : List ℕ → Bool
is_absolute path = has_slash path

unfoldable pub ends_with_slash : List ℕ → Bool
ends_with_slash [] = false
ends_with_slash (c ∷ []) = c == slash
ends_with_slash (c ∷ d ∷ s) = ends_with_slash (d ∷ s)

abbrev pub joined : List ℕ → List ℕ → List ℕ
joined [] path = path
joined (c ∷ s) path = if ends_with_slash (c ∷ s) then (c ∷ s) ++ path else (c ∷ s) ++ slash ∷ path

-- `Path::join`: an absolute path replaces the whole.
unfoldable pub join : List ℕ → List ℕ → List ℕ
unfolding is_absolute ends_with_slash
join base path = if is_absolute path then path else joined base path
