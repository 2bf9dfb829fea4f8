-- ===== src/Breakpoints.antt =====
-- crates/debug-session/src/breakpoints.rs: the breakpoints that the session remembers, since DAP
-- has no request that lists them.
pub mod Listing
pub mod ById
use teledap.Prelude.{
  ℕ, Bool, true, false, Option, none, some, List, [], ◌∷◌, ◌++◌, String, PartialEq, nat_eq,
  string_eq, option_eq, ◌==◌, if◌then◌else◌,
}
use mathlib.Core.Option
use teledap.Dict
use teledap.Dict.{Dict, values}
use teledap.Dap.Types.{Source, SourceBreakpoint, FunctionBreakpoint, Breakpoint}

pub data BreakpointKind : Type 0 where
  source function : BreakpointKind

pub record CachedBreakpoint : Type 0 where
  pub id : Option ℕ
  pub kind : BreakpointKind
  pub source_path : Option String
  pub line : Option ℕ
  pub column : Option ℕ
  pub function_name : Option String
  pub condition : Option String
  pub hit_condition : Option String
  pub verified : Bool
  pub message : Option String

-- `Option::or`
abbrev pub or {ℓ} : {A : Type ℓ} → Option A → Option A → Option A
or (some a) b = some a
or none b = b

abbrev pub path_of : Option Source → Option String
path_of none = none
path_of (some s) = s.path

unfoldable pub from_source : String → SourceBreakpoint → Breakpoint → CachedBreakpoint
from_source source_path request response = record {
  id = response.id;
  kind = source;
  source_path = some source_path;
  line = or response.line (some request.line);
  column = or response.column request.column;
  function_name = none;
  condition = request.condition;
  hit_condition = request.hit_condition;
  verified = response.verified;
  message = response.message;
}

unfoldable pub from_function : FunctionBreakpoint → Breakpoint → CachedBreakpoint
from_function request response = record {
  id = response.id;
  kind = function;
  source_path = path_of response.source;
  line = response.line;
  column = response.column;
  function_name = some request.name;
  condition = request.condition;
  hit_condition = request.hit_condition;
  verified = response.verified;
  message = response.message;
}

pub record BreakpointCache : Type 0 where
  pub source_breakpoints : Dict String (List CachedBreakpoint)
  pub function_breakpoints : List CachedBreakpoint

abbrev pub new : BreakpointCache
new = record { source_breakpoints = []; function_breakpoints = [] }

-- `request.iter().zip(response.iter()).map(f).collect()`
abbrev pub zip_with {ℓ} : {A B C : Type ℓ} → (A → B → C) → List A → List B → List C
zip_with f [] ys = []
zip_with f (x ∷ xs) [] = []
zip_with f (x ∷ xs) (y ∷ ys) = f x y ∷ zip_with f xs ys

unfoldable pub update_source_breakpoints :
    BreakpointCache → String → List SourceBreakpoint → List Breakpoint → BreakpointCache
update_source_breakpoints c source_path request response = record c {
  source_breakpoints =
      Dict.insert c.source_breakpoints source_path
        (zip_with (from_source source_path) request response);
}

unfoldable pub update_function_breakpoints :
    BreakpointCache → List FunctionBreakpoint → List Breakpoint → BreakpointCache
update_function_breakpoints c request response = record c {
  function_breakpoints = zip_with from_function request response;
}

-- The assignments of both loops of `update_by_id`.
unfoldable pub refresh : Breakpoint → CachedBreakpoint → CachedBreakpoint
refresh b item = record item {
  verified = b.verified;
  line = or b.line item.line;
  column = or b.column item.column;
  message = b.message;
  source_path = or (path_of b.source) item.source_path;
}

-- One loop over the items: the first with the id is refreshed and the loop returns; `none` if it
-- runs to its end.
unfoldable pub refresh_first :
    ℕ → Breakpoint → List CachedBreakpoint → Option (List CachedBreakpoint)
refresh_first id b [] = none
refresh_first id b (item ∷ items) =
    let rest = refresh_first id b items in
    if item.id == some id
    then some (refresh b item ∷ items)
    else Option.map (λ items'. item ∷ items') rest

-- The loop over the files.
unfoldable pub refresh_file :
    ℕ
    → Breakpoint
    → Dict String (List CachedBreakpoint)
    → Option (Dict String (List CachedBreakpoint))
refresh_file id b [] = none
refresh_file id b ((path, items) ∷ m) =
    let rest = refresh_file id b m in
    elim (refresh_first id b items) [
      | some items' ↦ some ((path, items') ∷ m)
      | none ↦ Option.map (λ m'. (path, items) ∷ m') rest
    ]

abbrev pub search_functions :
    BreakpointCache → Option (List CachedBreakpoint) → BreakpointCache × Bool
search_functions c (some items) = (record c { function_breakpoints = items }, true)
search_functions c none = (c, false)

abbrev pub search_both :
    ℕ
    → Breakpoint
    → BreakpointCache
    → Option (Dict String (List CachedBreakpoint))
    → BreakpointCache × Bool
search_both id b c (some m) = (record c { source_breakpoints = m }, true)
search_both id b c none = search_functions c (refresh_first id b c.function_breakpoints)

-- What `update_by_id` does behind its `let Some(id) = breakpoint.id`.
abbrev pub update_with : BreakpointCache → Breakpoint → Option ℕ → BreakpointCache × Bool
update_with c b none = (c, false)
update_with c b (some id) = search_both id b c (refresh_file id b c.source_breakpoints)

unfoldable pub update_by_id : BreakpointCache → Breakpoint → BreakpointCache × Bool
update_by_id c b = update_with c b b.id

unfoldable pub concat : List (List CachedBreakpoint) → List CachedBreakpoint
concat [] = []
concat (l ∷ ls) = l ++ concat ls

unfoldable pub list : BreakpointCache → List CachedBreakpoint
list c = concat (values c.source_breakpoints) ++ c.function_breakpoints

unfoldable pub clear : BreakpointCache → BreakpointCache
clear c = record { source_breakpoints = []; function_breakpoints = [] }
