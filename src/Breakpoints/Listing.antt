-- ===== src/Breakpoints/Listing.antt =====
-- What the replacements of crates/debug-session/src/breakpoints.rs leave in the cache.
use teledap.Prelude.{◌≡◌, ◌≢◌, refl, some, List, [], ◌∷◌, String, arith, length, min, string_eq, ap}
use teledap.Dict
use teledap.Dict.{Dict}
use teledap.Dap.Types.{SourceBreakpoint, Breakpoint}
use teledap.Breakpoints.{BreakpointCache, zip_with, from_source, update_source_breakpoints}

-- A `setBreakpoints` replaces the entries of its own file by the request zipped with the response;
-- the entries of every other file and the function breakpoints stay.
pub update_source_breakpoints_replaces :
    (c : BreakpointCache) (path other : String) (request : List SourceBreakpoint)
    (response : List Breakpoint)
    → path ≢ other
    → let c' = update_source_breakpoints c path request response in
      (Dict.get c'.source_breakpoints path ≡ some (zip_with (from_source path) request response))
      × (Dict.get c'.source_breakpoints other ≡ Dict.get c.source_breakpoints other)
      × (c'.function_breakpoints ≡ c.function_breakpoints)
unfolding update_source_breakpoints
update_source_breakpoints_replaces c path other request response h = (
  Dict.get-insert_self c.source_breakpoints path _,
  Dict.get-insert_ne c.source_breakpoints path other _ h,
  refl,
)

-- Doing the same update a second time, as the tool handler does after the session, changes nothing.
pub update_source_breakpoints_twice :
    (c : BreakpointCache) (path : String) (request : List SourceBreakpoint)
    (response : List Breakpoint)
    → update_source_breakpoints
        (update_source_breakpoints c path request response)
        path
        request
        response
      ≡ update_source_breakpoints c path request response
unfolding update_source_breakpoints
update_source_breakpoints_twice c path request response =
    ap (λ m. record { source_breakpoints = m; function_breakpoints = c.function_breakpoints })
      (Dict.insert-insert c.source_breakpoints path _ _)

-- A response with fewer entries than the request leaves the rest of the request untracked.
pub length-zip_with {ℓ} :
    {A B C : Type ℓ} (f : A → B → C) (xs : List A) (ys : List B)
    → length (zip_with f xs ys) ≡ min (length xs) (length ys)
length-zip_with f [] ys = omega arith
length-zip_with f (x ∷ xs) [] = omega arith
length-zip_with f (x ∷ xs) (y ∷ ys) = omega (arith, length-zip_with f xs ys)
