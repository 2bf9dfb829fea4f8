-- ===== src/Checks/Cache.antt =====
-- crates/debug-session/src/cache.rs at concrete inputs.
use teledap.Prelude.{
  ◌↔◌, List, ℕ, ◌≡◌, refl, Option, none, some, [], ◌∷◌, String, string_eq, nat_eq, option_eq,
}
use teledap.Dict
use teledap.Cache.{
  VariableHandleEntry, VariableHandleCache, new, insert, insert_batch, lookup, search, collect,
  name_matches, put, put_all, replace_in, same_slot, child_count, sort_by_age, insert_by_age,
}
use teledap.Cache.Slots.{IsWellFormed, new-IsWellFormed, insert-IsWellFormed}
use teledap.Cache.Priority.{Found, lookup-Found}

abbrev entry : String → ℕ → Option ℕ → ℕ → VariableHandleEntry
entry name reference frame at = record {
  variables_reference = reference;
  name = name;
  frame_id = frame;
  scope_name = some "Locals";
  var_type = some "int";
  named_variables = some 3;
  indexed_variables = none;
  captured_at = at;
}

abbrev x1 : VariableHandleEntry
x1 = entry "x" 5 (some 1) 10

abbrev x2 : VariableHandleEntry
x2 = entry "x" 10 (some 2) 20

abbrev cache1 : VariableHandleCache
cache1 = insert new x1

cache1-IsWellFormed : IsWellFormed cache1
cache1-IsWellFormed = insert-IsWellFormed new x1 new-IsWellFormed

lookup-Found_example :
    ((lookup cache1 "x" (some 1) (some "Arguments") ≡ none) ↔ (Dict.get cache1.entries "x" ≡ none))
    × ((l : List VariableHandleEntry)
        → Dict.get cache1.entries "x" ≡ some l
        → (e : VariableHandleEntry) × (lookup cache1 "x" (some 1) (some "Arguments") ≡ some e)
          × (e.name ≡ "x")
          × Found (some 1) (some "Arguments") l e)
lookup-Found_example = lookup-Found cache1 "x" (some 1) (some "Arguments") cache1-IsWellFormed

-- ASCII names in lower case are their own lower case.
abbrev same : String → String
same s = s

abbrev cache2 : VariableHandleCache
cache2 = insert_batch new (
    entry "my_variable" 1 (some 1) 1
    ∷ entry "my_struct" 2 (some 1) 2
    ∷ entry "other" 3 (some 1) 3
    ∷ [])

search_my :
    search same cache2 "my_" 10
    ≡ entry "my_struct" 2 (some 1) 2 ∷ entry "my_variable" 1 (some 1) 1 ∷ []
unfolding search collect name_matches insert_batch put_all put replace_in same_slot Dict.get
    Dict.insert sort_by_age insert_by_age
search_my = refl

three_children : child_count x1 ≡ 3
unfolding child_count
three_children = refl
