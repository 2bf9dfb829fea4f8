-- ===== src/Cache.antt =====
-- crates/debug-session/src/cache.rs: the cache from variable names to the handles that the debug
-- adapter gave for them. `Instant` is a number that grows; Unicode lower casing is an argument of
-- `search`.
pub mod Slots
pub mod Lookup
pub mod Priority
pub mod Search
use teledap.Prelude.{
  ℕ, zero, suc, ◌+◌, ◌%◌, ◌^◌, ◌≡◌, refl, Bool, true, false, not, ◌&&◌, ◌||◌, Option, none, some,
  List, [], ◌∷◌, ◌++◌, String, PartialEq, nat_eq, string_eq, option_eq, ◌==◌, ltb, leb,
  if◌then◌else◌, retain, find, length, take,
}
use text.Mathlib.Text.{find?}
use teledap.Dict
use teledap.Dict.{Dict, keys, values}

pub record VariableHandleEntry : Type 0 where
  pub variables_reference : ℕ
  pub name : String
  pub frame_id : Option ℕ
  pub scope_name : Option String
  pub var_type : Option String
  pub named_variables : Option ℕ
  pub indexed_variables : Option ℕ
  pub captured_at : ℕ

unfoldable pub is_expandable : VariableHandleEntry → Bool
is_expandable e = ltb 0 e.variables_reference

abbrev pub unwrap_or : Option ℕ → ℕ → ℕ
unwrap_or none d = d
unwrap_or (some n) d = n

-- The sum of two `u64`, which wraps in a release build.
unfoldable pub child_count : VariableHandleEntry → ℕ
child_count e = (unwrap_or e.named_variables 0 + unwrap_or e.indexed_variables 0) % 2 ^ 64

abbrev pub Entries : Type 0
Entries = Dict String (List VariableHandleEntry)

-- The two fields that locks guard.
pub record VariableHandleCache : Type 0 where
  pub entries : Entries
  pub valid : Bool

abbrev pub new : VariableHandleCache
new = record { entries = []; valid = true }

-- The test of both `retain` calls, without its negation.
unfoldable pub same_slot : VariableHandleEntry → VariableHandleEntry → Bool
same_slot entry e =
    e.frame_id == entry.frame_id && e.scope_name == entry.scope_name && e.name == entry.name

abbrev pub or_default : Option (List VariableHandleEntry) → List VariableHandleEntry
or_default none = []
or_default (some l) = l

-- `list.retain(…); list.push(entry)`
unfoldable pub replace_in :
    VariableHandleEntry → List VariableHandleEntry → List VariableHandleEntry
replace_in entry l = retain (λ e. not (same_slot entry e)) l ++ entry ∷ []

unfoldable pub put : Entries → VariableHandleEntry → Entries
put m entry = Dict.insert m entry.name (replace_in entry (or_default (Dict.get m entry.name)))

unfoldable pub insert : VariableHandleCache → VariableHandleEntry → VariableHandleCache
insert c entry = record { entries = put c.entries entry; valid = true }

unfoldable pub put_all : Entries → List VariableHandleEntry → Entries
put_all m [] = m
put_all m (entry ∷ batch) = put_all (put m entry) batch

unfoldable pub insert_batch : VariableHandleCache → List VariableHandleEntry → VariableHandleCache
insert_batch c batch = record { entries = put_all c.entries batch; valid = true }

abbrev pub head : List VariableHandleEntry → Option VariableHandleEntry
head [] = none
head (e ∷ l) = some e

abbrev pub or_else :
    Option VariableHandleEntry → Option VariableHandleEntry → Option VariableHandleEntry
or_else (some e) d = some e
or_else none d = d

-- Priority 1.
unfoldable pub exact_in :
    Option ℕ → Option String → List VariableHandleEntry → Option VariableHandleEntry
exact_in frame_id scope_name l = find (λ e. e.frame_id == frame_id && e.scope_name == scope_name) l

-- Priority 2, for a caller that names a frame.
unfoldable pub in_frame : Option ℕ → List VariableHandleEntry → Option VariableHandleEntry
in_frame none l = none
in_frame (some f) l = find (λ e. e.frame_id == some f) l

abbrev pub choose :
    Option ℕ → Option String → Option (List VariableHandleEntry) → Option VariableHandleEntry
choose frame_id scope_name none = none
choose frame_id scope_name (some l) =
    or_else (exact_in frame_id scope_name l) (or_else (in_frame frame_id l) (head l))

unfoldable pub lookup :
    VariableHandleCache → String → Option ℕ → Option String → Option VariableHandleEntry
lookup c name frame_id scope_name = choose frame_id scope_name (Dict.get c.entries name)

-- `sort_by_key(|e| Reverse(e.captured_at))`, which is stable: an entry that came first stays in
-- front of those that are as recent.
unfoldable pub insert_by_age :
    VariableHandleEntry → List VariableHandleEntry → List VariableHandleEntry
insert_by_age e [] = e ∷ []
insert_by_age e (x ∷ l) =
    let rest = insert_by_age e l in if leb x.captured_at e.captured_at then e ∷ x ∷ l else x ∷ rest

unfoldable pub sort_by_age : List VariableHandleEntry → List VariableHandleEntry
sort_by_age [] = []
sort_by_age (e ∷ l) = insert_by_age e (sort_by_age l)

abbrev pub is_some {ℓ} : {A : Type ℓ} → Option A → Bool
is_some none = false
is_some (some a) = true

module _ (to_lowercase : String → String) where
  unfoldable pub name_matches : String → String → Bool
  name_matches query name = is_some (find? (to_lowercase name) (to_lowercase query))

  unfoldable pub collect : String → Entries → List VariableHandleEntry
  collect query [] = []
  collect query ((name, l) ∷ m) =
      let rest = collect query m in if name_matches query name then l ++ rest else rest

  unfoldable pub search : VariableHandleCache → String → ℕ → List VariableHandleEntry
  search c query limit = take limit (sort_by_age (collect query c.entries))

-- `keys` and `len`
unfoldable pub len : VariableHandleCache → ℕ
len c = length (keys c.entries)

unfoldable pub is_empty : VariableHandleCache → Bool
is_empty c = len c == 0

unfoldable pub invalidate : VariableHandleCache → VariableHandleCache
invalidate c = record { entries = []; valid = false }

unfoldable pub mark_stale : VariableHandleCache → VariableHandleCache
mark_stale c = record c { valid = false }

unfoldable pub clear : VariableHandleCache → VariableHandleCache
clear c = record { entries = []; valid = true }
