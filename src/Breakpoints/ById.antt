-- ===== src/Breakpoints/ById.antt =====
-- `update_by_id` against the listing: the refresh of the first listed breakpoint with the id.
use teledap.Prelude.{
  ℕ, ◌≡◌, refl, Bool, false, Option, none, some, List, [], ◌∷◌, ◌++◌, String, arith, nat_eq,
  option_eq, ◌==◌, if◌then◌else◌, ◌||◌,
}
use mathlib.Core.Option
use teledap.Dict.{Dict, values}
use teledap.Dap.Types.{Breakpoint}
use teledap.Breakpoints.{
  CachedBreakpoint, BreakpointCache, refresh, refresh_first, refresh_file, search_both,
  update_by_id, update_with, concat, list,
}

-- The specification: a walk over the flat list that stops at the first item with the id.
unfoldable pub refresh_listed : ℕ → Breakpoint → List CachedBreakpoint → List CachedBreakpoint
refresh_listed id b [] = []
refresh_listed id b (item ∷ items) =
    if item.id == some id then refresh b item ∷ items else item ∷ refresh_listed id b items

unfoldable pub any_id : ℕ → List CachedBreakpoint → Bool
any_id id [] = false
any_id id (item ∷ items) = item.id == some id || any_id id items

-- The loop returns the walked list if an item has the id, and nothing if none has.
refresh_first-eq :
    (id : ℕ) (b : Breakpoint) (l : List CachedBreakpoint)
    → refresh_first id b l ≡ (if any_id id l then some (refresh_listed id b l) else none)
unfolding refresh_first refresh_listed any_id
refresh_first-eq id b [] = refl
refresh_first-eq id b (item ∷ l) = ground (arith, refresh_first-eq id b l)

any_id-append :
    (id : ℕ) (l r : List CachedBreakpoint) → any_id id (l ++ r) ≡ (any_id id l || any_id id r)
unfolding any_id
any_id-append id [] r = refl
any_id-append id (x ∷ l) r = ground (arith, any_id-append id l r)

refresh_listed-append :
    (id : ℕ) (b : Breakpoint) (l r : List CachedBreakpoint)
    → refresh_listed id b (l ++ r)
      ≡ (if any_id id l then refresh_listed id b l ++ r else l ++ refresh_listed id b r)
unfolding refresh_listed any_id
refresh_listed-append id b [] r = refl
refresh_listed-append id b (x ∷ l) r = ground (arith, refresh_listed-append id b l r)

abbrev sources : Dict String (List CachedBreakpoint) → List CachedBreakpoint
sources m = concat (values m)

-- The loop over the files is the walk over their lists, one behind the other.
refresh_file-eq :
    (id : ℕ) (b : Breakpoint) (m : Dict String (List CachedBreakpoint))
    → Option.map sources (refresh_file id b m)
      ≡ (if any_id id (sources m) then some (refresh_listed id b (sources m)) else none)
unfolding refresh_file concat
refresh_file-eq id b [] = unfold any_id in refl
refresh_file-eq id b ((path, l) ∷ m) =
    rw (any_id-append id l (sources m), refresh_listed-append id b l (sources m))
      (ground (arith, refresh_first-eq id b l, refresh_file-eq id b m))

-- What an event does to the listed breakpoints: nothing without an id, and else the walk.
unfoldable pub event_on_list :
    Option ℕ → Breakpoint → List CachedBreakpoint → List CachedBreakpoint × Bool
event_on_list none b l = (l, false)
event_on_list (some id) b l = (refresh_listed id b l, any_id id l)

abbrev pub listing : BreakpointCache × Bool → List CachedBreakpoint × Bool
listing (c, found) = (list c, found)

refresh_listed_unless :
    (id : ℕ) (b : Breakpoint) (l : List CachedBreakpoint)
    → any_id id l ≡ false
    → refresh_listed id b l ≡ l
unfolding refresh_listed any_id
refresh_listed_unless id b [] h = refl
refresh_listed_unless id b (x ∷ l) h = ground (arith, refresh_listed_unless id b l)

search_both-list :
    (id : ℕ) (b : Breakpoint) (c : BreakpointCache)
    (o : Option (Dict String (List CachedBreakpoint)))
    → Option.map sources o ≡ (
        if any_id id (sources c.source_breakpoints)
        then some (refresh_listed id b (sources c.source_breakpoints))
        else none)
    → listing (search_both id b c o) ≡ event_on_list (some id) b (list c)
unfolding list event_on_list
search_both-list id b c (some m) h =
    let files = sources c.source_breakpoints in
    let functions = c.function_breakpoints in
    rw (any_id-append id files functions, refresh_listed-append id b files functions) (ground arith)
search_both-list id b c none h =
    let files = sources c.source_breakpoints in
    let functions = c.function_breakpoints in
    rw (any_id-append id files functions, refresh_listed-append id b files functions)
      (ground (arith, refresh_first-eq id b functions, refresh_listed_unless id b functions))

update_with-list :
    (c : BreakpointCache) (b : Breakpoint) (o : Option ℕ)
    → listing (update_with c b o) ≡ event_on_list o b (list c)
unfolding event_on_list
update_with-list c b none = refl
update_with-list c b (some id) =
    unfold event_on_list in search_both-list id b c _ (refresh_file-eq id b c.source_breakpoints)

-- An update by a `breakpoint` event refreshes the first listed breakpoint with the event's id, files
-- before functions, and no other, and returns whether there is one; an event without an id changes
-- nothing.
pub update_by_id_listed :
    (c : BreakpointCache) (b : Breakpoint)
    → listing (update_by_id c b) ≡ event_on_list b.id b (list c)
unfolding update_by_id
update_by_id_listed c b = update_with-list c b b.id
