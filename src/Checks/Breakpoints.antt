-- ===== src/Checks/Breakpoints.antt =====
-- crates/debug-session/src/breakpoints.rs at concrete inputs.
use teledap.Prelude.{
  ℕ, ◌≡◌, ◌≢◌, refl, Bool, true, false, none, some, [], ◌∷◌, String, string_eq, nat_eq, option_eq,
  ne_of_beq,
}
use teledap.Dap.Types.{SourceBreakpoint, Breakpoint}
use teledap.Breakpoints.{BreakpointCache, new, update_source_breakpoints, update_by_id, list}
use teledap.Breakpoints.ById.{listing, event_on_list, update_by_id_listed}

abbrev at_line : ℕ → SourceBreakpoint
at_line n = record {
  line = n;
  column = none;
  condition = none;
  hit_condition = none;
  log_message = none;
  mode = none;
}

abbrev placed : ℕ → Bool → ℕ → Breakpoint
placed id verified n = record {
  id = some id;
  verified = verified;
  message = none;
  source = none;
  line = some n;
  column = none;
  end_line = none;
  end_column = none;
}

abbrev one_file : BreakpointCache
one_file = update_source_breakpoints new "/a.cpp" (at_line 1 ∷ []) (placed 7 false 1 ∷ [])

a_not_b : ◌≢◌ {A = String} "/a.cpp" "/b.cpp"
a_not_b = ne_of_beq "/a.cpp" "/b.cpp" refl

update_by_id_listed_example :
    listing (update_by_id one_file (placed 7 true 2))
    ≡ event_on_list (some 7) (placed 7 true 2) (list one_file)
update_by_id_listed_example = update_by_id_listed one_file (placed 7 true 2)
