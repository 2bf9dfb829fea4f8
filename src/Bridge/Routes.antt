-- ===== src/Bridge/Routes.antt =====
-- The match on the tool's name in `dispatch` of crates/debug-bridge/src/registry.rs.
use teledap.Prelude.{
  ◌≡◌, refl, ap, ◌∙◌, String, string_eq, ◌==◌, Option, List, [], ◌∷◌, contains, Bool-cases, inl,
  inr,
}
use teledap.Dict.{Dict, get, keys}
use teledap.Cache.{is_some}
use teledap.Bridge.Tools.{all_tools}
use teledap.Bridge.Registry.{names}

-- The arms, by the handlers that they call.
pub data Route : Type 0 where
  to_start to_initialize to_launch to_attach to_configuration_done to_shutdown to_continue
        to_step_over to_step_in to_step_out to_pause to_set_breakpoints to_set_function_breakpoints
        to_list_breakpoints to_get_threads to_get_stack_trace to_get_scopes to_get_variables
        to_evaluate to_set_variable to_assemble_context to_search_variables to_get_state
        to_register_path_alias to_register_base_dir to_openocd_start to_openocd_stop
        to_openocd_status to_openocd_output to_openocd_send :
      Route

abbrev pub routes : Dict String Route
routes =
    ("start", to_start)
    ∷ ("initialize", to_initialize)
    ∷ ("launch", to_launch)
    ∷ ("attach", to_attach)
    ∷ ("configuration_done", to_configuration_done)
    ∷ ("shutdown", to_shutdown)
    ∷ ("continue", to_continue)
    ∷ ("step_over", to_step_over)
    ∷ ("step_in", to_step_in)
    ∷ ("step_out", to_step_out)
    ∷ ("pause", to_pause)
    ∷ ("set_breakpoints", to_set_breakpoints)
    ∷ ("set_function_breakpoints", to_set_function_breakpoints)
    ∷ ("list_breakpoints", to_list_breakpoints)
    ∷ ("get_threads", to_get_threads)
    ∷ ("get_stack_trace", to_get_stack_trace)
    ∷ ("get_scopes", to_get_scopes)
    ∷ ("get_variables", to_get_variables)
    ∷ ("evaluate", to_evaluate)
    ∷ ("set_variable", to_set_variable)
    ∷ ("assemble_context", to_assemble_context)
    ∷ ("search_variables", to_search_variables)
    ∷ ("get_state", to_get_state)
    ∷ ("register_path_alias", to_register_path_alias)
    ∷ ("register_base_dir", to_register_base_dir)
    ∷ ("openocd_start", to_openocd_start)
    ∷ ("openocd_stop", to_openocd_stop)
    ∷ ("openocd_status", to_openocd_status)
    ∷ ("openocd_output", to_openocd_output)
    ∷ ("openocd_send", to_openocd_send)
    ∷ []

-- No arm is the error for an unknown tool.
unfoldable pub route_of : String → Option Route
route_of name = get routes name

is_some-get :
    {V : Type 0} (m : Dict String V) (k : String) → is_some (get m k) ≡ contains k (keys m)
unfolding get
is_some-get [] k = refl
is_some-get ((j, v) ∷ m) k = elim (Bool-cases (j == k)) [
  | inl p ↦ rw p refl
  | inr p ↦ rw p (is_some-get m k)
]

keys-routes : keys routes ≡ names all_tools
unfolding all_tools
keys-routes = refl

-- The dispatch has a handler for exactly the tools that the registry lists, so that a listed tool is
-- never answered as unknown.
pub route_of-all_tools : (name : String) → is_some (route_of name) ≡ contains name (names all_tools)
unfolding route_of
route_of-all_tools name =
    is_some-get routes name ∙ ap (λ (l : List String). contains name l) keys-routes
