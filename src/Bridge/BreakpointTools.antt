-- ===== src/Bridge/BreakpointTools.antt =====
-- crates/debug-bridge/src/handlers/breakpoint.rs: the tools that set and list breakpoints. `resolve` is
-- the path mapper's `resolve`; the other arguments are those of the other tools.
use teledap.Prelude.{
  ℕ, ◌≡◌, refl, ap, String, string_eq, Option, none, some, List, [], ◌∷◌, Result, ok, err,
  Bool-cases, inl, inr,
}
use teledap.Dap.Json.{
  Json, Items, arr, nil, cons, as_str, as_u64, and_then, optional_field, required_field,
}
use teledap.Dap.Types.{Breakpoint, SourceBreakpoint, FunctionBreakpoint}
use teledap.Gating.{is_allowed}
use teledap.Breakpoints
use teledap.Breakpoints.{CachedBreakpoint}
use teledap.Breakpoints.Listing.{update_source_breakpoints_twice}
use teledap.Session.{DebugSession, Exec, ◌>>=◌, ◌>>◌, pure, modify, gate}
use teledap.Session.Calls.{SetBreakpointsArguments, request, set_breakpoints_arguments}
use teledap.Session.Events.{Event, or_value, handle_events}
use teledap.Session.Operations as Operations
use teledap.Session.Operations.{Reply, await}
use teledap.Bridge.{Handler}
use teledap.Bridge.Execution.{CallToolResult, to_json_error, handle, reported}

-- An item's fields have their Rust names on the wire, for want of a `rename_all`.
pub record BpItem : Type 0 where
  pub line : ℕ
  pub condition : Option String
  pub log_message : Option String

unfoldable pub bp_item : Json → Option BpItem
bp_item v = and_then (required_field as_u64 v "line") λ l.
    and_then (optional_field as_str v "condition") λ c.
      and_then (optional_field as_str v "log_message")
        λ m. some (record { line = l; condition = c; log_message = m })

-- A list whose items are all read.
unfoldable pub items_of : {A : Type 0} → (Json → Option A) → Items → Option (List A)
items_of f nil = some []
items_of f (cons j js) = and_then (f j) λ a. and_then (items_of f js) λ l. some (a ∷ l)

abbrev pub as_list : {A : Type 0} → (Json → Option A) → Json → Option (List A)
as_list f (arr js) = items_of f js
as_list f _ = none

pub record SetBreakpointsParams : Type 0 where
  pub source_path : String
  pub breakpoints : List BpItem

unfoldable pub set_breakpoints_params : Json → Option SetBreakpointsParams
unfolding bp_item items_of
set_breakpoints_params params = and_then (required_field as_str params "sourcePath") λ p.
    and_then (required_field (as_list bp_item) params "breakpoints")
      λ b. some (record { source_path = p; breakpoints = b })

unfoldable pub source_breakpoints : List BpItem → List SourceBreakpoint
source_breakpoints [] = []
source_breakpoints (b ∷ bs) =
    (record {
      line = b.line;
      column = none;
      condition = b.condition;
      hit_condition = none;
      log_message = b.log_message;
      mode = none;
    })
    ∷ source_breakpoints bs

pub record SetFunctionBreakpointsParams : Type 0 where
  pub names : List String
  pub condition : Option String
  pub hit_condition : Option String

unfoldable pub set_function_breakpoints_params : Json → Option SetFunctionBreakpointsParams
unfolding items_of
set_function_breakpoints_params params =
    and_then (required_field (as_list as_str) params "names") λ n.
      and_then (optional_field as_str params "condition") λ c.
        and_then (optional_field as_str params "hitCondition")
          λ h. some (record { names = n; condition = c; hit_condition = h })

abbrev pub function_breakpoints :
    Option String → Option String → List String → List FunctionBreakpoint
function_breakpoints condition hit_condition [] = []
function_breakpoints condition hit_condition (n ∷ ns) =
    (record { name = n; condition = condition; hit_condition = hit_condition })
    ∷ function_breakpoints condition hit_condition ns

abbrev pub resolved : (String → Option String) → String → String
resolved resolve path = or_value (resolve path) path

unfoldable pub breakpoints_arguments :
    (String → Option String) → SetBreakpointsParams → SetBreakpointsArguments
unfolding source_breakpoints
breakpoints_arguments resolve p = record {
  source = record {
    name = some (resolved resolve p.source_path);
    path = some (resolved resolve p.source_path);
  };
  breakpoints = some (source_breakpoints p.breakpoints);
  lines = none;
  source_modified = none;
}

module _ (breakpoint_of : Json → Option Breakpoint) (explain : Json → String) {Caps : Type 0} where
  -- The handler updates the cache again, as the session's operation has done. Events may be handled
  -- between the two updates, which take the cache's lock one after the other.
  unfoldable pub place_breakpoints :
      (String → Option String)
      → SetBreakpointsParams
      → Reply (List Breakpoint)
      → List Event
      → List Event
      → Exec Caps (List Breakpoint)
  unfolding breakpoints_arguments
  place_breakpoints resolve p reply meanwhile between = do
    response ←
        Operations.set_breakpoints breakpoint_of (breakpoints_arguments resolve p) reply meanwhile
    modify (handle_events breakpoint_of between)
    modify (λ s. record s {
      breakpoint_cache =
          Breakpoints.update_source_breakpoints s.breakpoint_cache (resolved resolve p.source_path)
            (source_breakpoints p.breakpoints) response;
    })
    pure response

  unfoldable pub handle_set_breakpoints :
      (List Breakpoint → Result String String)
      → (String → Option String)
      → Json
      → Reply (List Breakpoint)
      → List Event
      → List Event
      → Handler Caps CallToolResult
  unfolding place_breakpoints
  handle_set_breakpoints pretty resolve params reply meanwhile between =
      handle "set_breakpoints" (explain params) (set_breakpoints_params params)
        (λ p. place_breakpoints resolve p reply meanwhile between) (λ r. to_json_error (pretty r))

  unfoldable pub place_function_breakpoints :
      SetFunctionBreakpointsParams
      → Reply (List Breakpoint)
      → List Event
      → List Event
      → Exec Caps (List Breakpoint)
  place_function_breakpoints p reply meanwhile between =
      let breakpoints = function_breakpoints p.condition p.hit_condition p.names in
      do
        response ← Operations.set_function_breakpoints breakpoint_of breakpoints reply meanwhile
        modify (handle_events breakpoint_of between)
        modify (λ s. record s {
          breakpoint_cache =
              Breakpoints.update_function_breakpoints s.breakpoint_cache breakpoints response;
        })
        pure response

  unfoldable pub handle_set_function_breakpoints :
      (List Breakpoint → Result String String)
      → Json
      → Reply (List Breakpoint)
      → List Event
      → List Event
      → Handler Caps CallToolResult
  unfolding place_function_breakpoints
  handle_set_function_breakpoints pretty params reply meanwhile between =
      handle "set_function_breakpoints" (explain params) (set_function_breakpoints_params params)
        (λ p. place_function_breakpoints p reply meanwhile between) (λ r. to_json_error (pretty r))

  unfoldable pub handle_list_breakpoints :
      (List CachedBreakpoint → Result String String) → Json → Handler Caps CallToolResult
  handle_list_breakpoints pretty params =
      handle "list_breakpoints" "" (some tt) (λ _ s. (s, ok (Breakpoints.list s.breakpoint_cache)))
        (λ r. to_json_error (pretty r))

  place-set_breakpoints :
      (resolve : String → Option String) (p : SetBreakpointsParams)
      (reply : Reply (List Breakpoint)) (meanwhile : List Event) (s : DebugSession Caps)
      → place_breakpoints resolve p reply meanwhile [] s
        ≡ Operations.set_breakpoints breakpoint_of
            (breakpoints_arguments resolve p)
            reply
            meanwhile
            s
  unfolding place_breakpoints Operations.set_breakpoints breakpoints_arguments gate await
      handle_events
  place-set_breakpoints resolve p (err e) meanwhile s =
      elim (Bool-cases (is_allowed "set_breakpoints" s.state)) [
        | inl q ↦ rw q refl
        | inr q ↦ rw q refl
      ]
  place-set_breakpoints resolve p (ok response) meanwhile s =
      let args = breakpoints_arguments resolve p in
      let t = handle_events breakpoint_of meanwhile (record s {
        calls = request "setBreakpoints" (set_breakpoints_arguments args) ∷ s.calls;
      }) in
      elim (Bool-cases (is_allowed "set_breakpoints" s.state)) [
        | inl q ↦ rw q (
            ap (λ c. (record t { breakpoint_cache = c }, ok response))
              (update_source_breakpoints_twice t.breakpoint_cache (resolved resolve p.source_path)
                (source_breakpoints p.breakpoints) response))
        | inr q ↦ rw q refl
      ]

  -- The tool that sets the breakpoints of a file does to the session what the session's operation does
  -- with the resolved path and the items that were read, and reports its response or its error, if no
  -- event is handled between that operation and the handler's own update of the cache: this second
  -- update changes nothing then.
  pub handle_set_breakpoints-set_breakpoints :
      (pretty : List Breakpoint → Result String String) (resolve : String → Option String)
      (params : Json) (p : SetBreakpointsParams) (reply : Reply (List Breakpoint))
      (meanwhile : List Event) (s : DebugSession Caps)
      → set_breakpoints_params params ≡ some p
      → handle_set_breakpoints pretty resolve params reply meanwhile [] s
        ≡ reported
            (λ r. to_json_error (pretty r))
            (Operations.set_breakpoints breakpoint_of
              (breakpoints_arguments resolve p)
              reply
              meanwhile
              s)
  unfolding handle_set_breakpoints
  handle_set_breakpoints-set_breakpoints pretty resolve params p reply meanwhile s h = rw h (
      ap (λ x. reported (λ r. to_json_error (pretty r)) x)
        (place-set_breakpoints resolve p reply meanwhile s))
