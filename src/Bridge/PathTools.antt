-- ===== src/Bridge/PathTools.antt =====
-- The two tools of crates/debug-bridge/src/handlers/lifecycle.rs that fill the path mapper, and the
-- session's wrappers of the mapper (crates/debug-session/src/session.rs). `bytes` and `text` are the
-- UTF-8 bytes of a text and the text of bytes, and `explain` is the text of a deserialization error.
use mathlib.Core.Option.{map}
use Prim.Native.String.{◌++◌ as ◌+++◌}
use teledap.Prelude.{
  ℕ, ◌≡◌, ap, String, Bool, false, Option, none, some, List, Result, ok, err, All,
}
use teledap.Dap.Json.{Json, and_then, as_str, required_field}
use teledap.PathMapper.{PathMapper, register_alias, register_base_dir, replace, resolve, reverse}
use teledap.Dict.Distinct.{IsDistinct}
use teledap.PathMapper.Registered.{resolve-register_alias}
use teledap.Paths.{is_absolute}
use teledap.Bridge.{BridgeError}
use BridgeError.{invalid_params}
use teledap.Bridge.Execution.{CallToolResult, success}
use teledap.Bridge.BreakpointTools.{BpItem, breakpoints_arguments}

pub record RegisterPathAliasParams : Type 0 where
  pub alias : String
  pub absolute_path : String

unfoldable pub register_path_alias_params : Json → Option RegisterPathAliasParams
register_path_alias_params params = and_then (required_field as_str params "alias") λ a.
    and_then (required_field as_str params "absolutePath")
      λ p. some (record { alias = a; absolute_path = p })

unfoldable pub register_base_dir_params : Json → Option String
register_base_dir_params params = required_field as_str params "dir"

module _ (bytes : String → List ℕ) where
  unfoldable pub register_path_alias : String → String → PathMapper → PathMapper
  register_path_alias alias absolute_path m = register_alias m (bytes alias) (bytes absolute_path)

module _ (bytes : String → List ℕ) (text : List ℕ → String) where
  unfoldable pub resolve_path : (List ℕ → Bool) → PathMapper → String → Option String
  resolve_path exists m path = map text (resolve exists m (bytes path))

  unfoldable pub reverse_path : PathMapper → String → Option String
  reverse_path m path = map text (reverse m (bytes path))

module _ (bytes : String → List ℕ) (explain : Json → String) where
  abbrev aliased :
      Json
      → Option RegisterPathAliasParams
      → PathMapper
      → PathMapper × Result BridgeError CallToolResult
  aliased params none m = (m, err (invalid_params "register_path_alias" (explain params)))
  aliased params (some p) m = (
    register_path_alias bytes p.alias p.absolute_path m,
    ok (
        success
          ("Path alias registered: \"" +++ p.alias +++ "\" → \"" +++ p.absolute_path +++ "\"")),
  )

  unfoldable pub handle_register_path_alias :
      Json → PathMapper → PathMapper × Result BridgeError CallToolResult
  unfolding register_path_alias register_path_alias_params success
  handle_register_path_alias params m = aliased params (register_path_alias_params params) m

  abbrev based : Json → Option String → PathMapper → PathMapper × Result BridgeError CallToolResult
  based params none m = (m, err (invalid_params "register_base_dir" (explain params)))
  based params (some dir) m = (
    register_base_dir m (bytes dir),
    ok (success ("Base directory registered: \"" +++ dir +++ "\"")),
  )

  unfoldable pub handle_register_base_dir :
      Json → PathMapper → PathMapper × Result BridgeError CallToolResult
  unfolding register_base_dir_params success
  handle_register_base_dir params m = based params (register_base_dir_params params) m

-- Once an alias has been registered by a tool call, breakpoints that are set in it as a source path go
-- to the path that was registered, if the alias is relative and no other one differs from it in
-- separators only.
pub handle_register_path_alias-breakpoints :
    (bytes : String → List ℕ) (text : List ℕ → String) (explain : Json → String)
    (exists : List ℕ → Bool) (params : Json) (p : RegisterPathAliasParams) (m : PathMapper)
    (items : List BpItem)
    → text (bytes p.absolute_path) ≡ p.absolute_path
    → register_path_alias_params params ≡ some p
    → IsDistinct m.aliases
    → is_absolute (bytes p.alias) ≡ false
    → All (λ x. replace x.0 ≡ replace (bytes p.alias) → x.0 ≡ bytes p.alias) m.aliases
    → let m' = (handle_register_path_alias bytes explain params m).0 in
      (breakpoints_arguments
        (resolve_path bytes text exists m')
        (record { source_path = p.alias; breakpoints = items })).source.path
      ≡ some p.absolute_path
unfolding handle_register_path_alias resolve_path register_path_alias breakpoints_arguments
handle_register_path_alias-breakpoints bytes text explain exists params p m items back h n a o =
    rw (h, resolve-register_alias exists m (bytes p.alias) (bytes p.absolute_path) n a o)
      (ap {B = Option String} some back)
