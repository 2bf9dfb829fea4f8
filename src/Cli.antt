-- ===== src/Cli.antt =====
-- src/cli.rs: the command line that drives one session, and what it makes of its arguments. Paths are
-- the bytes of their texts, the list of lines is its characters, and `cwd` is the current directory, if there is one.
pub mod Loop
pub mod Continues
pub mod Lines
pub mod Run
pub mod Ends
use mathlib.Core.Option.{map}
use teledap.Prelude.{
  ℕ, String, string_eq, nat_eq, list_eq, Bool, true, false, not, Option, none, some, List, [], ◌∷◌,
  ◌++◌, ◌==◌, if◌then◌else◌,
}
use teledap.Dap.Json.{Json, boolean, str, obj, Fields, end, field}
use teledap.Session.Calls.{AdapterKind, codelldb, gdb, AdapterConfig}
use teledap.Codec.Text.{trim}
use teledap.Codec.Decimal.{parse}
use teledap.Bridge.Lifecycle.{remote_fields, initialize_arguments}
use teledap.Paths.{
  Shape, rooted, dotted, plain, shape_of, split, trim_right, whole, is_absolute, join,
}

-- The arguments that `run` reads, but for those of the log.
pub record Args : Type 0 where
  pub adapter_path : String
  pub codelldb_path : String
  pub adapter_kind : String
  pub adapter_args : List String
  pub liblldb_path : Option String
  pub elf_path : String
  pub gdb_remote : Option String
  pub source_path : String
  pub breakpoints : String

unfoldable pub adapter_path_of : Args → String
adapter_path_of args =
    if not (args.codelldb_path == "") then args.codelldb_path else args.adapter_path

unfoldable pub adapter_kind_of : Args → AdapterKind
adapter_kind_of args = if args.adapter_kind == "gdb" then gdb else codelldb

unfoldable pub adapter_config : Args → AdapterConfig
unfolding adapter_path_of adapter_kind_of
adapter_config args = record {
  path = adapter_path_of args;
  kind = adapter_kind_of args;
  args = args.adapter_args;
}

abbrev pub default_adapter_id : AdapterKind → String
default_adapter_id gdb = "gdb"
default_adapter_id codelldb = "lldb"

-- The arguments of `initialize` are those of the tool.
unfoldable pub initialize_request : AdapterKind → Json
unfolding initialize_arguments
initialize_request kind = initialize_arguments (default_adapter_id kind)

-- `launch_extra`
unfoldable pub launch_arguments : Args → AdapterKind → Json
launch_arguments args kind = obj (
    field "program" (str args.elf_path)
      (field "stopOnEntry" (boolean false) (remote_fields (some kind) args.gdb_remote end)))

abbrev pub begin_part : ℕ → List (List ℕ) → List (List ℕ)
begin_part c [] = (c ∷ []) ∷ []
begin_part c (part ∷ parts) = (c ∷ part) ∷ parts

-- `split(',')`
unfoldable pub split_commas : List ℕ → List (List ℕ)
split_commas [] = [] ∷ []
split_commas (c ∷ s) =
    let parts = split_commas s in if c == 44 then [] ∷ parts else begin_part c parts

abbrev pub keep : Option ℕ → List ℕ → List ℕ
keep none l = l
keep (some n) l = n ∷ l

-- `filter_map`: what is no number is left out.
unfoldable pub numbers : List (List ℕ) → List ℕ
numbers [] = []
numbers (part ∷ parts) = keep (parse (trim part)) (numbers parts)

unfoldable pub bp_lines : List ℕ → List ℕ
unfolding split_commas numbers
bp_lines [] = 9 ∷ 13 ∷ 4 ∷ []
bp_lines (c ∷ s) = numbers (split_commas (c ∷ s))

-- `Path::parent`: the path without its last component, if that is not the root.
abbrev pub init : List (List ℕ) → List (List ℕ)
init [] = []
init (seg ∷ []) = []
init (seg ∷ next ∷ segs) = seg ∷ init (next ∷ segs)

abbrev pub last_of : List (List ℕ) → Option (List ℕ)
last_of [] = none
last_of (seg ∷ []) = some seg
last_of (seg ∷ next ∷ segs) = last_of (next ∷ segs)

abbrev pub without_last :
    (List (List ℕ) → Shape) → Option (List ℕ) → List (List ℕ) → Option (List ℕ)
without_last shape none segs = none
without_last shape (some seg) segs = some (whole (shape (init segs)))

abbrev pub parent_of : Shape → Option (List ℕ)
parent_of (rooted segs) = without_last rooted (last_of (trim_right segs)) (trim_right segs)
parent_of (plain segs) = without_last plain (last_of (trim_right segs)) (trim_right segs)
parent_of (dotted segs) =
    some (if trim_right segs == [] then [] else whole (dotted (init (trim_right segs))))

unfoldable pub parent : List ℕ → Option (List ℕ)
unfolding split trim_right whole
parent path = parent_of (shape_of (split path))

-- "main.c"
abbrev pub main_c : List ℕ
main_c = 109 ∷ 97 ∷ 105 ∷ 110 ∷ 46 ∷ 99 ∷ []

abbrev pub inferred : Option (List ℕ) → List ℕ
inferred none = main_c
inferred (some dir) = join dir main_c

abbrev pub absolute_in : Option (List ℕ) → List ℕ → List ℕ
absolute_in none path = path
absolute_in (some cwd) path = if is_absolute path then path else join cwd path

-- The source file of the breakpoints, from its option or beside the program.
unfoldable pub source_path_of : Option (List ℕ) → List ℕ → List ℕ → List ℕ
unfolding parent
source_path_of cwd [] elf_path = absolute_in cwd (inferred (parent elf_path))
source_path_of cwd (c ∷ s) elf_path = absolute_in cwd (c ∷ s)
