-- ===== src/Dap/Types.antt =====
-- crates/dap-types/src/types.rs: the records of breakpoints, threads and variables. Of `Source` the
-- name and the path stand here, which are all that the session reads; of `Breakpoint` all but the
-- instruction reference and its offset, which nothing reads.
use teledap.Prelude.{ℕ, Bool, Option, String}

pub record Source : Type 0 where
  pub name : Option String
  pub path : Option String

pub record Thread : Type 0 where
  pub id : ℕ
  pub name : String

-- Without its presentation hint, evaluate name and memory and location references.
pub record Variable : Type 0 where
  pub name : String
  pub value : String
  pub var_type : Option String
  pub variables_reference : ℕ
  pub named_variables : Option ℕ
  pub indexed_variables : Option ℕ

-- Of a stack frame and a scope what the tools show of them.
pub record StackFrame : Type 0 where
  pub id : ℕ
  pub name : String
  pub source : Option Source
  pub line : ℕ
  pub column : ℕ

pub record Scope : Type 0 where
  pub name : String
  pub variables_reference : ℕ
  pub named_variables : Option ℕ
  pub indexed_variables : Option ℕ

pub record SourceBreakpoint : Type 0 where
  pub line : ℕ
  pub column : Option ℕ
  pub condition : Option String
  pub hit_condition : Option String
  pub log_message : Option String
  pub mode : Option String

pub record FunctionBreakpoint : Type 0 where
  pub name : String
  pub condition : Option String
  pub hit_condition : Option String

pub record Breakpoint : Type 0 where
  pub id : Option ℕ
  pub verified : Bool
  pub message : Option String
  pub source : Option Source
  pub line : Option ℕ
  pub column : Option ℕ
  pub end_line : Option ℕ
  pub end_column : Option ℕ
