-- ===== src/Expansion.antt =====
-- crates/debug-session/src/variables.rs and context.rs: expanded variables, the limits of an expansion,
-- and the chain of threads, frames, scopes and variables. A text is its characters as numbers, and
-- `chars` those of a string.
pub mod Totals
use teledap.Prelude.{
  ℕ, suc, ◌+◌, String, Bool, true, false, not, ◌&&◌, ◌||◌, Option, none, some, List, [], ◌∷◌, ◌++◌,
  nat_eq, ◌==◌, ltb, leb, length, reverse,
}
use teledap.Dap.Types.{Variable, Thread, StackFrame, Scope}
use teledap.Session.Events.{or_value}
use teledap.Codec.{starts_with}
use teledap.Codec.Text.{trim}

pub record ExpansionConfig : Type 0 where
  pub max_depth : ℕ
  pub max_total_variables : ℕ
  pub dereference_pointers : Bool
  pub max_array_elements : ℕ
  pub expand_stl_containers : Bool
  pub max_string_length : ℕ

-- `Default`
abbrev pub default_config : ExpansionConfig
default_config = record {
  max_depth = 3;
  max_total_variables = 500;
  dereference_pointers = true;
  max_array_elements = 50;
  expand_stl_containers = false;
  max_string_length = 256;
}

-- A node and its children, if it was expanded.
mutual
  pub data ExpandedVariable : Type 0 where
    node : Variable → Children → ℕ → ExpandedVariable

  pub data Children : Type 0 where
    not_expanded : Children
    expanded : Nodes → Children

  pub data Nodes : Type 0 where
    nil : Nodes
    cons : ExpandedVariable → Nodes → Nodes

-- `ExpandedVariable::new`
unfoldable pub new_node : Variable → ℕ → ExpandedVariable
new_node v depth = node v not_expanded depth

unfoldable pub is_expandable : ExpandedVariable → Bool
is_expandable (node v children depth) = ltb 0 v.variables_reference

unfoldable pub child_count : ExpandedVariable → ℕ
child_count (node v children depth) = or_value v.named_variables 0 + or_value v.indexed_variables 0

pub record VariableExpander : Type 0 where
  pub config : ExpansionConfig
  pub total_fetched : ℕ

unfoldable pub new_expander : ExpansionConfig → VariableExpander
new_expander config = record { config = config; total_fetched = 0 }

unfoldable pub is_capped : VariableExpander → Bool
is_capped e = leb e.config.max_total_variables e.total_fetched

unfoldable pub reset : VariableExpander → VariableExpander
reset e = record e { total_fetched = 0 }

abbrev pub ends_with : List ℕ → List ℕ → Bool
ends_with s suffix = starts_with (reverse s) (reverse suffix)

-- "*", "*const" and "*mut"
unfoldable pub is_pointer_text : List ℕ → Bool
is_pointer_text t =
    ends_with t (42 ∷ [])
    || ends_with t (42 ∷ 99 ∷ 111 ∷ 110 ∷ 115 ∷ 116 ∷ [])
    || ends_with t (42 ∷ 109 ∷ 117 ∷ 116 ∷ [])

abbrev pub pointer_type_of : (String → List ℕ) → Option String → Bool
pointer_type_of chars none = false
pointer_type_of chars (some t) = is_pointer_text (chars t)

unfoldable pub is_pointer_type : (String → List ℕ) → Variable → Bool
unfolding is_pointer_text
is_pointer_type chars v = pointer_type_of chars v.var_type

-- `is_ascii_hexdigit`
abbrev pub is_hexdigit : ℕ → Bool
is_hexdigit c = leb 48 c && leb c 57 || leb 65 c && leb c 70 || leb 97 c && leb c 102

abbrev pub all : (ℕ → Bool) → List ℕ → Bool
all p [] = true
all p (c ∷ s) = p c && all p s

-- "0x", or at least four digits that are not all zero. A text of digits has as many bytes as
-- characters.
unfoldable pub looks_like_pointer_value : List ℕ → Bool
looks_like_pointer_value value =
    let trimmed = trim value in
    starts_with trimmed (48 ∷ 120 ∷ [])
    || leb 4 (length trimmed) && all is_hexdigit trimmed && not (all (λ c. c == 48) trimmed)

pub record ScopeContext : Type 0 where
  pub scope : Scope
  pub variables : List ExpandedVariable

pub record FrameContext : Type 0 where
  pub frame : StackFrame
  pub scopes : List ScopeContext

pub record ThreadContext : Type 0 where
  pub thread : Thread
  pub frames : List FrameContext

pub record ContextChain : Type 0 where
  pub threads : List ThreadContext
  pub stale : Bool

unfoldable pub empty_chain : ContextChain
empty_chain = record { threads = []; stale = false }

unfoldable pub thread_context : Thread → ThreadContext
thread_context thread = record { thread = thread; frames = [] }

unfoldable pub frame_context : StackFrame → FrameContext
frame_context frame = record { frame = frame; scopes = [] }

unfoldable pub scope_context : Scope → ScopeContext
scope_context scope = record { scope = scope; variables = [] }

-- `map` and `sum` on an iterator, and `flat_map`.
abbrev pub sum_of {ℓ} : {A : Type ℓ} → (A → ℕ) → List A → ℕ
sum_of f [] = 0
sum_of f (a ∷ l) = f a + sum_of f l

abbrev pub flat_map {ℓ} : {A B : Type ℓ} → (A → List B) → List A → List B
flat_map f [] = []
flat_map f (a ∷ l) = f a ++ flat_map f l

unfoldable pub total_frames : ContextChain → ℕ
total_frames c = sum_of (λ t. length t.frames) c.threads

unfoldable pub total_variables : ContextChain → ℕ
total_variables c =
    sum_of (λ s. length s.variables) (flat_map (λ f. f.scopes) (flat_map (λ t. t.frames) c.threads))
