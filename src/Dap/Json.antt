-- ===== src/Dap/Json.antt =====
-- The JSON values of the protocol (`serde_json::Value`) and the fields that derived deserializers
-- read from an object.
use teledap.Prelude.{
  ℕ, Bool, true, false, Option, none, some, String, string_eq, ◌==◌, if◌then◌else◌,
}
use mathlib.Core.Option

-- `num` is a number that `as_u64` accepts, and `other_num` any other by its text.
mutual
  pub data Json : Type 0 where
    null : Json
    boolean : Bool → Json
    num : ℕ → Json
    other_num : String → Json
    str : String → Json
    arr : Items → Json
    obj : Fields → Json

  pub data Items : Type 0 where
    nil : Items
    cons : Json → Items → Items

  pub data Fields : Type 0 where
    end : Fields
    field : String → Json → Fields → Fields

unfoldable pub get_field : Fields → String → Option Json
get_field end k = none
get_field (field j v fs) k = let rest = get_field fs k in if j == k then some v else rest

-- `Value::get` with a key
unfoldable pub get : Json → String → Option Json
unfolding get_field
get (obj fs) k = get_field fs k
get _ k = none

abbrev pub as_str : Json → Option String
as_str (str s) = some s
as_str _ = none

abbrev pub as_u64 : Json → Option ℕ
as_u64 (num n) = some n
as_u64 _ = none

abbrev pub as_bool : Json → Option Bool
as_bool (boolean b) = some b
as_bool _ = none

abbrev pub and_then : {A B : Type 0} → Option A → (A → Option B) → Option B
and_then none f = none
and_then (some a) f = f a

-- The value of an `Option` field with a default: absent and null are `None`, and a value of another
-- type fails the deserialization (the outer `none`).
abbrev pub optional_value : {A : Type 0} → (Json → Option A) → Option Json → Option (Option A)
optional_value f none = some none
optional_value f (some null) = some none
optional_value f (some v) = Option.map some (f v)

abbrev pub optional_field : {A : Type 0} → (Json → Option A) → Json → String → Option (Option A)
optional_field f body k = optional_value f (get body k)

abbrev pub required_field : {A : Type 0} → (Json → Option A) → Json → String → Option A
required_field f body k = and_then (get body k) f

abbrev pub is_object : Json → Bool
is_object (obj fs) = true
is_object _ = false
