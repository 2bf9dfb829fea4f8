-- ===== src/Checks/Expansion.antt =====
-- Tests of the pointer tests and of the limit, after the tests in
-- crates/debug-session/src/variables.rs.
use teledap.Prelude.{◌≡◌, refl, true, false, [], ◌∷◌}
use teledap.Codec.{starts_with}
use teledap.Codec.Text.{trim, trim_start, trim_end}
use teledap.Expansion.{
  is_pointer_text, looks_like_pointer_value, is_capped, new_expander, default_config,
}

-- "int*"
pointer_int : is_pointer_text (105 ∷ 110 ∷ 116 ∷ 42 ∷ []) ≡ true
unfolding is_pointer_text starts_with
pointer_int = refl

-- "int"
plain_int : is_pointer_text (105 ∷ 110 ∷ 116 ∷ []) ≡ false
unfolding is_pointer_text starts_with
plain_int = refl

-- "0x1234"
address_prefixed : looks_like_pointer_value (48 ∷ 120 ∷ 49 ∷ 50 ∷ 51 ∷ 52 ∷ []) ≡ true
unfolding looks_like_pointer_value trim trim_start trim_end starts_with
address_prefixed = refl

-- "DEADBEEF"
address_digits : looks_like_pointer_value (68 ∷ 69 ∷ 65 ∷ 68 ∷ 66 ∷ 69 ∷ 69 ∷ 70 ∷ []) ≡ true
unfolding looks_like_pointer_value trim trim_start trim_end starts_with
address_digits = refl

-- "0000" and "42"
address_zeros : looks_like_pointer_value (48 ∷ 48 ∷ 48 ∷ 48 ∷ []) ≡ false
unfolding looks_like_pointer_value trim trim_start trim_end starts_with
address_zeros = refl

address_short : looks_like_pointer_value (52 ∷ 50 ∷ []) ≡ false
unfolding looks_like_pointer_value trim trim_start trim_end starts_with
address_short = refl

capped_default : is_capped (new_expander default_config) ≡ false
unfolding is_capped new_expander
capped_default = refl
