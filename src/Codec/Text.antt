-- ===== src/Codec/Text.antt =====
-- What crates/dap-codec/src/lib.rs uses of Rust's strings, as lists of code points: `from_utf8`,
-- `lines`, `trim` and `strip_prefix`.
use teledap.Prelude.{
  ℕ, ◌+◌, ◌-◌, ◌*◌, Bool, true, false, ◌&&◌, ◌||◌, Option, none, some, List, [], ◌∷◌, ◌==◌, nat_eq,
  ltb, leb, if◌then◌else◌,
}

-- The decoder between two bytes: how many more bytes the character wants, its value so far, and the
-- range of the next byte.
pub record Pending : Type 0 where
  pub bad : Bool
  pub wanted : ℕ
  pub value : ℕ
  pub low : ℕ
  pub high : ℕ

abbrev between : ℕ → ℕ → ℕ → Bool
between low b high = leb low b && leb b high

abbrev wants : ℕ → ℕ → ℕ → ℕ → Pending
wants n value low high = record { bad = false; wanted = n; value = value; low = low; high = high }

abbrev malformed : Pending
malformed = record { bad = true; wanted = 0; value = 0; low = 0; high = 0 }

-- The first byte of a character: no overlong form, no surrogate, nothing above U+10FFFF.
abbrev lead : ℕ → Pending
lead b =
    if ltb b 128
    then wants 0 b 0 0
    else if between 194 b 223
    then wants 1 (b - 192) 128 191
    else if b == 224
    then wants 2 0 160 191
    else if b == 237
    then wants 2 13 128 159
    else if between 225 b 239
    then wants 2 (b - 224) 128 191
    else if b == 240
    then wants 3 0 144 191
    else if between 241 b 243
    then wants 3 (b - 240) 128 191
    else if b == 244
    then wants 3 4 128 143
    else malformed

abbrev follow : Pending → ℕ → Pending
follow p b =
    if between p.low b p.high
    then wants (p.wanted - 1) (p.value * 64 + (b - 128)) 128 191
    else malformed

abbrev next : Pending → ℕ → Pending
next p b = if p.wanted == 0 then lead b else follow p b

abbrev cons : ℕ → Option (List ℕ) → Option (List ℕ)
cons c none = none
cons c (some s) = some (c ∷ s)

abbrev emit : Pending → Option (List ℕ) → Option (List ℕ)
emit p rest = if p.bad then none else if p.wanted == 0 then cons p.value rest else rest

unfoldable pub utf8_from : Pending → List ℕ → Option (List ℕ)
utf8_from p [] = if p.wanted == 0 then some [] else none
utf8_from p (b ∷ bytes) = let q = next p b in emit q (utf8_from q bytes)

-- `none` is `Utf8Error`.
unfoldable pub from_utf8 : List ℕ → Option (List ℕ)
from_utf8 bytes = utf8_from (wants 0 0 0 0) bytes

abbrev starts_newline : List ℕ → Bool
starts_newline [] = false
starts_newline (c ∷ s) = c == 10

abbrev onto_first : ℕ → List (List ℕ) → List (List ℕ)
onto_first c [] = (c ∷ []) ∷ []
onto_first c (l ∷ ls) = (c ∷ l) ∷ ls

-- A line ends before "\n" or "\r\n"; behind the last one no empty line is added.
unfoldable pub lines : List ℕ → List (List ℕ)
lines [] = []
lines (c ∷ s) =
    let rest = lines s in
    if c == 10 then [] ∷ rest else if c == 13 && starts_newline s then rest else onto_first c rest

-- The property White_Space.
abbrev pub is_whitespace : ℕ → Bool
is_whitespace c =
    leb 9 c && leb c 13
    || c == 32
    || c == 133
    || c == 160
    || c == 5760
    || leb 8192 c && leb c 8202
    || c == 8232
    || c == 8233
    || c == 8239
    || c == 8287
    || c == 12288

unfoldable pub trim_start : List ℕ → List ℕ
trim_start [] = []
trim_start (c ∷ s) = let rest = trim_start s in if is_whitespace c then rest else c ∷ s

abbrev pub is_nil : List ℕ → Bool
is_nil [] = true
is_nil (c ∷ s) = false

unfoldable pub trim_end : List ℕ → List ℕ
trim_end [] = []
trim_end (c ∷ s) = let rest = trim_end s in if is_whitespace c && is_nil rest then [] else c ∷ rest

unfoldable pub trim : List ℕ → List ℕ
trim s = trim_start (trim_end s)

unfoldable pub strip_prefix : List ℕ → List ℕ → Option (List ℕ)
strip_prefix s [] = some s
strip_prefix [] (p ∷ prefix) = none
strip_prefix (c ∷ s) (p ∷ prefix) =
    let rest = strip_prefix s prefix in if c == p then rest else none
