-- ===== src/Codec/Decimal.antt =====
-- Decimal numbers as crates/dap-codec/src/lib.rs prints and parses them: `format!("{}", n)` and
-- `parse::<usize>` on a 64-bit machine.
use teledap.Prelude.{
  ℕ, zero, suc, ◌+◌, ◌-◌, ◌*◌, ◌/◌, ◌%◌, ◌^◌, ◌≤◌, ◌<◌, ◌≡◌, ◌∙◌, true, false, ◌&&◌, Option, none,
  some, List, [], ◌∷◌, arith, ◌==◌, nat_eq, ltb, leb, if◌then◌else◌, length, All, Bool-cases, inl,
  inr, ltb→lt, ltb→ge,
}

abbrev pub usize_bound : ℕ
usize_bound = 2 ^ 64

unfoldable pub print_on : ℕ → ℕ → List ℕ → List ℕ
print_on zero n acc = acc
print_on (suc fuel) n acc =
    let rest = print_on fuel (n / 10) ((48 + n % 10) ∷ acc) in
    if ltb n 10 then (48 + n) ∷ acc else rest

-- A number has at most as many digits as it is large, and one more.
unfoldable pub print : ℕ → List ℕ
print n = print_on (suc n) n []

-- `checked_mul` and `checked_add` fail together: at the sum.
unfoldable pub digits : ℕ → List ℕ → Option ℕ
digits value [] = some value
digits value (c ∷ s) =
    let next = value * 10 + (c - 48) in
    let rest = digits next s in if leb 48 c && leb c 57 && ltb next usize_bound then rest else none

abbrev unsigned : List ℕ → Option ℕ
unsigned [] = none
unsigned (c ∷ s) = digits 0 (c ∷ s)

-- A leading `+` is allowed, an empty number is not; `none` is any `ParseIntError`.
unfoldable pub parse : List ℕ → Option ℕ
parse [] = none
parse (c ∷ s) = if c == 43 then unsigned s else digits 0 (c ∷ s)

abbrev pub IsDigit : ℕ → Type 0
IsDigit c = (48 ≤ c) × (c ≤ 57)

digits_step :
    (value d n : ℕ) (s : List ℕ)
    → d < 10
    → value * 10 + d ≡ n
    → n < usize_bound
    → digits value ((48 + d) ∷ s) ≡ digits n s
unfolding digits
digits_step value d n s h e b =
    let f : value * 10 + (48 + d - 48) ≡ n = omega (arith, e) in
    let p : leb 48 (48 + d) ≡ true = ground arith in
    let q : leb (48 + d) 57 ≡ true = ground (arith, h) in
    let r : ltb n usize_bound ≡ true = ground (arith, b) in rw (f, p, q, r)

-- Enough fuel prints all digits, and reading them gives the number back.
digits-print_on :
    (fuel n : ℕ) (acc : List ℕ)
    → n ≤ fuel
    → n < usize_bound
    → digits 0 (print_on (suc fuel) n acc) ≡ digits n acc
unfolding print_on
digits-print_on zero n acc h b =
    let p : ltb n 10 ≡ true = ground (arith, h) in
    rw p (digits_step 0 n n acc (omega (arith, h)) (omega arith) b)
digits-print_on (suc f) n acc h b = elim (Bool-cases (ltb n 10)) [
  | inl p ↦ rw p (digits_step 0 n n acc (ltb→lt n 10 p) (omega arith) b)
  | inr p ↦
      let q = ltb→ge n 10 p in
      rw p (
        digits-print_on f (n / 10) ((48 + n % 10) ∷ acc) (omega (arith, h, q)) (omega (arith, b))
        ∙ digits_step (n / 10) (n % 10) n acc (omega arith) (omega arith) b)
]

IsDigit-print_on :
    (fuel n : ℕ) (acc : List ℕ)
    → n ≤ fuel
    → All IsDigit acc
    → All IsDigit (print_on (suc fuel) n acc)
unfolding print_on
IsDigit-print_on zero n acc h a =
    let p : ltb n 10 ≡ true = ground (arith, h) in rw p ((omega arith, omega (arith, h)), a)
IsDigit-print_on (suc f) n acc h a = elim (Bool-cases (ltb n 10)) [
  | inl p ↦ rw p ((omega arith, omega (arith, ltb→lt n 10 p)), a)
  | inr p ↦ rw p (
      IsDigit-print_on f (n / 10) ((48 + n % 10) ∷ acc) (omega (arith, h, ltb→ge n 10 p))
        ((omega arith, omega arith), a))
]

-- Only digits are printed.
pub print-IsDigit : (n : ℕ) → All IsDigit (print n)
unfolding print
print-IsDigit n = IsDigit-print_on n n [] (omega arith) tt

pub digits-print : (n : ℕ) → n < usize_bound → digits 0 (print n) ≡ some n
unfolding print digits
digits-print n b = digits-print_on n n [] (omega arith) b

length-print_on : (fuel n : ℕ) (acc : List ℕ) → length acc < length (print_on (suc fuel) n acc)
unfolding print_on
length-print_on zero n acc = elim (Bool-cases (ltb n 10)) [
  | inl p ↦ rw p (omega arith)
  | inr p ↦ rw p (omega arith)
]
length-print_on (suc f) n acc = elim (Bool-cases (ltb n 10)) [
  | inl p ↦ rw p (omega arith)
  | inr p ↦ rw p (omega (arith, length-print_on f (n / 10) ((48 + n % 10) ∷ acc)))
]

-- No number is printed as nothing.
pub length-print : (n : ℕ) → 0 < length (print n)
unfolding print
length-print n = length-print_on n n []

abbrev power_of_ten : ℕ → ℕ
power_of_ten zero = 1
power_of_ten (suc d) = 10 * power_of_ten d

length-print_on_le :
    (d fuel n : ℕ) (acc : List ℕ)
    → n < power_of_ten (suc d)
    → length (print_on fuel n acc) ≤ length acc + suc d
unfolding print_on
length-print_on_le d zero n acc h = omega arith
length-print_on_le zero (suc f) n acc h =
    let p : ltb n 10 ≡ true = ground (arith, h) in rw p (omega arith)
length-print_on_le (suc d) (suc f) n acc h = elim (Bool-cases (ltb n 10)) [
  | inl p ↦ rw p (omega arith)
  | inr p ↦
      rw p (omega (arith, length-print_on_le d f (n / 10) ((48 + n % 10) ∷ acc) (omega (arith, h))))
]

-- A `usize` has at most twenty digits.
pub length-print_le : (n : ℕ) → n < usize_bound → length (print n) ≤ 20
unfolding print
length-print_le n h = length-print_on_le 19 (suc n) n [] (omega (arith, h))

parse-digits : (l : List ℕ) → All IsDigit l → 0 < length l → parse l ≡ digits 0 l
unfolding parse
parse-digits [] a h = absurd (omega (arith, h))
parse-digits (c ∷ l) (d, a) h = let p : (c == 43) ≡ false = ground (arith, d.0) in rw p

-- A printed number is read back, if it is a `usize`.
pub parse-print : (n : ℕ) → n < usize_bound → parse (print n) ≡ some n
parse-print n b = parse-digits (print n) (print-IsDigit n) (length-print n) ∙ digits-print n b
