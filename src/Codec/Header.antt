-- ===== src/Codec/Header.antt =====
-- What the decoder of crates/dap-codec/src/lib.rs reads from a header that the encoder has written.
use teledap.Prelude.{
  ℕ, zero, suc, ◌+◌, ◌<◌, ◌≡◌, refl, Bool, true, false, not, ◌&&◌, none, some, List, [], ◌∷◌, ◌++◌,
  arith, ◌==◌, nat_eq, ltb, if◌then◌else◌, length, length-append, take, drop, All, All-append,
  Bool-cases, inl, inr, Result, ok, beq_refl,
}
use teledap.Codec.{
  DecodeError, terminator, content_length_key, starts_with, find_subsequence, length_of_line,
  find_length, header, found_length,
}
use teledap.Codec.Text.{
  utf8_from, from_utf8, lines, is_whitespace, trim_start, trim_end, trim, strip_prefix, is_nil,
}
use teledap.Codec.Decimal.{print, IsDigit, print-IsDigit, length-print, parse-print, usize_bound}

All-map : {A : Type 0} {P Q : A → Type 0} → ((a : A) → P a → Q a) → (l : List A) → All P l → All Q l
All-map f [] a = tt
All-map f (x ∷ l) (p, a) = (f x p, All-map f l a)

-- An ASCII character that is no line end.
abbrev plain : ℕ → Bool
plain c = ltb c 128 && not (c == 10) && not (c == 13)

abbrev IsPlain : ℕ → Type 0
IsPlain c = plain c ≡ true

IsPlain-of_digit : (c : ℕ) → IsDigit c → IsPlain c
IsPlain-of_digit c d = ground (arith, d.0, d.1)

key-IsPlain : All IsPlain content_length_key
key-IsPlain = (
  refl,
  (
    refl,
    (
      refl,
      (
        refl,
        (refl, (refl, (refl, (refl, (refl, (refl, (refl, (refl, (refl, (refl, (refl, tt))))))))))),
      ),
    ),
  ),
)

pub header-IsPlain : (n : ℕ) → All IsPlain (header n)
unfolding header
header-IsPlain n =
    All-append IsPlain content_length_key (32 ∷ print n) key-IsPlain
      (refl, All-map IsPlain-of_digit (print n) (print-IsDigit n))

utf8_of_plain :
    (v : ℕ) (l : List ℕ)
    → All IsPlain l
    → utf8_from (record { bad = false; wanted = 0; value = v; low = 0; high = 0 }) l ≡ some l
unfolding utf8_from
utf8_of_plain v [] a = refl
utf8_of_plain v (b ∷ l) (p, a) =
    let q : ltb b 128 ≡ true = ground (arith, p) in rw (q, utf8_of_plain b l a)

pub from_utf8-plain : (l : List ℕ) → All IsPlain l → from_utf8 l ≡ some l
unfolding from_utf8
from_utf8-plain l a = utf8_of_plain 0 l a

pub lines-plain : (c : ℕ) (l : List ℕ) → All IsPlain (c ∷ l) → lines (c ∷ l) ≡ (c ∷ l) ∷ []
unfolding lines
lines-plain c [] (p, a) =
    let q : (c == 10) ≡ false = ground (arith, p) in
    let r : (c == 13) ≡ false = ground (arith, p) in rw (q, r)
lines-plain c (d ∷ l) (p, a) =
    let q : (c == 10) ≡ false = ground (arith, p) in
    let r : (c == 13) ≡ false = ground (arith, p) in rw (lines-plain d l a, q, r)

-- The window test fails at every character of the header.
find_after :
    (h rest : List ℕ)
    → All IsPlain h
    → find_subsequence (h ++ terminator ++ rest) terminator ≡ some (length h)
unfolding find_subsequence starts_with
find_after [] rest a = refl
find_after (b ∷ h) rest (p, a) =
    let q : (b == 13) ≡ false = ground (arith, p) in rw (q, find_after h rest a)

pub find_header :
    (n : ℕ) (rest : List ℕ)
    → find_subsequence (header n ++ terminator ++ rest) terminator ≡ some (length (header n))
find_header n rest = find_after (header n) rest (header-IsPlain n)

-- A part of the header and of its end has no window that is the end.
pub find_in_part :
    (h : List ℕ) (k : ℕ)
    → All IsPlain h
    → k < length h + 4
    → find_subsequence (take k (h ++ terminator)) terminator ≡ none
unfolding find_subsequence starts_with
find_in_part [] zero a h = refl
find_in_part [] (suc zero) a h = refl
find_in_part [] (suc (suc zero)) a h = refl
find_in_part [] (suc (suc (suc zero))) a h = refl
find_in_part [] (suc (suc (suc (suc k)))) a h = absurd (omega (arith, h))
find_in_part (b ∷ l) zero a h = refl
find_in_part (b ∷ l) (suc k) (p, a) h =
    let q : (b == 13) ≡ false = ground (arith, p) in rw (q, find_in_part l k a (omega (arith, h)))

strip_prefix-append : (p s : List ℕ) → strip_prefix (p ++ s) p ≡ some s
unfolding strip_prefix
strip_prefix-append [] s = refl
strip_prefix-append (c ∷ p) s = rw (beq_refl c, strip_prefix-append p s)

visible_of_digit : (c : ℕ) → IsDigit c → is_whitespace c ≡ false
visible_of_digit c d = ground (arith, d.0, d.1)

trim_end-digits : (l : List ℕ) → All IsDigit l → trim_end l ≡ l
unfolding trim_end
trim_end-digits [] a = refl
trim_end-digits (c ∷ l) (d, a) = rw (visible_of_digit c d, trim_end-digits l a)

trim_start-digits : (l : List ℕ) → All IsDigit l → trim_start l ≡ l
unfolding trim_start
trim_start-digits [] a = refl
trim_start-digits (c ∷ l) (d, a) = rw (visible_of_digit c d)

kept :
    (c : ℕ) (l : List ℕ)
    → 0 < length l
    → (if is_whitespace c && is_nil l then [] else c ∷ l) ≡ c ∷ l
kept c [] h = absurd (omega (arith, h))
kept c (d ∷ l) h = elim (Bool-cases (is_whitespace c)) [ inl p ↦ rw p | inr p ↦ rw p ]

-- Nothing is cut off in front of an end that is kept.
trim_end-append :
    (xs ys : List ℕ) → trim_end ys ≡ ys → 0 < length ys → trim_end (xs ++ ys) ≡ xs ++ ys
unfolding trim_end
trim_end-append [] ys p h = p
trim_end-append (c ∷ xs) ys p h =
    let filled : 0 < length (xs ++ ys) = omega (arith, length-append xs ys, h) in
    rw (trim_end-append xs ys p h) (kept c (xs ++ ys) filled)

-- A printed number stays when it is trimmed, behind any text.
trim_end-print : (xs : List ℕ) (n : ℕ) → trim_end (xs ++ print n) ≡ xs ++ print n
trim_end-print xs n =
    trim_end-append xs (print n) (trim_end-digits (print n) (print-IsDigit n)) (length-print n)

pub trim-print : (n : ℕ) → trim (print n) ≡ print n
unfolding trim
trim-print n = rw (trim_end-print [] n) (trim_start-digits (print n) (print-IsDigit n))

trim-number : (n : ℕ) → trim (32 ∷ print n) ≡ print n
unfolding trim trim_start
trim-number n = rw (trim_end-print (32 ∷ []) n) (trim_start-digits (print n) (print-IsDigit n))

trim-header : (n : ℕ) → trim (header n) ≡ header n
unfolding trim trim_start header
trim-header n = rw (trim_end-print (content_length_key ++ 32 ∷ []) n)

length_of_line-header : (n : ℕ) → n < usize_bound → length_of_line (header n) ≡ some n
unfolding length_of_line header
length_of_line-header n b =
    let stripped : strip_prefix (header n) content_length_key ≡ some (32 ∷ print n) =
      strip_prefix-append content_length_key (32 ∷ print n) in
    rw (trim-header n, stripped, trim-number n) (parse-print n b)

-- The decoder reads from the encoder's header the number that was printed.
pub found_length-header :
    {E : Type 0} (n : ℕ)
    → n < usize_bound
    → ◌≡◌ {A = Result (DecodeError E) ℕ} (found_length (from_utf8 (header n))) (ok n)
unfolding header find_length
found_length-header n b =
    let one : lines (header n) ≡ header n ∷ [] =
      lines-plain 67 (drop 1 (header n)) (header-IsPlain n) in
    rw (from_utf8-plain (header n) (header-IsPlain n), one, length_of_line-header n b)
