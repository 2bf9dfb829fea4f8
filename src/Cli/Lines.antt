-- ===== src/Cli/Lines.antt =====
-- What src/cli.rs reads from line numbers that are written with commas between them.
use teledap.Prelude.{
  ℕ, ◌<◌, ◌≡◌, refl, ap, ◌∙◌, false, List, [], ◌∷◌, ◌++◌, arith, ◌==◌, nat_eq, length,
  length-append, All,
}
use teledap.Codec.Decimal.{print, IsDigit, print-IsDigit, length-print, parse-print, usize_bound}
use teledap.Codec.Header.{trim-print}
use teledap.Cli.{split_commas, numbers, bp_lines}

abbrev pub written : List ℕ → List ℕ
written [] = []
written (n ∷ []) = print n
written (n ∷ m ∷ ns) = print n ++ 44 ∷ written (m ∷ ns)

split_commas-digits : (l : List ℕ) → All IsDigit l → split_commas l ≡ l ∷ []
unfolding split_commas
split_commas-digits [] a = refl
split_commas-digits (c ∷ l) (d, a) =
    let p : (c == 44) ≡ false = ground (arith, d.0) in rw (split_commas-digits l a, p)

split_commas-append :
    (l s : List ℕ) → All IsDigit l → split_commas (l ++ 44 ∷ s) ≡ l ∷ split_commas s
unfolding split_commas
split_commas-append [] s a = refl
split_commas-append (c ∷ l) s (d, a) =
    let p : (c == 44) ≡ false = ground (arith, d.0) in rw (split_commas-append l s a, p)

numbers-print :
    (n : ℕ) (parts : List (List ℕ))
    → n < usize_bound
    → numbers (print n ∷ parts) ≡ n ∷ numbers parts
unfolding numbers
numbers-print n parts b = rw (trim-print n, parse-print n b)

numbers-written :
    (n : ℕ) (ns : List ℕ)
    → All (λ k. k < usize_bound) (n ∷ ns)
    → numbers (split_commas (written (n ∷ ns))) ≡ n ∷ ns
numbers-written n [] (b, bs) =
    rw (split_commas-digits (print n) (print-IsDigit n))
      (numbers-print n [] b ∙ (unfold numbers in refl))
numbers-written n (m ∷ ns) (b, bs) =
    rw (split_commas-append (print n) (written (m ∷ ns)) (print-IsDigit n)) (
      numbers-print n (split_commas (written (m ∷ ns))) b
      ∙ ap (λ l. n ∷ l) (numbers-written m ns bs))

bp_lines_filled : (l : List ℕ) → 0 < length l → bp_lines l ≡ numbers (split_commas l)
unfolding bp_lines
bp_lines_filled [] h = absurd (omega (arith, h))
bp_lines_filled (c ∷ s) h = refl

length-written : (n : ℕ) (ns : List ℕ) → 0 < length (written (n ∷ ns))
length-written n [] = length-print n
length-written n (m ∷ ns) = omega (arith, length-append (print n) (44 ∷ written (m ∷ ns)))

-- Line numbers of 64 bits, at least one, that are written in decimals with commas between them are the
-- lines of the breakpoints, in their order.
pub bp_lines-written :
    (n : ℕ) (ns : List ℕ)
    → All (λ k. k < usize_bound) (n ∷ ns)
    → bp_lines (written (n ∷ ns)) ≡ n ∷ ns
bp_lines-written n ns b =
    bp_lines_filled (written (n ∷ ns)) (length-written n ns) ∙ numbers-written n ns b
