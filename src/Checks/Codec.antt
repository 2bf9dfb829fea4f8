-- ===== src/Checks/Codec.antt =====
-- Tests of the codec and instances of its theorems. The JSON library is a function that takes the
-- bytes of a body, if there are any, for the message.
use teledap.Prelude.{
  ℕ, String, ◌≡◌, ◌≢◌, refl, ap, none, some, List, [], ◌∷◌, ◌++◌, arith, take, Result, ok, err,
}
use teledap.Codec.{
  DecodeError, terminator, header, frame, decode, find_subsequence, starts_with, find_length,
  length_of_line,
}
use DecodeError.{missing_content_length, bad_json}
use teledap.Codec.Text.{from_utf8, utf8_from, lines, trim, trim_start, trim_end, strip_prefix}
use teledap.Codec.Decimal.{parse, digits, print, print_on}
use teledap.Codec.RoundTrip.{decode-take-frame}
use teledap.Codec.Stream.{Decodes, Fits, encode_all, decodes-encode_all}

abbrev read : List ℕ → Result String (List ℕ)
read [] = err "EOF"
read (b ∷ body) = ok (b ∷ body)

abbrev write : List ℕ → Result String (List ℕ)
write m = ok m

-- "{}"
abbrev braces : List ℕ
braces = 123 ∷ 125 ∷ []

print_hundred : print 100 ≡ 49 ∷ 48 ∷ 48 ∷ []
unfolding print print_on
print_hundred = refl

parse_plus : parse (43 ∷ 55 ∷ []) ≡ some 7
unfolding parse digits
parse_plus = refl

parse_minus : parse (45 ∷ 55 ∷ []) ≡ none
unfolding parse digits
parse_minus = refl

-- "é" is read, an overlong form of "/" is not.
utf8_two : from_utf8 (195 ∷ 169 ∷ []) ≡ some (233 ∷ [])
unfolding from_utf8 utf8_from
utf8_two = refl

utf8_overlong : from_utf8 (192 ∷ 175 ∷ []) ≡ none
unfolding from_utf8 utf8_from
utf8_overlong = refl

lines_two : lines (65 ∷ 13 ∷ 10 ∷ 66 ∷ 10 ∷ []) ≡ (65 ∷ []) ∷ (66 ∷ []) ∷ []
unfolding lines
lines_two = refl

decode-braces : decode read 100 (frame braces ++ 67 ∷ []) ≡ (67 ∷ [], ok (some braces))
unfolding decode find_subsequence starts_with from_utf8 utf8_from find_length lines length_of_line
    strip_prefix trim trim_start trim_end frame header print print_on parse digits
decode-braces = refl

-- A header without its key is an error.
decode_no_length : decode read 100 (88 ∷ terminator) ≡ (88 ∷ terminator, err missing_content_length)
unfolding decode find_subsequence starts_with from_utf8 utf8_from find_length lines length_of_line
    strip_prefix trim trim_start trim_end
decode_no_length = refl

-- A body that cannot be read stays in the buffer, so that decoding again fails again.
decode_bad_json : decode read 100 (frame []) ≡ (frame [], err (bad_json "EOF"))
unfolding decode find_subsequence starts_with from_utf8 utf8_from find_length lines length_of_line
    strip_prefix trim trim_start trim_end frame header print print_on parse digits
decode_bad_json = refl

decode-take-frame_example :
    decode read 100 (take 9 (frame braces)) ≡ (take 9 (frame braces), ok none)
unfolding frame header
decode-take-frame_example =
    decode-take-frame read 100 braces 9 (omega arith) (omega arith) (omega arith)

no_message : (m : List ℕ) → (decode read 100 (frame [])).1 ≢ ok (some m)
no_message m h = cc (ap (λ p. p.1) decode_bad_json, h)

fits : Fits write read 100 braces
fits = (braces, refl, omega arith, refl)

decodes-encode_all_example :
    Decodes read 100
      (encode_all write (braces ∷ braces ∷ []) [] ++ 67 ∷ [])
      (braces ∷ braces ∷ [])
      (67 ∷ [])
decodes-encode_all_example =
    decodes-encode_all write read 100 (braces ∷ braces ∷ []) (67 ∷ []) (omega arith)
      (fits, (fits, tt))
