-- ===== src/Codec.antt =====
-- crates/dap-codec/src/lib.rs: the framing of messages on the wire. Bytes and characters are numbers.
-- The JSON library, `serde_json::to_vec` and `serde_json::from_slice`, is an argument.
pub mod Text
pub mod Decimal
pub mod Header
pub mod RoundTrip
pub mod Stream
use mathlib.Core.Option.{map}
use teledap.Prelude.{
  ℕ, zero, suc, ◌+◌, String, Bool, true, false, ◌&&◌, Option, none, some, List, [], ◌∷◌, ◌++◌,
  arith, PartialEq, ◌==◌, nat_eq, ltb, leb, if◌then◌else◌, length, take, drop, Result, ok, err,
}
use teledap.Dap.Json.{and_then}
use teledap.Breakpoints.{or}
use teledap.Codec.Text.{from_utf8, lines, trim, strip_prefix}
use teledap.Codec.Decimal.{parse, print}

-- The errors of kind `InvalidData`, by their place in the code; `E` is the JSON library's error.
pub data DecodeError (E : Type 0) : Type 0 where
  header_too_long header_not_utf8 missing_content_length : DecodeError E
  frame_too_large : ℕ → DecodeError E
  bad_json : E → DecodeError E

-- "\r\n\r\n"
abbrev pub terminator : List ℕ
terminator = 13 ∷ 10 ∷ 13 ∷ 10 ∷ []

-- "Content-Length:"
abbrev pub content_length_key : List ℕ
content_length_key =
    67 ∷ 111 ∷ 110 ∷ 116 ∷ 101 ∷ 110 ∷ 116 ∷ 45 ∷ 76 ∷ 101 ∷ 110 ∷ 103 ∷ 116 ∷ 104 ∷ 58 ∷ []

unfoldable pub starts_with : List ℕ → List ℕ → Bool
starts_with s [] = true
starts_with [] (n ∷ needle) = false
starts_with (b ∷ s) (n ∷ needle) = b == n && starts_with s needle

-- The first window that is the needle, which is not empty.
unfoldable pub find_subsequence : List ℕ → List ℕ → Option ℕ
find_subsequence [] needle = none
find_subsequence (b ∷ s) needle =
    let rest = find_subsequence s needle in
    if starts_with (b ∷ s) needle then some 0 else map (λ i. suc i) rest

abbrev pub or_missing : {E : Type 0} → Option ℕ → Result (DecodeError E) ℕ
or_missing none = err missing_content_length
or_missing (some n) = ok n

-- The closure of `find_map`.
unfoldable pub length_of_line : List ℕ → Option ℕ
length_of_line line = and_then (strip_prefix (trim line) content_length_key) (λ v. parse (trim v))

unfoldable pub find_length : List (List ℕ) → Option ℕ
find_length [] = none
find_length (l ∷ ls) = or (length_of_line l) (find_length ls)

-- "Content-Length: <n>"
unfoldable pub header : ℕ → List ℕ
header n = content_length_key ++ 32 ∷ print n

-- A frame on the wire.
unfoldable pub frame : List ℕ → List ℕ
frame body = header (length body) ++ terminator ++ body

module _ {E : Type 0} where
  abbrev pub found_length : Option (List ℕ) → Result (DecodeError E) ℕ
  found_length none = err header_not_utf8
  found_length (some s) = or_missing (find_length (lines s))

  abbrev pub framed : List ℕ → Result E (List ℕ) → List ℕ × Result E (Unit {0})
  framed dst (err e) = (dst, err e)
  framed dst (ok body) = (dst ++ frame body, ok tt)

  abbrev pub buffer_of : List ℕ × Result E (Unit {0}) → Result E (List ℕ)
  buffer_of (buf, ok a) = ok buf
  buffer_of (buf, err e) = err e

module _ {E M : Type 0} where
  -- The step that takes the message out of the buffer, once its JSON is read.
  abbrev pub consume : List ℕ → ℕ → Result E M → List ℕ × Result (DecodeError E) (Option M)
  consume src total (err e) = (src, err (bad_json e))
  consume src total (ok m) = (drop total src, ok (some m))

  module _ (from_slice : List ℕ → Result E M) (max_frame_size : ℕ) where
    -- From the size limit on. `body_start + n` does not overflow while both are below 2 ^ 63.
    abbrev pub decode_body :
        List ℕ → ℕ → Result (DecodeError E) ℕ → List ℕ × Result (DecodeError E) (Option M)
    decode_body src body_start (err e) = (src, err e)
    decode_body src body_start (ok n) =
        if ltb max_frame_size n
        then (src, err (frame_too_large n))
        else if ltb (length src) (body_start + n)
        then (src, ok none)
        else consume src (body_start + n) (from_slice (take n (drop body_start src)))

    abbrev pub decode_header : List ℕ → Option ℕ → List ℕ × Result (DecodeError E) (Option M)
    decode_header src none =
        if ltb 4096 (length src) then (src, err header_too_long) else (src, ok none)
    decode_header src (some header_end) =
        decode_body src (header_end + 4) (found_length (from_utf8 (take header_end src)))

    -- `Ok(None)` asks for more bytes.
    unfoldable pub decode : List ℕ → List ℕ × Result (DecodeError E) (Option M)
    decode src = decode_header src (find_subsequence src terminator)

  -- `encode_json`, behind both `encode`s.
  unfoldable pub encode : (M → Result E (List ℕ)) → M → List ℕ → List ℕ × Result E (Unit {0})
  encode to_vec item dst = framed dst (to_vec item)

  unfoldable pub encode_to_bytes : (M → Result E (List ℕ)) → M → Result E (List ℕ)
  unfolding encode
  encode_to_bytes to_vec message = buffer_of (encode to_vec message [])
