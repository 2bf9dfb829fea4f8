-- ===== src/Codec/RoundTrip.antt =====
-- The decoder of crates/dap-codec/src/lib.rs on the frames of the encoder: whole, in parts, too
-- large, one behind the other.
use teledap.Prelude.{
  ℕ, ◌+◌, ◌≤◌, ◌<◌, ◌≡◌, sym, ap, ◌∙◌, true, false, none, some, List, ◌++◌, append_assoc, arith,
  ltb, length, length-append, take, drop, take-append, drop-append, length-take, Result, ok, err,
  Bool-cases, inl, inr, ltb→lt, ltb→ge, take-append_of_le, take-append_of_ge, ◌-◌,
}
use teledap.Codec.{DecodeError, terminator, header, frame, decode_body, decode}
use DecodeError.{frame_too_large}
use teledap.Codec.Decimal.{usize_bound, length-print_le}
use teledap.Codec.Header.{find_header, find_in_part, header-IsPlain, found_length-header}

drop_header : (h rest : List ℕ) → drop (length h + 4) (h ++ terminator ++ rest) ≡ rest
drop_header h rest =
    let n : length h + 4 ≡ length (h ++ terminator) = omega (arith, length-append h terminator) in
    rw n (drop-append (h ++ terminator) rest)

take_header : (h rest : List ℕ) → take (length h) (h ++ terminator ++ rest) ≡ h
take_header h rest =
    ap (λ l. take (length h) l) (append_assoc h terminator rest)
    ∙ take-append h (terminator ++ rest)

length-header_le : (n : ℕ) → n < usize_bound → length (header n) ≤ 36
unfolding header
length-header_le n h = omega (arith, length-print_le n h)

module _ {E M : Type 0} (from_slice : List ℕ → Result E M) (max_frame_size : ℕ) where
  -- Behind the encoder's header the decoder goes on with the number that was printed.
  decode-header :
      (n : ℕ) (rest : List ℕ)
      → n < usize_bound
      → decode from_slice max_frame_size (header n ++ terminator ++ rest)
        ≡ decode_body from_slice max_frame_size
            (header n ++ terminator ++ rest)
            (length (header n) + 4)
            (ok n)
  unfolding decode
  decode-header n rest b =
      rw (find_header n rest, take_header (header n) rest, found_length-header {E = E} n b)

  -- A frame in front of any bytes is decoded to its message and taken out of the buffer, and nothing
  -- else is, if its body is JSON of a message and keeps the size limit.
  pub decode-frame :
      (body rest : List ℕ) (message : M)
      → length body ≤ max_frame_size
      → max_frame_size < usize_bound
      → from_slice body ≡ ok message
      → decode from_slice max_frame_size (frame body ++ rest) ≡ (rest, ok (some message))
  unfolding frame
  decode-frame body rest message h b p =
      let n = length body in
      let start = length (header n ++ terminator) in
      let whole = header n ++ terminator ++ (body ++ rest) in
      let small : ltb max_frame_size n ≡ false = ground (arith, h) in
      let l = length-append (header n) terminator in
      let k = length-append (header n ++ terminator) (body ++ rest) in
      let j = length-append body rest in
      let there : ltb (length whole) (length (header n) + 4 + n) ≡ false =
        ground (arith, l, k, j) in
      let total : length (header n) + 4 + n ≡ length (header n ++ terminator ++ body) =
        omega (arith, l, length-append (header n ++ terminator) body) in
      let order = append_assoc (header n ++ terminator) body rest in
      let left : drop (length (header n) + 4 + n) whole ≡ rest =
        rw (total, sym order) (drop-append (header n ++ terminator ++ body) rest) in
      let cut : take n (drop (length (header n) + 4) whole) ≡ body =
        rw (drop_header (header n) (body ++ rest)) (take-append body rest) in
      rw order
        (decode-header n (body ++ rest) (omega (arith, h, b)) ∙ rw (small, there, cut, p, left))

  -- A frame whose length is above the limit is refused as soon as its header is there, whatever
  -- follows it.
  pub decode-oversized :
      (n : ℕ) (rest : List ℕ)
      → max_frame_size < n
      → n < usize_bound
      → decode from_slice max_frame_size (header n ++ terminator ++ rest)
        ≡ (header n ++ terminator ++ rest, err (frame_too_large n))
  decode-oversized n rest h b =
      let over : ltb max_frame_size n ≡ true = ground (arith, h) in decode-header n rest b ∙ rw over

  -- A part of a frame, from its front, asks for more bytes and stays in the buffer.
  pub decode-take-frame :
      (body : List ℕ) (k : ℕ)
      → length body ≤ max_frame_size
      → max_frame_size < usize_bound
      → k < length (frame body)
      → decode from_slice max_frame_size (take k (frame body)) ≡ (take k (frame body), ok none)
  unfolding frame decode
  decode-take-frame body k h b q =
      let n = length body in
      let whole = header n ++ terminator in
      let l = length-append (header n) terminator in
      elim (Bool-cases (ltb k (length whole))) [
        | inl p ↦
            let e = take-append_of_le k whole body (omega (arith, ltb→lt k (length whole) p)) in
            let none_yet =
              find_in_part (header n) k (header-IsPlain n)
                (omega (arith, l, ltb→lt k (length whole) p)) in
            let short : ltb 4096 (length (take k whole)) ≡ false =
              ground (arith, length-take k whole, l, length-header_le n (omega (arith, h, b))) in
            rw (e, none_yet, short)
        | inr p ↦
            let ge = ltb→ge k (length whole) p in
            let e = take-append_of_ge k whole body ge in
            let rest = take (k - length whole) body in
            let small : ltb max_frame_size n ≡ false = ground (arith, h) in
            let missing : ltb (length (whole ++ rest)) (length (header n) + 4 + n) ≡ true = ground (
              arith,
              length-append whole rest,
              length-take (k - length whole) body,
              l,
              q,
              length-append whole body,
            ) in
            rw e (decode-header n rest (omega (arith, h, b)) ∙ rw (small, missing))
      ]
