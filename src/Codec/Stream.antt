-- ===== src/Codec/Stream.antt =====
-- The codec of crates/dap-codec/src/lib.rs on a stream of frames, and what it leaves in the buffer.
use teledap.Prelude.{
  ℕ, ◌+◌, ◌≤◌, ◌<◌, ◌≡◌, ◌≢◌, refl, sym, ap, ◌∙◌, true, false, Option, none, some, List, [], ◌∷◌,
  ◌++◌, append_assoc, append-nil, Bool, ltb, if◌then◌else◌, length, take, drop, All, Result, ok,
  err,
}
use teledap.Codec.{
  DecodeError, terminator, frame, found_length, consume, decode_body, decode_header, decode,
  find_subsequence, encode, framed,
}
use DecodeError.{header_too_long, frame_too_large}
use teledap.Codec.Text.{from_utf8}
use teledap.Codec.Decimal.{usize_bound}
use teledap.Codec.RoundTrip.{decode-frame}

-- A result that brings no message leaves the buffer `src`.
abbrev Keeps : {E M : Type 0} → List ℕ → List ℕ × Result (DecodeError E) (Option M) → Type 0
Keeps {M} src p = ((m : M) → p.1 ≢ ok (some m)) → p.0 ≡ src

module _ {E M : Type 0} (from_slice : List ℕ → Result E M) (max_frame_size : ℕ) where
  if_Keeps :
      (b : Bool) (src : List ℕ) (x y : List ℕ × Result (DecodeError E) (Option M))
      → Keeps src x
      → Keeps src y
      → Keeps src (if b then x else y)
  if_Keeps true src x y k l = k
  if_Keeps false src x y k l = l

  consume-Keeps : (src : List ℕ) (total : ℕ) (r : Result E M) → Keeps src (consume src total r)
  consume-Keeps src total (err e) h = refl
  consume-Keeps src total (ok m) h = absurd (h m refl)

  decode_body-Keeps :
      (src : List ℕ) (start : ℕ) (r : Result (DecodeError E) ℕ)
      → Keeps src (decode_body from_slice max_frame_size src start r)
  decode_body-Keeps src start (err e) = λ h. refl
  decode_body-Keeps src start (ok n) =
      let rest = consume src (start + n) (from_slice (take n (drop start src))) in
      let short = ltb (length src) (start + n) in
      if_Keeps (ltb max_frame_size n) src (src, err (frame_too_large n))
        (if short then (src, ok none) else rest) (λ _. refl)
        (if_Keeps short src (src, ok none) rest (λ _. refl)
          (consume-Keeps src (start + n) (from_slice (take n (drop start src)))))

  decode_header-Keeps :
      (src : List ℕ) (o : Option ℕ) → Keeps src (decode_header from_slice max_frame_size src o)
  decode_header-Keeps src none =
      if_Keeps (ltb 4096 (length src)) src (src, err header_too_long) (src, ok none) (λ _. refl)
        (λ _. refl)
  decode_header-Keeps src (some i) =
      decode_body-Keeps src (i + 4) (found_length (from_utf8 (take i src)))

  -- Where the decoder returns no message, be it for want of bytes or by an error, it leaves the buffer
  -- as it is.
  pub decode_keeps :
      (src : List ℕ)
      → ((m : M) → (decode from_slice max_frame_size src).1 ≢ ok (some m))
      → (decode from_slice max_frame_size src).0 ≡ src
  unfolding decode
  decode_keeps src h = decode_header-Keeps src (find_subsequence src terminator) h

-- What repeated decoding makes of a buffer: messages, and the bytes that are left.
pub data Decodes {E M : Type 0} (from_slice : List ℕ → Result E M) (max_frame_size : ℕ)
    : List ℕ → List M → List ℕ → Type 0 where
  stop : {src : List ℕ} → Decodes from_slice max_frame_size src [] src
  next :
      {src rest left : List ℕ} {m : M} {ms : List M}
      → decode from_slice max_frame_size src ≡ (rest, ok (some m))
      → Decodes from_slice max_frame_size rest ms left
      → Decodes from_slice max_frame_size src (m ∷ ms) left

module _ {E M : Type 0} (to_vec : M → Result E (List ℕ)) where
  unfoldable pub encode_all : List M → List ℕ → List ℕ
  encode_all [] dst = dst
  encode_all (m ∷ ms) dst = encode_all ms (encode to_vec m dst).0

  framed-append : (dst : List ℕ) (r : Result E (List ℕ)) → (framed dst r).0 ≡ dst ++ (framed [] r).0
  framed-append dst (err e) = sym (append-nil dst)
  framed-append dst (ok body) = refl

  encode_all-append : (ms : List M) (dst : List ℕ) → encode_all ms dst ≡ dst ++ encode_all ms []
  unfolding encode_all encode
  encode_all-append [] dst = sym (append-nil dst)
  encode_all-append (m ∷ ms) dst =
      let one = (framed [] (to_vec m)).0 in
      ap (λ d. encode_all ms d) (framed-append dst (to_vec m))
      ∙ encode_all-append ms (dst ++ one)
      ∙ append_assoc dst one (encode_all ms [])
      ∙ ap (λ d. dst ++ d) (sym (encode_all-append ms one))

  encode_all_last_on :
      (ms : List M) (m : M) (dst : List ℕ)
      → encode_all (ms ++ m ∷ []) dst ≡ (encode to_vec m (encode_all ms dst)).0
  unfolding encode_all
  encode_all_last_on [] m dst = refl
  encode_all_last_on (x ∷ ms) m dst = encode_all_last_on ms m (encode to_vec x dst).0

  pub encode_all_last :
      (ms : List M) (m : M) → encode_all (ms ++ m ∷ []) [] ≡ (encode to_vec m (encode_all ms [])).0
  encode_all_last ms m = encode_all_last_on ms m []

-- A message that is written as JSON of at most the limit and read back from it.
abbrev pub Fits : {E M : Type 0} → (M → Result E (List ℕ)) → (List ℕ → Result E M) → ℕ → M → Type 0
Fits to_vec from_slice max_frame_size m =
    (body : List ℕ) × (to_vec m ≡ ok body)
    × (length body ≤ max_frame_size)
    × (from_slice body ≡ ok m)

-- Messages that are encoded into one buffer, with any bytes behind them, are decoded one after the
-- other, in their order, and the bytes are left, if their JSON keeps the decoder's size limit, which is
-- below 2 ^ 64, and is read back to them.
pub decodes-encode_all :
    {E M : Type 0} (to_vec : M → Result E (List ℕ)) (from_slice : List ℕ → Result E M)
    (max_frame_size : ℕ) (ms : List M) (left : List ℕ)
    → max_frame_size < usize_bound
    → All (Fits to_vec from_slice max_frame_size) ms
    → Decodes from_slice max_frame_size (encode_all to_vec ms [] ++ left) ms left
unfolding encode_all encode
decodes-encode_all to_vec from_slice max_frame_size [] left b a = stop
decodes-encode_all to_vec from_slice max_frame_size (m ∷ ms) left b ((body, p, l, q), a) =
    let first : encode_all to_vec ms (framed [] (to_vec m)).0 ++ left
        ≡ frame body ++ (encode_all to_vec ms [] ++ left) =
      rw p (
        ap (λ d. d ++ left) (encode_all-append to_vec ms (frame body))
        ∙ append_assoc (frame body) (encode_all to_vec ms []) left) in
    next
      (ap (λ s. decode from_slice max_frame_size s) first
        ∙ decode-frame from_slice max_frame_size body (encode_all to_vec ms [] ++ left) m l b q)
      (decodes-encode_all to_vec from_slice max_frame_size ms left b a)
