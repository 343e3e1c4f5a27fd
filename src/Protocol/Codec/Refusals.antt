-- ===== src/Protocol/Codec/Refusals.antt =====
-- Inputs that `decode` does not turn into a message, and messages that `encode` does not write.
use dshare.Base.{
  ℕ, ◌+◌, ◌^◌, ◌≤◌, ◌<◌, ◌≡◌, ◌≢◌, ◌↔◌, [], ◌∷◌, ◌++◌, Option, none, arith, length, take, drop,
  length-append, Result, ok, err, ◌⊎◌, inl, inr, Result-cases, Bool-cases, ltb, ap, sym, ◌∙◌,
  append-nil, ◌%◌,
}
use dshare.Protocol.{Bytes, Message, ProtocolError, encode_error, frame_too_large}
use dshare.Protocol.Codec.{Bincode, max_frame_bytes, from_be_bytes, u32_bytes, decode, encode}
use dshare.Protocol.Codec.Frame.{
  frame, decode-append, decode-frame, deserialized-ne-none, header_append, decode-none,
}
use dshare.Protocol.Codec.Stream.{decode_cases}

-- A buffer with less than a frame: the header is cut, or an admissible length is not yet there.
abbrev IsIncomplete : Bytes → Type 0
IsIncomplete src =
    (length src < 4)
    ⊎ ((from_be_bytes src ≤ max_frame_bytes) × (length src < 4 + from_be_bytes src))

module _ {E : Type 0} (bincode : Bincode E) where
  -- `decode` asks for more bytes exactly on a buffer with less than a frame.
  decode-waits_iff : (src : Bytes) → ((decode bincode src).0 ≡ ok none) ↔ IsIncomplete src
  unfolding decode
  decode-waits_iff src = (
    λ h. ground (arith, deserialized-ne-none bincode (take (from_be_bytes src) (drop 4 src))),
    λ h. ground arith,
  )

  -- A frame that has not arrived in full is left in the buffer as it is.
  pub decode-frame_prefix :
      (payload front back : Bytes) (x : ℕ)
      → length payload ≤ max_frame_bytes
      → frame payload ≡ front ++ (x ∷ back)
      → decode bincode front ≡ (ok none, front)
  decode-frame_prefix payload front back x h e = elim (decode_cases bincode front) [
    | inl (m, a) ↦ absurd (no_answer (λ q. cc))
    | inr (inl a) ↦ ground (arith, decode-none bincode front a)
    | inr (inr (y, a)) ↦ absurd (no_answer (λ q. cc))
  ]
    where
      no_answer : (decode bincode front).0 ≢ ok none → ⊥
      no_answer n = omega (
        arith,
        ap length (
            ap (λ (t : Result (Option Message) (ProtocolError E) × Bytes). t.1)
              (sym (decode-append bincode front (x ∷ back) n)
                ∙ ap (decode bincode) (sym e)
                ∙ rw append-nil at (decode-frame bincode payload [] h))),
        length-append (decode bincode front).1 (x ∷ back),
      )

  -- A failed `encode` leaves the buffer as it was; a successful one makes it longer by four
  -- bytes and at most the cap.
  encode_buffer :
      (item : Message) (dst : Bytes)
      → let (r, after) = encode bincode item dst in
        ((e : ProtocolError E) × (r ≡ err e) × (after ≡ dst))
        ⊎ ((r ≡ ok tt)
            × (length dst + 4 ≤ length after)
            × (length after ≤ length dst + 4 + max_frame_bytes))
  unfolding encode
  encode_buffer item dst = elim (Result-cases (bincode.serialize item)) [
    | inr (e, s) ↦ inl (encode_error e, ground arith, ground arith)
    | inl (payload, s) ↦ elim (Bool-cases (ltb max_frame_bytes (length payload))) [
      | inl big ↦ inl (frame_too_large (length payload), ground arith, ground arith)
      | inr fits ↦
          let (header, rest) = header_append (length payload % 2 ^ 32) payload in
          inr (
            ground
              (arith, length-append dst (u32_bytes (length payload % 2 ^ 32) ++ payload), header))
    ]
  ]
