-- ===== src/Protocol/Codec/Frame.antt =====
-- One frame: what `encode` appends, and what `decode` makes of it.
use dshare.Base.{
  ℕ, ◌+◌, ◌^◌, ◌≤◌, ◌<◌, ◌≡◌, ◌≢◌, refl, [], ◌∷◌, ◌++◌, none, some, arith, length, take, drop,
  length-append, length-drop, take-append, drop-append, take-append_le, drop-append_le, ok,
  append_assoc,
}
use dshare.Protocol.{Bytes, Message}
use dshare.Protocol.Codec.{
  Bincode, max_frame_bytes, from_be_bytes, u32_bytes, deserialized, decode, encode,
}

from_be_bytes-u32_bytes :
    (n : ℕ) (rest : Bytes) → n < 2 ^ 32 → from_be_bytes (u32_bytes n ++ rest) ≡ n
unfolding from_be_bytes u32_bytes
from_be_bytes-u32_bytes n rest h = omega arith

pub from_be_bytes-append :
    (src more : Bytes) → 4 ≤ length src → from_be_bytes (src ++ more) ≡ from_be_bytes src
unfolding from_be_bytes
from_be_bytes-append (a ∷ b ∷ c ∷ d ∷ src) more h = refl
from_be_bytes-append [] more h = absurd (omega arith)
from_be_bytes-append (a ∷ []) more h = absurd (omega arith)
from_be_bytes-append (a ∷ b ∷ []) more h = absurd (omega arith)
from_be_bytes-append (a ∷ b ∷ c ∷ []) more h = absurd (omega arith)

pub header_append :
    (n : ℕ) (rest : Bytes)
    → (length (u32_bytes n ++ rest) ≡ 4 + length rest) × (drop 4 (u32_bytes n ++ rest) ≡ rest)
unfolding u32_bytes
header_append n rest = (omega arith, refl)

-- The bytes of a frame around a payload.
abbrev pub frame : Bytes → Bytes
frame payload = u32_bytes (length payload) ++ payload

module _ {E : Type 0} (bincode : Bincode E) where
  -- A payload within the cap is appended behind what the buffer holds, with its length in front.
  pub encode-frame :
      (item : Message) (payload dst : Bytes)
      → bincode.serialize item ≡ ok payload
      → length payload ≤ max_frame_bytes
      → encode bincode item dst ≡ (ok tt, dst ++ frame payload)
  unfolding encode
  encode-frame item payload dst s h = ground arith

  pub decode-frame :
      (payload rest : Bytes)
      → length payload ≤ max_frame_bytes
      → decode bincode (frame payload ++ rest) ≡ (deserialized bincode payload, rest)
  unfolding decode
  decode-frame payload rest h = ground (
    arith,
    from_be_bytes-u32_bytes (length payload) (payload ++ rest),
    append_assoc (u32_bytes (length payload)) payload rest,
    header_append (length payload) (payload ++ rest),
    length-append payload rest,
    take-append payload rest,
    drop-append payload rest,
  )

  -- Once `decode` has an answer, bytes that arrive behind its input join the rest of the buffer.
  pub decode-append :
      (src more : Bytes)
      → (decode bincode src).0 ≢ ok none
      → decode bincode (src ++ more) ≡ ((decode bincode src).0, (decode bincode src).1 ++ more)
  unfolding decode
  decode-append src more h = ground (
    arith,
    length-append src more,
    from_be_bytes-append src more,
    drop-append_le 4 src more,
    length-drop 4 src,
    take-append_le (from_be_bytes src) (drop 4 src) more,
    drop-append_le (from_be_bytes src) (drop 4 src) more,
  )

  pub deserialized-ne-none : (payload : Bytes) → deserialized bincode payload ≢ ok none
  unfolding deserialized
  deserialized-ne-none payload h = ground arith

  pub decode-none : (src : Bytes) → (decode bincode src).0 ≡ ok none → (decode bincode src).1 ≡ src
  unfolding decode
  decode-none src h = ground (arith, deserialized-ne-none (take (from_be_bytes src) (drop 4 src)))

  pub decode_shrinks :
      (src : Bytes) {m : Message}
      → (decode bincode src).0 ≡ ok (some m)
      → 4 + length (decode bincode src).1 ≤ length src
  unfolding decode
  decode_shrinks src h =
      ground (arith, length-drop 4 src, length-drop (from_be_bytes src) (drop 4 src))
