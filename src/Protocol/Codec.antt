-- ===== src/Protocol/Codec.antt =====
-- crates/dshare-protocol/src/codec.rs: a frame is a u32 length, big endian, and that many bytes of
-- bincode. A buffer is the list of its bytes, so `reserve`, which only allocates, has no counterpart.
pub mod Frame
pub mod Stream
pub mod Transfer
pub mod Refusals
pub mod UnitTests
use dshare.Base.{
  ℕ, ◌+◌, ◌*◌, ◌/◌, ◌%◌, ◌^◌, List, [], ◌∷◌, ◌++◌, Option, none, some, ltb, if◌then◌else◌, length,
  take, drop, Result, ok, err, ◌≡◌,
}
use dshare.Protocol.{Bytes, Message, ProtocolError, encode_error, frame_too_large}

-- The bincode crate: `E` is its ErrorKind.
pub record Bincode (E : Type 0) : Type 0 where
  pub serialize : Message → Result Bytes E
  pub deserialize : Bytes → Result Message E

-- What bincode documents of the two: a serialized value deserializes to itself.
abbrev pub IsFaithful : {E : Type 0} → Bincode E → Type 0
IsFaithful b =
    (m : Message) (payload : Bytes) → b.serialize m ≡ ok payload → b.deserialize payload ≡ ok m

abbrev pub max_frame_bytes : ℕ
max_frame_bytes = 16 * 1024 * 1024

-- `u32::from_be_bytes(src[..4])`, and the four bytes that `put_u32` appends.
unfoldable pub from_be_bytes : Bytes → ℕ
from_be_bytes (a ∷ b ∷ c ∷ d ∷ _) = a * 2 ^ 24 + b * 2 ^ 16 + c * 2 ^ 8 + d
from_be_bytes _ = 0

unfoldable pub u32_bytes : ℕ → Bytes
u32_bytes n = (n / 2 ^ 24 % 256) ∷ (n / 2 ^ 16 % 256) ∷ (n / 2 ^ 8 % 256) ∷ (n % 256) ∷ []

module _ {E : Type 0} (bincode : Bincode E) where
  -- The end of `decode`: a payload that does not deserialize has been taken off the buffer.
  unfoldable pub deserialized : Bytes → Result (Option Message) (ProtocolError E)
  deserialized payload = elim (bincode.deserialize payload) [
    | ok msg ↦ ok (some msg)
    | err e ↦ err (encode_error e)
  ]

  -- The result, and the buffer that the call leaves behind.
  unfoldable pub decode : Bytes → Result (Option Message) (ProtocolError E) × Bytes
  decode src =
      let len = from_be_bytes src in
      if ltb (length src) 4
      then (ok none, src)
      else if ltb max_frame_bytes len
      then (err (frame_too_large len), src)
      else if ltb (length src) (4 + len)
      then (ok none, src)
      else (deserialized (take len (drop 4 src)), drop len (drop 4 src))

  -- The result, and the buffer that the call leaves behind.
  unfoldable pub encode : Message → Bytes → Result (Unit {0}) (ProtocolError E) × Bytes
  encode item dst = elim (bincode.serialize item) [
    | err e ↦ (err (encode_error e), dst)
    | ok payload ↦
        if ltb max_frame_bytes (length payload)
        then (err (frame_too_large (length payload)), dst)
        else (ok tt, dst ++ (u32_bytes (length payload % 2 ^ 32) ++ payload))
  ]
