-- ===== src/Tests/Wire.antt =====
-- Frames and streams.
use mathlib.Core.List.{flatten}
use dshare.Base.{◌≡◌, ◌↔◌, refl, none, List, [], ◌∷◌, ◌++◌, ok}
use dshare.Protocol.{Bytes, Message, ping, pong}
use dshare.Protocol.Codec.{from_be_bytes, u32_bytes, deserialized, decode, encode}
use dshare.Protocol.Codec.Stream.{drain_all, read_chunks, read_chunks-flatten}
use dshare.Protocol.Codec.Transfer.{encode_all, read_chunks-encode_all_prefix}
use dshare.Tests.Codec.{some_bincode, some_bincode-IsFaithful}

abbrev two : List Message
two = ping 1 ∷ pong 1 ∷ []

abbrev wire : Bytes
wire = 0 ∷ 0 ∷ 0 ∷ 2 ∷ 1 ∷ 1 ∷ 0 ∷ 0 ∷ 0 ∷ 2 ∷ 2 ∷ 1 ∷ []

two_encoded : encode_all some_bincode two [] ≡ (ok tt, wire)
unfolding encode_all encode u32_bytes
two_encoded = refl

abbrev cut_chunks : List Bytes
cut_chunks = (0 ∷ 0 ∷ []) ∷ (0 ∷ 2 ∷ 1 ∷ 1 ∷ 0 ∷ 0 ∷ 0 ∷ []) ∷ []

cut_is_one_message : (read_chunks some_bincode [] cut_chunks).messages ≡ ping 1 ∷ []
unfolding read_chunks drain_all decode from_be_bytes deserialized
cut_is_one_message = refl

abbrev missing : Bytes
missing = 2 ∷ 2 ∷ 1 ∷ []

read_chunks-encode_all_prefix_example :
    ((read_chunks some_bincode [] cut_chunks).failure ≡ none)
    × ((later : List Message) × (two ≡ (read_chunks some_bincode [] cut_chunks).messages ++ later)
        × ((later ≡ []) ↔ (missing ≡ [])))
unfolding encode_all encode u32_bytes flatten
read_chunks-encode_all_prefix_example =
    read_chunks-encode_all_prefix some_bincode some_bincode-IsFaithful two cut_chunks missing refl
      refl

read_chunks-flatten_example :
    ((read_chunks some_bincode [] cut_chunks).messages
      ≡ (drain_all some_bincode ([] ++ flatten cut_chunks)).messages)
    × ((read_chunks some_bincode [] cut_chunks).failure
        ≡ (drain_all some_bincode ([] ++ flatten cut_chunks)).failure)
unfolding decode
read_chunks-flatten_example = read_chunks-flatten some_bincode [] cut_chunks refl
