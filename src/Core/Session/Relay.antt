-- ===== src/Core/Session/Relay.antt =====
-- Two sessions at the ends of a connection.
use mathlib.Core.List.{flatten}
use dshare.Base.{◌≡◌, refl, ap, ◌∙◌, true, List, [], ◌∷◌, map, ok}
use dshare.Protocol.{Bytes, Message}
use dshare.Protocol.Codec.{Bincode, IsFaithful}
use dshare.Protocol.Codec.Stream.{read_chunks}
use dshare.Protocol.Codec.Transfer.{encode_all, read_chunks-encode_all}
use dshare.Core.Session.{read_loop, write_loop}

module _ (E : Type 0) where
  -- While no send fails the writer passes everything on; while somebody listens so does the reader.
  write_loop-map : (msgs : List Message) → write_loop {E = E} (map (λ m. (m, ok tt)) msgs) ≡ msgs
  unfolding write_loop
  write_loop-map [] = refl
  write_loop-map (m ∷ msgs) = ap (λ (t : List Message). m ∷ t) (write_loop-map msgs)

  read_loop-map : (msgs : List Message) → read_loop {E = E} (map (λ m. (ok m, true)) msgs) ≡ msgs
  unfolding read_loop
  read_loop-map [] = refl
  read_loop-map (m ∷ msgs) = ap (λ (t : List Message). m ∷ t) (read_loop-map msgs)

module _ {E : Type 0} (bincode : Bincode E) where
  -- What is put into one session's `outbound` comes out of the other's `inbound`, all of it and in
  -- order, however the connection cuts the bytes, if no send fails and both ends stay.
  pub write_loop-read_loop :
      (faithful : IsFaithful bincode) (msgs : List Message) (chunks : List Bytes)
      → let written = write_loop {E = E} (map (λ m. (m, ok tt)) msgs) in
        (encode_all bincode written []).0 ≡ ok tt
        → flatten chunks ≡ (encode_all bincode written []).1
        → read_loop {E = E} (map (λ m. (ok m, true)) (read_chunks bincode [] chunks).messages)
          ≡ msgs
  write_loop-read_loop faithful msgs chunks h cut =
      let written = write_loop {E = E} (map (λ m. (m, ok tt)) msgs) in
      let (messages, failure) = read_chunks-encode_all bincode faithful written chunks h cut in
      rw messages (read_loop-map E written ∙ write_loop-map E msgs)
