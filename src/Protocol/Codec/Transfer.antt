-- ===== src/Protocol/Codec/Transfer.antt =====
-- From the sender's messages to the receiver's: `encode` behind one another, the bytes cut into
-- chunks anywhere, `decode` until it asks for more.
use dshare.Base.{
  ◌≤◌, ◌≡◌, ◌↔◌, refl, sym, ap, ◌∙◌, List, [], ◌∷◌, ◌++◌, none, arith, length, append_assoc,
  append-nil, Option-cases, Result, ok, err, inl, inr,
}
use mathlib.Core.List.{flatten}
use dshare.Protocol.{Bytes, Message, ProtocolError}
use dshare.Protocol.Codec.{Bincode, IsFaithful, max_frame_bytes, deserialized, decode, encode}
use dshare.Protocol.Codec.Frame.{frame, encode-frame, decode-frame}
use dshare.Protocol.Codec.Stream.{
  Drained, decode_cases, drain_all_err, drain_all-rest, prepend, drain_all, read_chunks,
  drain_all-some, drain_all-none, drain_all-append, read_chunks-flatten,
}

module _ {E : Type 0} (bincode : Bincode E) where
  -- The writer: each message is encoded behind those before it, and the first error ends it.
  unfoldable pub encode_all : List Message → Bytes → Result (Unit {0}) (ProtocolError E) × Bytes
  encode_all [] dst = (ok tt, dst)
  encode_all (m ∷ ms) dst =
      let (r, dst') = encode bincode m dst in
      let more = encode_all ms dst' in elim r [ ok _ ↦ more | err e ↦ (err e, dst') ]

  -- A successful `encode` has appended the frame of a payload that is within the cap.
  pub encode-eq-ok :
      (m : Message) (dst : Bytes)
      → (encode bincode m dst).0 ≡ ok tt
      → (payload : Bytes) × (bincode.serialize m ≡ ok payload)
        × (length payload ≤ max_frame_bytes)
        × ((encode bincode m dst).1 ≡ dst ++ frame payload)
  encode-eq-ok m dst h = by_serialize (bincode.serialize m) refl
    where
      by_serialize :
          (r : Result Bytes E)
          → bincode.serialize m ≡ r
          → (payload : Bytes) × (bincode.serialize m ≡ ok payload)
            × (length payload ≤ max_frame_bytes)
            × ((encode bincode m dst).1 ≡ dst ++ frame payload)
      by_serialize (ok payload) s = (
        payload,
        s,
        fits,
        ap (λ (t : Result (Unit {0}) (ProtocolError E) × Bytes). t.1)
            (encode-frame bincode m payload dst s fits),
      )
        where
          fits : length payload ≤ max_frame_bytes
          fits = unfold encode in ground arith
      by_serialize (err e) s = absurd (unfold encode in ground arith)

  encode_all-cons_ok :
      (m : Message) (ms : List Message) (dst : Bytes)
      → (encode_all (m ∷ ms) dst).0 ≡ ok tt
      → (encode bincode m dst).0 ≡ ok tt
  unfolding encode_all
  encode_all-cons_ok m ms dst h = ground arith

  encode_all-cons :
      (m : Message) (ms : List Message) (dst : Bytes)
      → (encode bincode m dst).0 ≡ ok tt
      → encode_all (m ∷ ms) dst ≡ encode_all ms (encode bincode m dst).1
  unfolding encode_all
  encode_all-cons m ms dst h = rw (h, encode_all)

  module _ (faithful : IsFaithful bincode) where
    -- A frame in front of a buffer is read as its message, and the buffer stays.
    pub drain_all-frame :
        (m : Message) (payload rest : Bytes)
        → bincode.serialize m ≡ ok payload
        → length payload ≤ max_frame_bytes
        → drain_all bincode (frame payload ++ rest) ≡ prepend (m ∷ []) (drain_all bincode rest)
    unfolding deserialized
    drain_all-frame m payload rest s h =
        let one = decode-frame bincode payload rest h in
        let same = faithful m payload s in
        drain_all-some bincode (frame payload ++ rest) {m = m} (rw one (rw (same, deserialized)))
        ∙ rw one

    encode_all_wire :
        (ms : List Message) (dst : Bytes)
        → (encode_all ms dst).0 ≡ ok tt
        → (wire : Bytes) × ((encode_all ms dst).1 ≡ dst ++ wire)
          × ((rest : Bytes)
              → drain_all bincode (wire ++ rest) ≡ prepend ms (drain_all bincode rest))
    unfolding encode_all
    encode_all_wire [] dst h = ([], sym (append-nil dst), λ rest. refl)
    encode_all_wire (m ∷ ms) dst h =
        let first = encode_all-cons_ok m ms dst h in
        let (payload, s, fits, e) = encode-eq-ok m dst first in
        let step = encode_all-cons m ms dst first in
        let (wire, e', reads) = encode_all_wire ms (encode bincode m dst).1 (rw step at h) in
        (
          frame payload ++ wire,
          rw (step, e', e) (append_assoc dst (frame payload) wire),
          λ rest.
              ap (drain_all bincode) (append_assoc (frame payload) wire rest)
              ∙ drain_all-frame m payload (wire ++ rest) s fits
              ∙ ap (prepend (m ∷ [])) (reads rest),
        )

    drain_all-encode_all :
        (ms : List Message)
        → (encode_all ms []).0 ≡ ok tt
        → drain_all bincode (encode_all ms []).1
          ≡ record { messages = ms; failure = none; rest = [] }
    drain_all-encode_all ms h =
        let (wire, e, reads) = encode_all_wire ms [] h in
        ap (drain_all bincode) (e ∙ sym (append-nil wire))
        ∙ reads []
        ∙ ap (prepend ms) (drain_all-none bincode [] (unfold decode in refl))
        ∙ rw append-nil

    -- A stream that yields nothing and does not fail is still in the buffer; an empty rest behind
    -- it means that there was nothing.
    drain_all-empty :
        (src : Bytes)
        → (drain_all bincode src).messages ≡ []
        → (drain_all bincode src).failure ≡ none
        → (drain_all bincode src).rest ≡ src
    drain_all-empty src m e = elim (decode_cases bincode src) [
      | inl (msg, d) ↦ absurd (ground (arith, drain_all-some bincode src d))
      | inr (inl d) ↦ ap (λ (t : Drained E). t.rest) (drain_all-none bincode src d)
      | inr (inr (x, d)) ↦ absurd (ground (arith, drain_all_err bincode src d))
    ]

    no_front : (xs ys : Bytes) → xs ++ ys ≡ [] → ys ≡ []
    no_front [] ys e = e
    no_front (x ∷ xs) ys e = absurd (ground arith)

    -- What is left over is nothing exactly if no more messages are to come.
    later_iff :
        (src missing : Bytes)
        → (drain_all bincode src).failure ≡ none
        → (drain_all bincode ((drain_all bincode src).rest ++ missing)).failure ≡ none
        → (drain_all bincode ((drain_all bincode src).rest ++ missing)).rest ≡ []
        → ((drain_all bincode ((drain_all bincode src).rest ++ missing)).messages ≡ [])
          ↔ (missing ≡ [])
    later_iff src missing e f r =
        let left = (drain_all bincode src).rest in
        let asks = drain_all-rest bincode src e in
        (
          λ m. no_front left missing (sym (drain_all-empty (left ++ missing) m f) ∙ r),
          λ q. rw (q, append-nil) (rw (drain_all-none bincode left asks) refl),
        )

    -- Whatever part of the sent bytes has arrived, in whatever chunks: no error is raised, and the
    -- messages read are the first of those that were sent; and they are all of them exactly if no
    -- byte is missing.
    pub read_chunks-encode_all_prefix :
        (ms : List Message) (chunks : List Bytes) (missing : Bytes)
        → (encode_all ms []).0 ≡ ok tt
        → flatten chunks ++ missing ≡ (encode_all ms []).1
        → ((read_chunks bincode [] chunks).failure ≡ none)
          × ((later : List Message) × (ms ≡ (read_chunks bincode [] chunks).messages ++ later)
              × ((later ≡ []) ↔ (missing ≡ [])))
    read_chunks-encode_all_prefix ms chunks missing h cut =
        let whole : drain_all bincode (flatten chunks ++ missing)
            ≡ record { messages = ms; failure = none; rest = [] } =
          rw cut (drain_all-encode_all ms h) in
        let cont = drain_all-append bincode (flatten chunks) missing in
        let (same, failed) = read_chunks-flatten bincode [] chunks (unfold decode in refl) in
        elim (Option-cases (drain_all bincode (flatten chunks)).failure) [
          | inl e ↦ (
            cc,
            (
              (drain_all bincode ((drain_all bincode (flatten chunks)).rest ++ missing)).messages,
              ground (arith),
              later_iff (flatten chunks) missing e (ground arith) (ground arith),
            ),
          )
          | inr (x, e) ↦ absurd (ground arith)
        ]

    -- When all have arrived, the messages read are those that were sent, in their order.
    pub read_chunks-encode_all :
        (ms : List Message) (chunks : List Bytes)
        → (encode_all ms []).0 ≡ ok tt
        → flatten chunks ≡ (encode_all ms []).1
        → ((read_chunks bincode [] chunks).messages ≡ ms)
          × ((read_chunks bincode [] chunks).failure ≡ none)
    read_chunks-encode_all ms chunks h cut =
        let (failure, (later, split, all)) =
          read_chunks-encode_all_prefix ms chunks [] h (append-nil (flatten chunks) ∙ cut) in
        (sym (append-nil _) ∙ sym (rw (all.1 refl) at split), failure)
