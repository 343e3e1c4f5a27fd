-- ===== src/Core/Session/Tasks/Frames.antt =====
-- What is between the two tasks: the frames of some messages, and what a failed write has left.
use dshare.Base.{
  ◌≤◌, ◌≡◌, ◌≢◌, refl, sym, ap, ◌∙◌, List, [], ◌∷◌, ◌++◌, Option, none, some, Result, ok, arith,
  Result-cases, ◌⊎◌, inl, inr, length, append_assoc, append-nil,
}
use dshare.Protocol.{Bytes, Message, ProtocolError}
use dshare.Protocol.Codec.{Bincode, IsFaithful, max_frame_bytes, deserialized, decode, encode}
use dshare.Protocol.Codec.Frame.{frame, decode-frame, decode-append}
use dshare.Protocol.Codec.Transfer.{encode-eq-ok}

append-eq-nil : {A : Type 0} (xs ys : List A) → xs ++ ys ≡ [] → ys ≡ []
append-eq-nil [] ys h = h
append-eq-nil (x ∷ xs) ys h = absurd (ground arith)

module _ {E : Type 0} (bincode : Bincode E) where
  abbrev Sent : Type 0
  Sent = Result (Unit {0}) (ProtocolError E) × Bytes

  abbrev Answer : Type 0
  Answer = Result (Option Message) (ProtocolError E) × Bytes

  -- Bytes that are the frames of messages, with a rest behind them.
  abbrev pub IsFramed : Bytes → List Message → Bytes → Type 0
  IsFramed tail [] bytes = bytes ≡ tail
  IsFramed tail (m ∷ ms) bytes =
      (payload : Bytes) × (rest : Bytes) × (bincode.serialize m ≡ ok payload)
      × (length payload ≤ max_frame_bytes)
      × (bytes ≡ frame payload ++ rest)
      × IsFramed tail ms rest

  -- A part of a frame, on which `decode` waits for more.
  abbrev pub IsPart : Bytes → Type 0
  IsPart tail = (decode bincode tail).0 ≡ ok none

  pub nil-IsPart : IsPart []
  unfolding decode
  nil-IsPart = refl

  -- A write behind whole frames adds one frame, or the part of it that was written.
  pub append-IsFramed :
      (ms : List Message) (bytes more : Bytes)
      → IsFramed [] ms bytes
      → IsFramed more ms (bytes ++ more)
  append-IsFramed [] bytes more h = rw h refl
  append-IsFramed (m ∷ ms) bytes more (payload, rest, s, fits, e, h) = (
    payload,
    rest ++ more,
    s,
    fits,
    rw e (append_assoc (frame payload) rest more),
    append-IsFramed ms rest more h,
  )

  written_frame :
      (m : Message) (written : Bytes)
      → encode bincode m [] ≡ (ok tt, written)
      → (payload : Bytes) × (bincode.serialize m ≡ ok payload)
        × (length payload ≤ max_frame_bytes)
        × (written ≡ frame payload)
  written_frame m written s =
      let (payload, p, fits, e) = encode-eq-ok bincode m [] (ap (λ (t : Sent). t.0) s) in
      (payload, p, fits, sym (ap (λ (t : Sent). t.1) s) ∙ e)

  pub send-IsFramed :
      (ms : List Message) (m : Message) (bytes written : Bytes)
      → IsFramed [] ms bytes
      → encode bincode m [] ≡ (ok tt, written)
      → IsFramed [] (ms ++ m ∷ []) (bytes ++ written)
  send-IsFramed [] m bytes written h s =
      let (payload, p, fits, e) = written_frame m written s in
      (payload, [], p, fits, rw (h, append-nil) e, refl)
  send-IsFramed (n ∷ ms) m bytes written (payload, rest, p, fits, e, h) s = (
    payload,
    rest ++ written,
    p,
    fits,
    rw e (append_assoc (frame payload) rest written),
    send-IsFramed ms m rest written h s,
  )

  sent_waits :
      (m : Message) (sent lost : Bytes)
      → encode bincode m [] ≡ (ok tt, sent ++ lost)
      → lost ≢ []
      → ¬ ((decode bincode sent).0 ≢ ok none)
  sent_waits m sent lost s more answers =
      let (payload, p, fits, e) = written_frame m (sent ++ lost) s in
      let whole = decode-frame bincode payload [] fits in
      let cut = decode-append bincode sent lost answers in
      let same = ap (decode bincode) (e ∙ sym (append-nil (frame payload))) in
      let both = sym cut ∙ same ∙ whole in
      more (append-eq-nil (decode bincode sent).1 lost (ap (λ (t : Answer). t.1) both))

  pub answers_dec : (bytes : Bytes) → IsPart bytes ⊎ ((decode bincode bytes).0 ≢ ok none)
  answers_dec bytes = elim (Result-cases (decode bincode bytes).0) [
    | inl (none, e) ↦ inl e
    | inl (some m, e) ↦ inr (λ h. ground arith)
    | inr (x, e) ↦ inr (λ h. ground arith)
  ]

  -- What a failed write has left is no frame.
  pub sent-IsPart :
      (m : Message) (sent lost : Bytes)
      → encode bincode m [] ≡ (ok tt, sent ++ lost)
      → lost ≢ []
      → IsPart sent
  sent-IsPart m sent lost s more = elim (answers_dec sent) [
    | inl part ↦ part
    | inr answers ↦ absurd (sent_waits m sent lost s more answers)
  ]

  -- `decode` takes the first of whole frames off.
  pub decode_next :
      IsFaithful bincode
      → (tail : Bytes) (m : Message) (ms : List Message) (bytes : Bytes)
      → IsFramed tail (m ∷ ms) bytes
      → (rest : Bytes) × (decode bincode bytes ≡ (ok (some m), rest)) × IsFramed tail ms rest
  decode_next faithful tail m ms bytes (payload, rest, p, fits, e, h) =
      let whole = decode-frame bincode payload rest fits in
      let same = faithful m payload p in
      (rest, rw (e, whole) (unfold deserialized in rw (same, deserialized)), h)

  -- Any answer of `decode` is the next message.
  pub decode-IsFramed :
      IsFaithful bincode
      → (tail : Bytes) (ms : List Message) (buffer wire : Bytes) → IsPart tail
      → IsFramed tail ms (buffer ++ wire)
      → (decode bincode buffer).0 ≢ ok none
      → (m : Message) × (later : List Message) × (ms ≡ m ∷ later)
        × ((decode bincode buffer).0 ≡ ok (some m))
        × IsFramed tail later ((decode bincode buffer).1 ++ wire)
  decode-IsFramed faithful tail [] buffer wire part h answers =
      let cut = decode-append bincode buffer wire answers in
      absurd (answers (ap (λ (t : Answer). t.0) (sym cut ∙ ap (decode bincode) h) ∙ part))
  decode-IsFramed faithful tail (m ∷ ms) buffer wire part h answers =
      let cut = decode-append bincode buffer wire answers in
      let (rest, first, later) = decode_next faithful tail m ms (buffer ++ wire) h in
      let both = sym cut ∙ first in
      (m, ms, refl, ap (λ (t : Answer). t.0) both, rw (ap (λ (t : Answer). t.1) both) later)
