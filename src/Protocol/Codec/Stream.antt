-- ===== src/Protocol/Codec/Stream.antt =====
-- A stream of frames: the peer's writer encodes one message after the other, and the reader calls
-- `decode` on the bytes that have arrived until it asks for more, as `Framed` does with a codec.
use dshare.Base.{
  ℕ, zero, suc, ◌<◌, ◌≡◌, refl, sym, ap, ◌∙◌, List, [], ◌∷◌, ◌++◌, Option, none, some, arith,
  length, append_assoc, append-nil, Result, ok, err, ◌⊎◌, inl, inr, Option-cases,
}
use mathlib.Core.List.{flatten}
use dshare.Protocol.{Bytes, Message, ProtocolError}
use dshare.Protocol.Codec.{Bincode, decode}
use dshare.Protocol.Codec.Frame.{decode-append, decode-none, decode_shrinks}

-- The messages taken off a buffer, the error that ended the stream if one did, and what is left.
pub record Drained (E : Type 0) : Type 0 where
  pub messages : List Message
  pub failure : Option (ProtocolError E)
  pub rest : Bytes

abbrev pub prepend : {E : Type 0} → List Message → Drained E → Drained E
prepend ms d = record d { messages = ms ++ d.messages }

by_result :
    {E : Type 0} (r : Result (Option Message) E)
    → ((m : Message) × (r ≡ ok (some m))) ⊎ ((r ≡ ok none) ⊎ ((x : E) × (r ≡ err x)))
by_result (ok (some m)) = inl (m, refl)
by_result (ok none) = inr (inl refl)
by_result (err x) = inr (inr (x, refl))

module _ {E : Type 0} (bincode : Bincode E) where
  drain : ℕ → Bytes → Drained E
  drain zero src = record { messages = []; failure = none; rest = src }
  drain (suc fuel) src = elim ((decode bincode src).0) [
    | err e ↦ record { messages = []; failure = some e; rest = (decode bincode src).1 }
    | ok none ↦ record { messages = []; failure = none; rest = (decode bincode src).1 }
    | ok (some m) ↦ prepend (m ∷ []) (drain fuel (decode bincode src).1)
  ]

  -- A frame takes four bytes at least, so the length of the buffer is fuel enough.
  unfoldable pub drain_all : Bytes → Drained E
  unfolding drain
  drain_all src = drain (suc (length src)) src

  -- Chunks are read as they arrive; a failed stream is not read on.
  unfoldable pub read_chunks : Bytes → List Bytes → Drained E
  read_chunks buffer [] = record { messages = []; failure = none; rest = buffer }
  read_chunks buffer (c ∷ cs) =
      let d = drain_all (buffer ++ c) in
      let e = prepend d.messages (read_chunks d.rest cs) in elim d.failure [ none ↦ e | some x ↦ d ]

  pub decode_cases :
      (src : Bytes)
      → ((m : Message) × ((decode bincode src).0 ≡ ok (some m)))
        ⊎ (((decode bincode src).0 ≡ ok none)
            ⊎ ((x : ProtocolError E) × ((decode bincode src).0 ≡ err x)))
  decode_cases src = by_result (decode bincode src).0

  drain_fuel : (f g : ℕ) (src : Bytes) → length src < f → length src < g → drain f src ≡ drain g src
  unfolding drain
  drain_fuel zero g src h k = absurd (omega arith)
  drain_fuel (suc f) zero src h k = absurd (omega arith)
  drain_fuel (suc f) (suc g) src h k = elim (decode_cases src) [
    | inl (m, e) ↦
        let less = decode_shrinks bincode src e in
        rw (e, drain)
          (ap (prepend (m ∷ []))
            (drain_fuel f g (decode bincode src).1 (omega arith) (omega arith)))
    | inr (inl e) ↦ rw (e, drain)
    | inr (inr (x, e)) ↦ rw (e, drain)
  ]

  pub drain_all-some :
      (src : Bytes) {m : Message}
      → (decode bincode src).0 ≡ ok (some m)
      → drain_all src ≡ prepend (m ∷ []) (drain_all (decode bincode src).1)
  unfolding drain_all drain
  drain_all-some src {m} e =
      let less = decode_shrinks bincode src e in
      rw (e, drain)
        (ap (prepend (m ∷ [])) (
          drain_fuel (length src) (suc (length (decode bincode src).1)) (decode bincode src).1
            (omega arith) (omega arith)))

  pub drain_all-none :
      (src : Bytes)
      → (decode bincode src).0 ≡ ok none
      → drain_all src ≡ record { messages = []; failure = none; rest = src }
  unfolding drain_all drain
  drain_all-none src e = rw (e, drain) (rw (decode-none bincode src e))

  pub drain_all_err :
      (src : Bytes) {x : ProtocolError E}
      → (decode bincode src).0 ≡ err x
      → drain_all src ≡ record { messages = []; failure = some x; rest = (decode bincode src).1 }
  unfolding drain_all drain
  drain_all_err src e = rw (e, drain)

  -- What a reader does with a drained buffer when more bytes arrive.
  abbrev pub continue : Drained E → Bytes → Drained E
  continue d more = elim d.failure [
    | none ↦ prepend d.messages (drain_all (d.rest ++ more))
    | some x ↦ record d { rest = d.rest ++ more }
  ]

  continue-prepend :
      (m : Message) (d : Drained E) (more : Bytes)
      → continue (prepend (m ∷ []) d) more ≡ prepend (m ∷ []) (continue d more)
  continue-prepend m d more = ground arith

  drain_all-append_within :
      (f : ℕ) (src more : Bytes)
      → length src < f
      → drain_all (src ++ more) ≡ continue (drain_all src) more
  drain_all-append_within zero src more h = absurd (omega arith)
  drain_all-append_within (suc f) src more h = elim (decode_cases src) [
    | inl (m, e) ↦
        let less = decode_shrinks bincode src e in
        let both = decode-append bincode src more (λ q. cc) in
        drain_all-some (src ++ more) (cc)
        ∙ ap (λ (t : Bytes). prepend (m ∷ []) (drain_all t))
            (ap (λ (t : Result (Option Message) (ProtocolError E) × Bytes). t.1) both)
        ∙ ap (prepend (m ∷ []))
            (drain_all-append_within f (decode bincode src).1 more (omega arith))
        ∙ sym
            (rw (drain_all-some src e) (continue-prepend m (drain_all (decode bincode src).1) more))
    | inr (inl e) ↦ rw (drain_all-none src e)
    | inr (inr (x, e)) ↦
        let both = decode-append bincode src more (λ q. cc) in
        rw (drain_all_err src e) (drain_all_err (src ++ more) {x = x} (cc) ∙ cc (both))
  ]

  -- Reading on from a drained buffer is reading everything at once.
  pub drain_all-append :
      (src more : Bytes) → drain_all (src ++ more) ≡ continue (drain_all src) more
  drain_all-append src more = drain_all-append_within (suc (length src)) src more (omega arith)

  drain_all-rest_within :
      (f : ℕ) (src : Bytes)
      → length src < f
      → (drain_all src).failure ≡ none
      → (decode bincode (drain_all src).rest).0 ≡ ok none
  drain_all-rest_within zero src h k = absurd (omega arith)
  drain_all-rest_within (suc f) src h k = elim (decode_cases src) [
    | inl (m, e) ↦
        let less = decode_shrinks bincode src e in
        let step = drain_all-some src e in
        rw step (drain_all-rest_within f (decode bincode src).1 (omega arith) (rw step at k))
    | inr (inl e) ↦ rw (drain_all-none src e) e
    | inr (inr (x, e)) ↦ cc (drain_all_err src e)
  ]

  -- A buffer on which `decode` asks for more holds no message yet.
  pub drain_all-rest :
      (src : Bytes)
      → (drain_all src).failure ≡ none
      → (decode bincode (drain_all src).rest).0 ≡ ok none
  drain_all-rest src h = drain_all-rest_within (suc (length src)) src (omega arith) h

  -- However the bytes are cut into chunks, the messages and the error are those of the whole.
  pub read_chunks-flatten :
      (buffer : Bytes) (chunks : List Bytes)
      → (decode bincode buffer).0 ≡ ok none
      → ((read_chunks buffer chunks).messages ≡ (drain_all (buffer ++ flatten chunks)).messages)
        × ((read_chunks buffer chunks).failure ≡ (drain_all (buffer ++ flatten chunks)).failure)
  unfolding read_chunks flatten
  read_chunks-flatten buffer [] h = rw (append-nil, drain_all-none buffer h) (refl, refl)
  read_chunks-flatten buffer (c ∷ cs) h =
      let whole =
        ap drain_all (sym (append_assoc buffer c (flatten cs)))
        ∙ drain_all-append (buffer ++ c) (flatten cs) in
      elim (Option-cases (drain_all (buffer ++ c)).failure) [
        | inl e ↦ ground (
          arith,
          whole,
          read_chunks-flatten (drain_all (buffer ++ c)).rest cs (drain_all-rest (buffer ++ c) e),
        )
        | inr (x, e) ↦ ground (arith, whole)
      ]
