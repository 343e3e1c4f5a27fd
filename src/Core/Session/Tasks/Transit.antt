-- ===== src/Core/Session/Tasks/Transit.antt =====
-- The messages between `outbound.send` and `inbound.send`, through each step of a task.
use dshare.Base.{
  ◌≡◌, ◌≢◌, refl, sym, ap, ◌∙◌, List, [], ◌∷◌, ◌++◌, Option, some, Result, ok, err, arith,
  append_assoc,
}
use dshare.Protocol.{Bytes, Message, ProtocolError}
use dshare.Protocol.Codec.{Bincode, IsFaithful, decode, encode}
use dshare.Core.Session.Tasks.{
  Writer, receiving, sending, finished, failed, Reader, reading, forwarding, closed,
}
use dshare.Core.Session.Tasks.Frames.{
  IsFramed, IsPart, nil-IsPart, append-IsFramed, send-IsFramed, sent-IsPart, decode-IsFramed,
}

-- The message that the read task has in its hands.
abbrev pub held : Reader → List Message
held (forwarding m) = m ∷ []
held reading = []
held closed = []

module _ {E : Type 0} (bincode : Bincode E) where
  abbrev Answer : Type 0
  Answer = Result (Option Message) (ProtocolError E) × Bytes

  -- The messages that are not on the wire, and the part of a frame behind those that are: a write
  -- task that has failed leaves both as they were.
  abbrev pub IsUnsent : Writer → List Message → List Message → Bytes → Type 0
  IsUnsent receiving outbound unsent tail = (tail ≡ []) × (unsent ≡ outbound)
  IsUnsent (sending m) outbound unsent tail = (tail ≡ []) × (unsent ≡ m ∷ outbound)
  IsUnsent finished outbound unsent tail = (tail ≡ []) × (unsent ≡ []) × (outbound ≡ [])
  IsUnsent failed outbound unsent tail = IsPart bincode tail

  -- `after` are the messages that `inbound` has not had yet, in their order: in the read task's
  -- hands, on the wire, unsent.
  pub record IsTransit (reader : Reader) (writer : Writer) (outbound : List Message) (bytes : Bytes)
      (after : List Message) : Type 0 where
    pub flying : List Message
    pub unsent : List Message
    pub tail : Bytes
    pub split : after ≡ held reader ++ (flying ++ unsent)
    pub framed : IsFramed bincode tail flying bytes
    pub behind : IsUnsent writer outbound unsent tail

  tail-IsPart :
      (writer : Writer) (outbound unsent : List Message) (tail : Bytes)
      → IsUnsent writer outbound unsent tail
      → IsPart bincode tail
  tail-IsPart receiving outbound unsent tail (e, u) = rw e (nil-IsPart bincode)
  tail-IsPart (sending m) outbound unsent tail (e, u) = rw e (nil-IsPart bincode)
  tail-IsPart finished outbound unsent tail (e, u, o) = rw e (nil-IsPart bincode)
  tail-IsPart failed outbound unsent tail h = h

  offer-IsUnsent :
      (writer : Writer) (outbound unsent : List Message) (tail : Bytes) (m : Message)
      → writer ≢ finished
      → writer ≢ failed
      → IsUnsent writer outbound unsent tail
      → IsUnsent writer (outbound ++ m ∷ []) (unsent ++ m ∷ []) tail
  offer-IsUnsent receiving outbound unsent tail m f g (e, u) = (e, rw u refl)
  offer-IsUnsent (sending n) outbound unsent tail m f g (e, u) = (e, rw u refl)
  offer-IsUnsent finished outbound unsent tail m f g h = absurd (f refl)
  offer-IsUnsent failed outbound unsent tail m f g h = absurd (g refl)

  module _ {r : Reader} {out after : List Message} {bytes : Bytes} where
    pub offer-IsTransit :
        (w : Writer) (m : Message)
        → w ≢ finished
        → w ≢ failed
        → IsTransit r w out bytes after
        → IsTransit r w (out ++ m ∷ []) bytes (after ++ m ∷ [])
    offer-IsTransit w m f g v = record {
      flying = v.flying;
      unsent = v.unsent ++ m ∷ [];
      tail = v.tail;
      split = rw v.split (
          append_assoc (held r) (v.flying ++ v.unsent) (m ∷ [])
          ∙ ap (λ t. held r ++ t) (append_assoc v.flying v.unsent (m ∷ [])));
      framed = v.framed;
      behind = offer-IsUnsent w out v.unsent v.tail m f g v.behind;
    }

    pub recv-IsTransit :
        (m : Message)
        → IsTransit r receiving (m ∷ out) bytes after
        → IsTransit r (sending m) out bytes after
    recv-IsTransit m v = record {
      flying = v.flying;
      unsent = v.unsent;
      tail = v.tail;
      split = v.split;
      framed = v.framed;
      behind = v.behind;
    }

    pub finish-IsTransit :
        out ≡ [] → IsTransit r receiving out bytes after → IsTransit r finished out bytes after
    finish-IsTransit e v = record {
      flying = v.flying;
      unsent = v.unsent;
      tail = v.tail;
      split = v.split;
      framed = v.framed;
      behind = (v.behind.0, v.behind.1 ∙ e, e);
    }

    pub send-IsTransit :
        (m : Message) (frame : Bytes)
        → encode bincode m [] ≡ (ok tt, frame)
        → IsTransit r (sending m) out bytes after
        → IsTransit r receiving out (bytes ++ frame) after
    send-IsTransit m frame e v = record {
      flying = v.flying ++ m ∷ [];
      unsent = out;
      tail = [];
      split =
          v.split
          ∙ ap (λ t. held r ++ t)
              (ap (λ t. v.flying ++ t) v.behind.1 ∙ sym (append_assoc v.flying (m ∷ []) out));
      framed = send-IsFramed bincode v.flying m bytes frame (rw v.behind.0 at v.framed) e;
      behind = (refl, refl);
    }

    pub refused-IsTransit :
        (m : Message) → IsTransit r (sending m) out bytes after → IsTransit r failed out bytes after
    refused-IsTransit m v = record {
      flying = v.flying;
      unsent = v.unsent;
      tail = v.tail;
      split = v.split;
      framed = v.framed;
      behind = rw v.behind.0 (nil-IsPart bincode);
    }

    pub broken-IsTransit :
        (m : Message) (sent lost : Bytes)
        → encode bincode m [] ≡ (ok tt, sent ++ lost)
        → lost ≢ []
        → IsTransit r (sending m) out bytes after
        → IsTransit r failed out (bytes ++ sent) after
    broken-IsTransit m sent lost e more v = record {
      flying = v.flying;
      unsent = v.unsent;
      tail = sent;
      split = v.split;
      framed = append-IsFramed bincode v.flying bytes sent (rw v.behind.0 at v.framed);
      behind = sent-IsPart bincode m sent lost e more;
    }

  pub forward-IsTransit :
      {w : Writer} {out after : List Message} {bytes : Bytes} (m : Message)
      → IsTransit (forwarding m) w out bytes after
      → (later : List Message) × (after ≡ m ∷ later) × IsTransit reading w out bytes later
  forward-IsTransit m v = (
    v.flying ++ v.unsent,
    v.split,
    record {
      flying = v.flying;
      unsent = v.unsent;
      tail = v.tail;
      split = refl;
      framed = v.framed;
      behind = v.behind;
    },
  )

  module _ (faithful : IsFaithful bincode) {w : Writer} {out after : List Message} where
    pub read-IsTransit :
        (m : Message) (buffer rest wire : Bytes)
        → decode bincode buffer ≡ (ok (some m), rest)
        → IsTransit reading w out (buffer ++ wire) after
        → IsTransit (forwarding m) w out (rest ++ wire) after
    read-IsTransit m buffer rest wire e v =
        let part = tail-IsPart w out v.unsent v.tail v.behind in
        let (n, later, l, same, framed) =
          decode-IsFramed bincode faithful v.tail v.flying buffer wire part v.framed
            (λ h. ground (arith, ap (λ (t : Answer). t.0) e)) in
        let n_m : n ≡ m = ground (arith, ap (λ (t : Answer). t.0) e) in
        record {
          flying = later;
          unsent = v.unsent;
          tail = v.tail;
          split = v.split ∙ rw (l, n_m) refl;
          framed = rw (ap (λ (t : Answer). t.1) e) at framed;
          behind = v.behind;
        }

    -- The read task never meets a frame that does not decode.
    pub reads_no_error :
        (buffer wire : Bytes)
        → IsTransit reading w out (buffer ++ wire) after
        → (e : ProtocolError E) → (decode bincode buffer).0 ≢ err e
    reads_no_error buffer wire v e h =
        let part = tail-IsPart w out v.unsent v.tail v.behind in
        let (n, later, l, same, framed) =
          decode-IsFramed bincode faithful v.tail v.flying buffer wire part v.framed
            (λ n. ground arith) in
        ground arith
