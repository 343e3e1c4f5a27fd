-- ===== src/Core/Session/Tasks/Order.antt =====
-- What the receiver of `inbound` gets, in every interleaving of the steps.
use dshare.Base.{
  ◌≤◌, ◌≡◌, ◌≢◌, ◌⊎◌, inl, inr, refl, sym, ap, ◌∙◌, ℕ, List, [], ◌∷◌, ◌++◌, err, arith, length,
  length-append, append_assoc, here, next,
}
use dshare.Protocol.{Message, ProtocolError}
use dshare.Protocol.Codec.{Bincode, IsFaithful, decode}
use dshare.Core.Session.Tasks.{
  Link, channel_size, spawned_link, reading, closed, Step, Steps, offer, drop_senders, recv,
  recv_none, send, send_refused, send_breaks, arrive, read, read_fails, hang_up, forward,
  forward_fails, take_inbound, drop_receiver,
}
use dshare.Core.Session.Tasks.Transit.{
  IsTransit, offer-IsTransit, recv-IsTransit, finish-IsTransit, send-IsTransit, refused-IsTransit,
  broken-IsTransit, read-IsTransit, forward-IsTransit, reads_no_error,
}

module _ {E : Type 0} (bincode : Bincode E) (inbound_size : ℕ) where
  -- Every message accepted is taken, waits in `inbound`, or comes after those; both channels are
  -- within their bounds.
  pub record IsRelayed (s : Link) : Type 0 where
    pub after : List Message
    pub whole : s.offered ≡ s.taken ++ (s.inbound ++ after)
    pub transit :
        (s.reader ≡ closed)
        ⊎ IsTransit bincode s.reader s.writer s.outbound (s.buffer ++ s.wire) after
    pub outbound_fits : length s.outbound ≤ channel_size
    pub inbound_fits : length s.inbound ≤ inbound_size

  pub spawned-IsRelayed : IsRelayed spawned_link
  unfolding spawned_link
  spawned-IsRelayed = record {
    after = [];
    whole = refl;
    transit = inr (record {
      flying = [];
      unsent = [];
      tail = [];
      split = refl;
      framed = refl;
      behind = (refl, refl);
    });
    outbound_fits = omega arith;
    inbound_fits = omega arith;
  }

  still : {A B C : Type 0} → A ⊎ B → (B → C) → A ⊎ C
  still (inl a) f = inl a
  still (inr b) f = inr (f b)

  -- A step of the write task or the connection: the receiving session's messages stay.
  moved :
      {s t : Link} (v : IsRelayed s)
      → t.offered ≡ s.offered
      → t.taken ≡ s.taken
      → t.inbound ≡ s.inbound
      → length t.outbound ≤ length s.outbound
      → ((t.reader ≡ closed)
          ⊎ IsTransit bincode t.reader t.writer t.outbound (t.buffer ++ t.wire) v.after)
      → IsRelayed t
  moved v o k i l h = record {
    after = v.after;
    whole = rw (o, k, i) v.whole;
    transit = h;
    outbound_fits = omega (arith, v.outbound_fits);
    inbound_fits = rw i v.inbound_fits;
  }

  module _ (faithful : IsFaithful bincode) where
    pub Step-IsRelayed : {s t : Link} → Step bincode inbound_size s t → IsRelayed s → IsRelayed t
    Step-IsRelayed (offer s m p f g l) v = record {
      after = v.after ++ m ∷ [];
      whole = rw v.whole (
          append_assoc s.taken (s.inbound ++ v.after) (m ∷ [])
          ∙ ap (λ t. s.taken ++ t) (append_assoc s.inbound v.after (m ∷ [])));
      transit = still v.transit (offer-IsTransit bincode s.writer m f g);
      outbound_fits = omega (arith, length-append s.outbound (m ∷ []));
      inbound_fits = v.inbound_fits;
    }
    Step-IsRelayed (drop_senders s) v = moved v refl refl refl (omega arith) v.transit
    Step-IsRelayed (recv s m out w e) v =
        moved v refl refl refl (omega (arith, ap length e))
          (still v.transit (λ q. recv-IsTransit bincode m (rw (w, e) at q)))
    Step-IsRelayed (recv_none s w e p) v =
        moved v refl refl refl (omega arith)
          (still v.transit (λ q. finish-IsTransit bincode e (rw w at q)))
    Step-IsRelayed (send s m frame w e) v = moved v refl refl refl (omega arith) (
        still v.transit (λ q.
          rw (sym (append_assoc s.buffer s.wire frame))
            (send-IsTransit bincode m frame e (rw w at q))))
    Step-IsRelayed (send_refused s m x frame w e) v =
        moved v refl refl refl (omega arith)
          (still v.transit (λ q. refused-IsTransit bincode m (rw w at q)))
    Step-IsRelayed (send_breaks s m sent lost w e more) v = moved v refl refl refl (omega arith) (
        still v.transit (λ q.
          rw (sym (append_assoc s.buffer s.wire sent))
            (broken-IsTransit bincode m sent lost e more (rw w at q))))
    Step-IsRelayed (arrive s chunk wire r e) v =
        moved v refl refl refl (omega arith)
          (still v.transit (λ q. rw (append_assoc s.buffer chunk wire, sym e) q))
    Step-IsRelayed (read s m buffer r e) v = moved v refl refl refl (omega arith) (elim v.transit [
      | inl c ↦ absurd (ground arith)
      | inr q ↦ inr (read-IsTransit bincode faithful m s.buffer buffer s.wire e (rw r at q))
    ])
    Step-IsRelayed (read_fails s x buffer r e) v = moved v refl refl refl (omega arith) (inl refl)
    Step-IsRelayed (hang_up s r) v = moved v refl refl refl (omega arith) (inl refl)
    Step-IsRelayed (forward s m r p l) v = elim v.transit [
      | inl c ↦ absurd (ground arith)
      | inr q ↦
          let (later, first, rest) = forward-IsTransit bincode m (rw r at q) in
          record {
            after = later;
            whole =
                rw (v.whole, first)
                  (ap (λ t. s.taken ++ t) (sym (append_assoc s.inbound (m ∷ []) later)));
            transit = inr rest;
            outbound_fits = v.outbound_fits;
            inbound_fits = omega (arith, length-append s.inbound (m ∷ []));
          }
    ]
    Step-IsRelayed (forward_fails s m r p) v = moved v refl refl refl (omega arith) (inl refl)
    Step-IsRelayed (take_inbound s m inbound p e) v = record {
      after = v.after;
      whole = rw (v.whole, e) (sym (append_assoc s.taken (m ∷ []) (inbound ++ v.after)));
      transit = v.transit;
      outbound_fits = v.outbound_fits;
      inbound_fits = omega (arith, v.inbound_fits, ap length e);
    }
    Step-IsRelayed (drop_receiver s) v = moved v refl refl refl (omega arith) v.transit

    pub Steps-IsRelayed : {s t : Link} → IsRelayed s → Steps bincode inbound_size s t → IsRelayed t
    Steps-IsRelayed v here = v
    Steps-IsRelayed v (next r st) = Step-IsRelayed st (Steps-IsRelayed v r)

    -- Whatever the tasks, the holders of the channels and the connection do, failures included, and in
    -- whatever order: what has been received is an initial part of what has been offered, in its
    -- order; no frame that the read task looks at fails to decode; both channels are within bounds.
    pub relayed_in_order :
        (s : Link)
        → Steps bincode inbound_size spawned_link s
        → ((later : List Message) × (s.offered ≡ s.taken ++ (s.inbound ++ later)))
          × ((e : ProtocolError E) → s.reader ≡ reading → (decode bincode s.buffer).0 ≢ err e)
          × (length s.outbound ≤ channel_size)
          × (length s.inbound ≤ inbound_size)
    relayed_in_order s r =
        let v = Steps-IsRelayed spawned-IsRelayed r in
        (
          (v.after, v.whole),
          λ e p. elim v.transit [
            | inl c ↦ absurd (ground arith)
            | inr q ↦ reads_no_error bincode faithful s.buffer s.wire (rw p at q) e
          ],
          v.outbound_fits,
          v.inbound_fits,
        )
