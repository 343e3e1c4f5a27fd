-- ===== src/Core/Session/Tasks/Progress.antt =====
-- A task that can do something, as long as a message has not been received.
use dshare.Base.{
  ℕ, ◌+◌, ◌-◌, ◌*◌, ◌<◌, ◌≤◌, ◌≡◌, ◌≢◌, ◌⊎◌, inl, inr, refl, sym, ap, ◌∙◌, true, List, [], ◌∷◌,
  ◌++◌, ok, arith, length, length-append, append-nil, All, All-append_right,
}
use dshare.Protocol.{Bytes, Message}
use dshare.Protocol.Codec.{Bincode, IsFaithful, encode}
use dshare.Core.Session.Tasks.{
  Writer, receiving, sending, finished, failed, Reader, reading, forwarding, closed, Link, Step,
  recv, send, arrive, read, forward, take_inbound,
}
use dshare.Core.Session.Tasks.Frames.{decode_next}
use dshare.Core.Session.Tasks.Transit.{IsTransit, IsUnsent, held}
use dshare.Core.Session.Tasks.Order.{IsRelayed}

-- Both tasks are in their loops, or the write task has sent everything, and somebody receives.
pub record IsUp (s : Link) : Type 0 where
  pub writing : s.writer ≢ failed
  pub reading_on : s.reader ≢ closed
  pub received : s.receiver ≡ true

abbrev in_hand : Writer → List Message
in_hand (sending m) = m ∷ []
in_hand _ = []

abbrev some_bytes : Bytes → ℕ
some_bytes [] = 0
some_bytes (b ∷ bytes) = 1

some_bytes_le : (bytes : Bytes) → some_bytes bytes ≤ 1
some_bytes_le [] = omega arith
some_bytes_le (b ∷ bytes) = omega arith

-- The messages that are neither taken nor in one of the places that the state shows.
abbrev flying_count : Link → ℕ
flying_count s =
    length s.offered
    - (length s.taken
        + length s.inbound
        + length (held s.reader)
        + length (in_hand s.writer)
        + length s.outbound)

-- The steps that are left for the messages on their way.
abbrev pub left_over : Link → ℕ
left_over s =
    6 * length s.outbound
    + 5 * length (in_hand s.writer)
    + 3 * flying_count s
    + some_bytes s.wire
    + 2 * length (held s.reader)
    + length s.inbound

module _ {E : Type 0} (bincode : Bincode E) where
  -- Every message so far can be encoded.
  abbrev pub IsEncodable : List Message → Type 0
  IsEncodable = All (λ m. (encode bincode m []).0 ≡ ok tt)

  unsent_count :
      (w : Writer) (out unsent : List Message) (tail : Bytes)
      → w ≢ failed
      → IsUnsent bincode w out unsent tail
      → length unsent ≡ length (in_hand w) + length out
  unsent_count receiving out unsent tail f (e, u) = omega (arith, ap length u)
  unsent_count (sending m) out unsent tail f (e, u) = omega (arith, ap length u)
  unsent_count finished out unsent tail f (e, u, o) = omega (arith, ap length u, ap length o)
  unsent_count failed out unsent tail f h = absurd (f refl)

module _ {E : Type 0} (bincode : Bincode E) (inbound_size : ℕ) where
  abbrev pub IsNearer : Link → Link → Type 0
  IsNearer s t =
      Step bincode inbound_size s t × IsUp t × (t.offered ≡ s.offered) × (left_over t < left_over s)

  module _ (faithful : IsFaithful bincode) (roomy : 0 < inbound_size) (s : Link) where
    module _ (v : IsRelayed bincode inbound_size s) (up : IsUp s)
        (good : IsEncodable bincode s.offered)
        (q : IsTransit bincode s.reader s.writer s.outbound (s.buffer ++ s.wire) v.after) where
      counted :
          length s.offered
          ≡ length s.taken
            + (length s.inbound
                + (length (held s.reader)
                    + (length q.flying + (length (in_hand s.writer) + length s.outbound))))
      counted = omega (
        arith,
        ap length v.whole,
        length-append s.taken (s.inbound ++ v.after),
        length-append s.inbound v.after,
        ap length q.split,
        length-append (held s.reader) (q.flying ++ q.unsent),
        length-append q.flying q.unsent,
        unsent_count bincode s.writer s.outbound q.unsent q.tail up.writing q.behind,
      )

      nearer :
          (t : Link)
          → Step bincode inbound_size s t
          → IsUp t
          → t.offered ≡ s.offered
          → left_over t < left_over s
          → (s.taken ≡ s.offered) ⊎ ((u : Link) × IsNearer s u)
      nearer t st u o l = inr (t, (st, u, o, l))

      -- Nothing is held, on the wire or unsent: all messages have been taken.
      all_taken :
          s.inbound ≡ [] → s.reader ≡ reading → q.flying ≡ [] → q.unsent ≡ [] → s.taken ≡ s.offered
      all_taken i r f u =
          let none_after =
            q.split
            ∙ ap (λ x. held x ++ (q.flying ++ q.unsent)) r
            ∙ ap (λ x. x ++ q.unsent) f
            ∙ u in
          sym (v.whole ∙ rw (i, none_after) (append-nil s.taken))

      by_outbound :
          (outbound : List Message)
          → s.outbound ≡ outbound
          → s.writer ≡ receiving
          → s.inbound ≡ []
          → s.reader ≡ reading
          → q.flying ≡ []
          → (s.taken ≡ s.offered) ⊎ ((t : Link) × IsNearer s t)
      by_outbound [] o e i r f = inl (all_taken i r f ((rw e at q.behind).1 ∙ o))
      by_outbound (m ∷ outbound) o e i r f =
          nearer _ (recv s m outbound e o)
            (record {
              writing = λ h. ground arith;
              reading_on = up.reading_on;
              received = up.received;
            })
            refl (ground (arith, counted, ap length o))

      by_writer :
          (w : Writer)
          → s.writer ≡ w
          → s.inbound ≡ []
          → s.reader ≡ reading
          → q.flying ≡ []
          → (s.taken ≡ s.offered) ⊎ ((t : Link) × IsNearer s t)
      by_writer receiving e i r f = by_outbound s.outbound refl e i r f
      by_writer (sending m) e i r f =
          let h : IsEncodable bincode (q.unsent) = All-append_right _ q.flying _ (
            All-append_right _ (held s.reader) _ (
              rw q.split at (
                All-append_right _ s.inbound _
                  (All-append_right _ s.taken _ (rw v.whole at good))))) in
          let fits = (rw (rw e at q.behind).1 at h).0 in
          nearer _ (send s m _ e (ap (λ t. (t, (encode bincode m []).1)) fits))
            (record {
              writing = λ x. ground arith;
              reading_on = up.reading_on;
              received = up.received;
            })
            refl (ground (arith, counted, some_bytes_le (s.wire ++ (encode bincode m []).1)))
      by_writer finished e i r f = inl (all_taken i r f (rw e at q.behind).1)
      by_writer failed e i r f = absurd (up.writing e)

      by_flying :
          (flying : List Message)
          → q.flying ≡ flying
          → s.inbound ≡ []
          → s.reader ≡ reading
          → s.wire ≡ []
          → (s.taken ≡ s.offered) ⊎ ((t : Link) × IsNearer s t)
      by_flying [] e i r b = by_writer s.writer refl i r e
      by_flying (m ∷ flying) e i r b =
          let (rest, first, later) =
            decode_next bincode faithful q.tail m flying s.buffer
              (rw (b, append-nil) at (rw e at q.framed)) in
          nearer _ (read s m rest r first)
            (record {
              writing = up.writing;
              reading_on = λ h. ground arith;
              received = up.received;
            })
            refl (ground (arith, counted, ap length e))

      by_wire :
          (wire : Bytes)
          → s.wire ≡ wire
          → s.inbound ≡ []
          → s.reader ≡ reading
          → (s.taken ≡ s.offered) ⊎ ((t : Link) × IsNearer s t)
      by_wire [] e i r = by_flying q.flying refl i r e
      by_wire (b ∷ wire) e i r =
          nearer _ (arrive s s.wire [] r (sym (append-nil s.wire)))
            (record { writing = up.writing; reading_on = up.reading_on; received = up.received })
            refl (ground arith)

      by_reader :
          (r : Reader)
          → s.reader ≡ r
          → s.inbound ≡ []
          → (s.taken ≡ s.offered) ⊎ ((t : Link) × IsNearer s t)
      by_reader closed e i = absurd (up.reading_on e)
      by_reader reading e i = by_wire s.wire refl i e
      by_reader (forwarding m) e i =
          nearer _ (forward s m e up.received (omega (arith, ap length i)))
            (record {
              writing = up.writing;
              reading_on = λ h. ground arith;
              received = up.received;
            })
            refl (ground (arith, counted, length-append s.inbound (m ∷ [])))

      by_inbound :
          (inbound : List Message)
          → s.inbound ≡ inbound
          → (s.taken ≡ s.offered) ⊎ ((t : Link) × IsNearer s t)
      by_inbound [] e = by_reader s.reader refl e
      by_inbound (m ∷ inbound) e =
          nearer _ (take_inbound s m inbound up.received e)
            (record { writing = up.writing; reading_on = up.reading_on; received = up.received })
            refl (omega (arith, ap length e, counted, length-append s.taken (m ∷ [])))

    -- Either all messages have been taken, or a task can do something that brings them nearer.
    pub progress :
        IsRelayed bincode inbound_size s
        → IsUp s
        → IsEncodable bincode s.offered
        → (s.taken ≡ s.offered) ⊎ ((t : Link) × IsNearer s t)
    progress v up good = elim v.transit [
      | inl c ↦ absurd (up.reading_on c)
      | inr q ↦ by_inbound v up good q s.inbound refl
    ]
