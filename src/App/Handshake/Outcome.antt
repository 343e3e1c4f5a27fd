-- ===== src/App/Handshake/Outcome.antt =====
-- When the exchange succeeds, and what the peer is told.
use dshare.Base.{
  ◌≡◌, ◌≢◌, ◌↔◌, refl, true, false, none, some, [], ◌∷◌, Result, ok, err, arith, ◌⊎◌, inl, inr,
}
use dshare.Protocol.{Hello, hello, hello_ack, ProtocolError, protocol_version}
use dshare.App.Handshake.{
  Reply, timed_out, closed, frame, version_mismatch, mismatch_reason, hello_exchange,
}

module _ {E : Type 0} where
  -- The exchange succeeds with a peer exactly if both sends did and the peer's first frame was a
  -- Hello of our version.
  hello_exchange-eq-ok_iff :
      (own peer : Hello) (sent : Result (Unit {0}) (ProtocolError E)) (reply : Reply E)
      (ack : Result (Unit {0}) (ProtocolError E))
      → ((hello_exchange own sent reply ack).1 ≡ ok peer) ↔ (
          (sent ≡ ok tt)
          × (reply ≡ frame (ok (hello peer)))
          × (peer.protocol_version ≡ protocol_version)
          × (ack ≡ ok tt))
  unfolding hello_exchange
  hello_exchange-eq-ok_iff own peer sent reply ack = (λ h. ground arith, λ h. ground arith)

  -- A peer of another version is told so, with both versions, and the session ends with an error,
  -- whether or not the refusal could be sent. Nothing is ever accepted in the same exchange.
  hello_exchange_refuses :
      (own peer : Hello) (ack : Result (Unit {0}) (ProtocolError E))
      → peer.protocol_version ≢ protocol_version
      → hello_exchange own (ok tt) (frame (ok (hello peer))) ack ≡ (
        hello own ∷ hello_ack false (some (mismatch_reason peer.protocol_version)) ∷ [],
        err (version_mismatch peer.protocol_version protocol_version),
      )
  unfolding hello_exchange
  hello_exchange_refuses own peer ack h = ground arith

  -- Whatever happens, the first message sent is our own Hello, at most one more follows, and the
  -- peer is told that it is accepted only after a Hello of our version.
  hello_exchange_sends :
      (own : Hello) (sent : Result (Unit {0}) (ProtocolError E)) (reply : Reply E)
      (ack : Result (Unit {0}) (ProtocolError E))
      → ((hello_exchange own sent reply ack).0 ≡ hello own ∷ [])
        ⊎ ((peer : Hello) × (reply ≡ frame (ok (hello peer)))
            × (((peer.protocol_version ≡ protocol_version)
                  × ((hello_exchange own sent reply ack).0 ≡ hello own ∷ hello_ack true none ∷ []))
                ⊎ ((peer.protocol_version ≢ protocol_version)
                    × ((hello_exchange own sent reply ack).0
                        ≡ hello own
                          ∷ hello_ack false (some (mismatch_reason peer.protocol_version))
                          ∷ []))))
  unfolding hello_exchange
  hello_exchange_sends own (err e) reply ack = inl refl
  hello_exchange_sends own (ok _) timed_out ack = inl refl
  hello_exchange_sends own (ok _) closed ack = inl refl
  hello_exchange_sends own (ok _) (frame (err e)) ack = inl refl
  hello_exchange_sends own (ok _) (frame (ok (hello peer))) ack = inr (peer, refl, ground arith)
  hello_exchange_sends own (ok _) (frame (ok _)) ack = inl refl

  -- The exchange succeeds with a peer exactly if both sends did and the peer's first frame was a
  -- Hello of our version. Whatever happens, the first message sent is our own Hello, at most one more
  -- follows, and the peer is told that it is accepted only after a Hello of our version.
  pub hello_exchange_outcome :
      (own : Hello) (sent : Result (Unit {0}) (ProtocolError E)) (reply : Reply E)
      (ack : Result (Unit {0}) (ProtocolError E))
      → ((peer : Hello)
          → ((hello_exchange own sent reply ack).1 ≡ ok peer) ↔ (
              (sent ≡ ok tt)
              × (reply ≡ frame (ok (hello peer)))
              × (peer.protocol_version ≡ protocol_version)
              × (ack ≡ ok tt)))
        × (((hello_exchange own sent reply ack).0 ≡ hello own ∷ [])
            ⊎ ((peer : Hello) × (reply ≡ frame (ok (hello peer)))
                × (((peer.protocol_version ≡ protocol_version)
                      × ((hello_exchange own sent reply ack).0
                          ≡ hello own ∷ hello_ack true none ∷ []))
                    ⊎ ((peer.protocol_version ≢ protocol_version)
                        × ((hello_exchange own sent reply ack).0
                            ≡ hello own
                              ∷ hello_ack false (some (mismatch_reason peer.protocol_version))
                              ∷ [])))))
  hello_exchange_outcome own sent reply ack = (
    λ peer. hello_exchange-eq-ok_iff own peer sent reply ack,
    hello_exchange_sends own sent reply ack,
  )
