-- ===== src/App/Handshake.antt =====
-- The first half of `handle_peer`. What the peer and the connection do enters as arguments: the
-- outcomes of the two sends, and what the reader has within five seconds.
pub mod Outcome
use dshare.Base.{
  ℕ, ◌≡◌, Bool, true, false, Option, none, some, List, [], ◌∷◌, ◌++◌, Result, ok, err, ◌==◌,
  if◌then◌else◌, codes, decimal,
}
use dshare.Protocol.{
  Bytes, Hello, ScreenInfo, Message, hello, hello_ack, ProtocolError, protocol_version,
}
use dshare.Core.Layout.{Screen}

-- `timeout(…, framed.next())`: nothing in time, the end of the stream, or a frame.
pub data Reply (E : Type 0) : Type 0 where
  timed_out closed : Reply E
  frame : Result Message (ProtocolError E) → Reply E

pub data PeerError (E : Type 0) : Type 0 where
  send_failed : ProtocolError E → PeerError E
  no_hello_in_time disconnected : PeerError E
  read_failed : ProtocolError E → PeerError E
  expected_hello : Message → PeerError E
  version_mismatch : (peer ours : ℕ) → PeerError E
  no_backend : PeerError E

-- `hostname`: the two variables of the environment, the first that is set.
unfoldable pub hostname : (computername host : Option Bytes) → Bytes
hostname (some name) host = name
hostname none (some name) = name
hostname none none = codes "unknown"

-- The Hello of a peer with that configured screen, fresh id and host name.
unfoldable pub own_hello : Screen → (peer_id : ℕ) → (host : Bytes) → Hello
own_hello server_screen peer_id host = record {
  protocol_version = protocol_version;
  peer_id = peer_id;
  hostname = host;
  screen = record { width = server_screen.width; height = server_screen.height };
}

unfoldable pub mismatch_reason : ℕ → Bytes
mismatch_reason peer =
    codes "version mismatch: peer="
    ++ (decimal peer ++ (codes " ours=" ++ decimal protocol_version))

module _ {E : Type 0} where
  -- What the peer is told about its Hello, and the end of the exchange. A refusal that cannot be
  -- sent is a refusal all the same.
  unfoldable pub answer :
      Hello
      → (ack : Result (Unit {0}) (ProtocolError E)) → List Message × Result Hello (PeerError E)
  answer peer ack =
      if peer.protocol_version == protocol_version
      then (hello_ack true none ∷ [], elim ack [ ok _ ↦ ok peer | err e ↦ err (send_failed e) ])
      else (
        hello_ack false (some (mismatch_reason peer.protocol_version)) ∷ [],
        err (version_mismatch peer.protocol_version protocol_version),
      )

  -- The messages given to `send`, in order, and the peer's Hello or the error.
  unfoldable pub hello_exchange :
      Hello
      → (sent : Result (Unit {0}) (ProtocolError E)) → Reply E
      → (ack : Result (Unit {0}) (ProtocolError E)) → List Message × Result Hello (PeerError E)
  unfolding answer
  hello_exchange own (err e) reply ack = (hello own ∷ [], err (send_failed e))
  hello_exchange own (ok _) timed_out ack = (hello own ∷ [], err no_hello_in_time)
  hello_exchange own (ok _) closed ack = (hello own ∷ [], err disconnected)
  hello_exchange own (ok _) (frame (err e)) ack = (hello own ∷ [], err (read_failed e))
  hello_exchange own (ok _) (frame (ok (hello peer))) ack =
      let (told, end) = answer peer ack in (hello own ∷ told, end)
  hello_exchange own (ok _) (frame (ok other)) ack = (hello own ∷ [], err (expected_hello other))
