-- ===== src/Core/Session.antt =====
-- crates/dshare-core/src/session.rs: the loops of the two tasks of `PeerSession::spawn`, over what
-- each round finds in the channels and the framed stream. Tasks is the system that they make up.
pub mod Relay
pub mod Tasks
use dshare.Base.{Bool, true, false, List, [], ◌∷◌, Result, ok, err}
use dshare.Protocol.{Message, ProtocolError}

module _ {E : Type 0} where
  -- The frames of the stream, each with whether the receiver of `inbound` is still there. The
  -- messages given to `inbound.send`, in order; any error ends the loop, an io error as another.
  unfoldable pub read_loop : List (Result Message (ProtocolError E) × Bool) → List Message
  read_loop [] = []
  read_loop ((ok msg, true) ∷ frames) = msg ∷ read_loop frames
  read_loop ((ok msg, false) ∷ frames) = msg ∷ []
  read_loop ((err e, listening) ∷ frames) = []

  -- The messages taken from `outbound`, each with the outcome of `sink.send`. Those given to it.
  unfoldable pub write_loop : List (Message × Result (Unit {0}) (ProtocolError E)) → List Message
  write_loop [] = []
  write_loop ((msg, ok _) ∷ outbound) = msg ∷ write_loop outbound
  write_loop ((msg, err e) ∷ outbound) = msg ∷ []
