-- ===== src/App/Client.antt =====
-- The client's half of `handle_peer`: each message from the peer goes to the inject backend.
pub mod Delivery
use dshare.Base.{List, [], ◌∷◌, Option, none, some, Result, ok, err}
use dshare.Protocol.{Hello, Message, ProtocolError}
use dshare.App.Handshake.{Reply, closed, frame, PeerError, no_backend, hello_exchange}

-- An implementation of InputInject: its state is the device.
abbrev pub InputInject : Type 0 → Type 0 → Type 0
InputInject Device X = Message → Device → Result (Unit {0}) X × Device

abbrev pub first_frame : {E : Type 0} → List (Result Message (ProtocolError E)) → Reply E
first_frame [] = closed
first_frame (f ∷ frames) = frame f

abbrev pub later_frames :
    {E : Type 0} → List (Result Message (ProtocolError E)) → List (Result Message (ProtocolError E))
later_frames [] = []
later_frames (f ∷ frames) = frames

module _ {Device X E : Type 0} (handle : InputInject Device X) where
  -- A failed injection is logged and the loop goes on; a frame that does not decode ends it.
  unfoldable pub inject_loop : List (Result Message (ProtocolError E)) → Device → Device
  inject_loop [] device = device
  inject_loop (ok msg ∷ frames) device = inject_loop frames (handle msg device).1
  inject_loop (err e ∷ frames) device = device

  -- `handle_peer` of a client: the outcomes of its two sends, the frames that come before the end
  -- of the stream, in time, and the backend, if there is one. The error, or the device at the end.
  unfoldable pub client_peer :
      Hello
      → (sent ack : Result (Unit {0}) (ProtocolError E)) → List (Result Message (ProtocolError E))
      → Option Device
      → Result Device (PeerError E)
  unfolding inject_loop
  client_peer own sent ack frames backend =
      elim (hello_exchange own sent (first_frame frames) ack).1 [
        | err e ↦ err e
        | ok _ ↦ elim backend [
          | none ↦ err no_backend
          | some device ↦ ok (inject_loop (later_frames frames) device)
        ]
      ]
