-- ===== src/Core/Session/Tasks.antt =====
-- crates/dshare-core/src/session.rs: two sessions of `PeerSession::spawn` at the ends of a
-- connection, in one direction: the write task of the one, the read task of the other, and whoever
-- holds the channels, each as steps of its own. An mpsc channel is the list of what it holds; a
-- `send().await` on a full one waits, so it is no step until there is room. A send on the sink
-- encodes into an empty write buffer, since every send before it has flushed.
pub mod Frames
pub mod Transit
pub mod Order
pub mod Progress
pub mod Completion
use dshare.Base.{
  ℕ, ◌<◌, ◌≡◌, ◌≢◌, Bool, true, false, List, [], ◌∷◌, ◌++◌, none, some, ok, err, length, Star,
}
use dshare.Protocol.{Bytes, Message, ProtocolError}
use dshare.Protocol.Codec.{Bincode, decode, encode}

-- Where the write task stands: in `rx.recv`, in `sink.send`, behind the loop because all senders are
-- gone, behind it because a send failed.
pub data Writer : Type 0 where
  receiving : Writer
  sending : Message → Writer
  finished failed : Writer

-- Where the read task stands: in `source.next`, in `inbound.send`, behind the loop.
pub data Reader : Type 0 where
  reading : Reader
  forwarding : Message → Reader
  closed : Reader

pub record Link : Type 0 where
  -- The sending session: whether somebody holds `outbound`, what waits in it, its write task.
  pub senders : Bool
  pub outbound : List Message
  pub writer : Writer
  -- The bytes that are under way, and those in the receiving session's `Framed`.
  pub wire : Bytes
  pub buffer : Bytes
  -- The receiving session: its read task, what waits in `inbound`, whether somebody receives it.
  pub reader : Reader
  pub inbound : List Message
  pub receiver : Bool
  -- The messages that `outbound` has accepted so far, and those received from `inbound`.
  pub offered : List Message
  pub taken : List Message

-- The capacity of `outbound`.
abbrev pub channel_size : ℕ
channel_size = 256

unfoldable pub spawned_link : Link
spawned_link = record {
  senders = true;
  outbound = [];
  writer = receiving;
  wire = [];
  buffer = [];
  reader = reading;
  inbound = [];
  receiver = true;
  offered = [];
  taken = [];
}

module _ {E : Type 0} (bincode : Bincode E) (inbound_size : ℕ) where
  -- One step of a task, of the holder of a channel, or of the connection. A failing write may leave
  -- any part of the frame but all of it on the wire.
  pub data Step : Link → Link → Type 0 where
    -- The holders of `outbound`.
    offer :
        (s : Link) (msg : Message)
        → s.senders ≡ true
        → s.writer ≢ finished
        → s.writer ≢ failed
        → length s.outbound < channel_size
        → Step s (record s { outbound = s.outbound ++ msg ∷ []; offered = s.offered ++ msg ∷ [] })
    drop_senders : (s : Link) → Step s (record s { senders = false })
    -- The write task.
    recv :
        (s : Link) (msg : Message) (outbound : List Message)
        → s.writer ≡ receiving
        → s.outbound ≡ msg ∷ outbound
        → Step s (record s { outbound = outbound; writer = sending msg })
    recv_none :
        (s : Link)
        → s.writer ≡ receiving
        → s.outbound ≡ []
        → s.senders ≡ false
        → Step s (record s { writer = finished })
    send :
        (s : Link) (msg : Message) (frame : Bytes)
        → s.writer ≡ sending msg
        → encode bincode msg [] ≡ (ok tt, frame)
        → Step s (record s { writer = receiving; wire = s.wire ++ frame })
    send_refused :
        (s : Link) (msg : Message) (e : ProtocolError E) (frame : Bytes)
        → s.writer ≡ sending msg
        → encode bincode msg [] ≡ (err e, frame)
        → Step s (record s { writer = failed })
    send_breaks :
        (s : Link) (msg : Message) (sent lost : Bytes)
        → s.writer ≡ sending msg
        → encode bincode msg [] ≡ (ok tt, sent ++ lost)
        → lost ≢ []
        → Step s (record s { writer = failed; wire = s.wire ++ sent })
    -- The connection, and the read task.
    arrive :
        (s : Link) (chunk wire : Bytes)
        → s.reader ≡ reading
        → s.wire ≡ chunk ++ wire
        → Step s (record s { wire = wire; buffer = s.buffer ++ chunk })
    read :
        (s : Link) (msg : Message) (buffer : Bytes)
        → s.reader ≡ reading
        → decode bincode s.buffer ≡ (ok (some msg), buffer)
        → Step s (record s { buffer = buffer; reader = forwarding msg })
    read_fails :
        (s : Link) (e : ProtocolError E) (buffer : Bytes)
        → s.reader ≡ reading
        → decode bincode s.buffer ≡ (err e, buffer)
        → Step s (record s { buffer = buffer; reader = closed })
    -- The end of the stream or an error of the connection, which may come at any time.
    hang_up : (s : Link) → s.reader ≡ reading → Step s (record s { reader = closed })
    forward :
        (s : Link) (msg : Message)
        → s.reader ≡ forwarding msg
        → s.receiver ≡ true
        → length s.inbound < inbound_size
        → Step s (record s { reader = reading; inbound = s.inbound ++ msg ∷ [] })
    forward_fails :
        (s : Link) (msg : Message)
        → s.reader ≡ forwarding msg
        → s.receiver ≡ false
        → Step s (record s { reader = closed })
    -- The receiver of `inbound`. What waits in it when it is dropped stays there for good.
    take_inbound :
        (s : Link) (msg : Message) (inbound : List Message)
        → s.receiver ≡ true
        → s.inbound ≡ msg ∷ inbound
        → Step s (record s { inbound = inbound; taken = s.taken ++ msg ∷ [] })
    drop_receiver : (s : Link) → Step s (record s { receiver = false })

  abbrev pub Steps : Link → Link → Type 0
  Steps = Star Step
