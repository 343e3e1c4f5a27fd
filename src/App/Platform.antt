-- ===== src/App/Platform.antt =====
-- `handle_peer` of a server with the capture backend that its platform has.
use dshare.Base.{
  Bool, true, false, none, some, List, [], ◌∷◌, ◌++◌, ◌≡◌, Result, ok, err, All, arith,
}
use dshare.Protocol.{Hello, Message, hello, hello_ack, protocol_version}
use dshare.Input.Backend.{Platform, windows, linux, other, default_capture, run_error}
use dshare.App.Handshake.{frame, PeerError, no_backend, hello_exchange}
use dshare.App.Server.{ServerEvent, capture_ended, capture_loop, server_peer}
use dshare.App.Server.Merge.{Merge, is_inbound, capture_loop-Merge}

unfoldable pub has_capture : Platform → Bool
unfolding default_capture
has_capture platform = elim (default_capture platform) [ ok backend ↦ true | err e ↦ false ]

module _ {E : Type 0} where
  -- What comes out of the channel, where the hooks offer `hooked`: the end of it, if `run` returns
  -- and its task with it drops the sender; nothing, if there is no backend to run.
  unfoldable pub channel_of : Platform → (hooked : List (ServerEvent E)) → List (ServerEvent E)
  unfolding default_capture run_error
  channel_of platform hooked = elim (default_capture platform) [
    | err e ↦ []
    | ok backend ↦ elim (run_error backend) [ none ↦ hooked | some e ↦ capture_ended ∷ [] ]
  ]

  -- What a server of a platform can forward at best, and how its session ends.
  abbrev pub forwardable : Platform → List (ServerEvent E) → List Message
  forwardable windows hooked = capture_loop hooked
  forwardable _ hooked = []

  abbrev pub session_end : Platform → Result (Unit {0}) (PeerError E)
  session_end other = err no_backend
  session_end _ = ok tt

  -- Behind an accepted handshake a Windows server sends an initial part of what its hooks let it
  -- forward, however the peer's frames come between; a Linux server sends nothing, and its session
  -- ends without an error; on other platforms it ends in an error, when the peer has been
  -- told that it is accepted.
  pub server_peer-forwardable :
      (platform : Platform) (own theirs : Hello) (hooked : List (ServerEvent E))
      {ys zs : List (ServerEvent E)}
      → theirs.protocol_version ≡ protocol_version
      → Merge (channel_of platform hooked) ys zs
      → All (λ y. is_inbound y ≡ true) ys
      → let (sent, end) =
          server_peer own (ok tt) (frame (ok (hello theirs))) (ok tt) (has_capture platform) zs in
        (rest : List Message) × (sent ++ rest
          ≡ hello own ∷ hello_ack true none ∷ forwardable platform hooked)
        × (end ≡ session_end platform)
  unfolding server_peer hello_exchange channel_of has_capture capture_loop
  server_peer-forwardable windows own theirs hooked v m h =
      let (rest, e) = capture_loop-Merge m h in (rest, ground arith, ground arith)
  server_peer-forwardable linux own theirs hooked v m h =
      let (rest, e) = capture_loop-Merge m h in (rest, ground arith, ground arith)
  server_peer-forwardable other own theirs hooked v m h = ([], ground arith, ground arith)
