-- ===== src/App/Client/Delivery.antt =====
-- From the server's loop to the client's device.
use mathlib.Core.List.{foldl, flatten}
use dshare.Base.{◌≡◌, refl, ◌∙◌, ap, true, none, some, List, [], ◌∷◌, map, ok, arith}
use dshare.Protocol.{Bytes, Hello, Message, hello, hello_ack, protocol_version}
use dshare.Protocol.Codec.{Bincode, IsFaithful}
use dshare.Protocol.Codec.Stream.{read_chunks}
use dshare.Protocol.Codec.Transfer.{encode_all, read_chunks-encode_all}
use dshare.App.Handshake.{frame, hello_exchange}
use dshare.App.Server.{ServerEvent, capture_loop, server_peer}
use dshare.App.Client.{InputInject, inject_loop, client_peer}

-- Every message handled in turn, whether or not that succeeds.
abbrev pub inject_all : {Device X : Type 0} → InputInject Device X → Device → List Message → Device
inject_all handle = foldl (λ device msg. (handle msg device).1)

module _ {Device X : Type 0} (E : Type 0) (handle : InputInject Device X) where
  inject_loop-map :
      (msgs : List Message) (device : Device)
      → inject_loop {E = E} handle (map ok msgs) device ≡ inject_all handle device msgs
  unfolding inject_loop
  inject_loop-map [] device = refl
  inject_loop-map (m ∷ msgs) device = inject_loop-map msgs (handle m device).1

module _ {E : Type 0} where
  server_peer-accepts :
      (ours theirs : Hello) (events : List (ServerEvent E))
      → theirs.protocol_version ≡ protocol_version
      → (server_peer ours (ok tt) (frame (ok (hello theirs))) (ok tt) true events).0
        ≡ hello ours ∷ hello_ack true none ∷ capture_loop events
  unfolding server_peer hello_exchange
  server_peer-accepts ours theirs events v = ground arith

  pub client_peer-accepts :
      {Device X : Type 0} (handle : InputInject Device X) (device : Device) (ours theirs : Hello)
      (msgs : List Message)
      → (handle (hello_ack true none) device).1 ≡ device
      → ours.protocol_version ≡ protocol_version
      → client_peer {E = E} handle theirs
          (ok tt)
          (ok tt)
          (map ok (hello ours ∷ hello_ack true none ∷ msgs))
          (some device)
        ≡ ok (inject_all handle device msgs)
  unfolding client_peer hello_exchange
  client_peer-accepts handle device ours theirs msgs ignored v =
      let looped : client_peer {E = E} handle theirs (ok tt) (ok tt)
            (map ok (hello ours ∷ hello_ack true none ∷ msgs)) (some device)
          ≡ ok (inject_loop handle (map ok (hello_ack true none ∷ msgs)) device) =
        ground arith in
      looped
      ∙ ap ok (inject_loop-map E handle (hello_ack true none ∷ msgs) device)
      ∙ ap (λ d. ok (inject_all handle d msgs)) ignored

module _ {E : Type 0} (bincode : Bincode E) (faithful : IsFaithful bincode) where
  -- From end to end: what the server's loop sends to a peer of the same version, cut into chunks
  -- anywhere on the way, a client gives to its backend, all of it and in order, whether or not the
  -- backend fails; besides, it gets the HelloAck, of which it is to make nothing.
  pub server_peer-client_peer :
      {Device X : Type 0} (handle : InputInject Device X) (device : Device) (ours theirs : Hello)
      (events : List (ServerEvent E)) (chunks : List Bytes)
      → (handle (hello_ack true none) device).1 ≡ device
      → ours.protocol_version ≡ protocol_version
      → theirs.protocol_version ≡ protocol_version
      → let sent = (server_peer ours (ok tt) (frame (ok (hello theirs))) (ok tt) true events).0 in
        (encode_all bincode sent []).0 ≡ ok tt
        → flatten chunks ≡ (encode_all bincode sent []).1
        → client_peer {E = E} handle theirs
            (ok tt)
            (ok tt)
            (map ok (read_chunks bincode [] chunks).messages)
            (some device)
          ≡ ok (inject_all handle device (capture_loop events))
  server_peer-client_peer handle device ours theirs events chunks ignored v v' h cut =
      let sent = (server_peer ours (ok tt) (frame (ok (hello theirs))) (ok tt) true events).0 in
      let told : sent ≡ hello ours ∷ hello_ack true none ∷ capture_loop events =
        server_peer-accepts ours theirs events v' in
      let (messages, failure) = read_chunks-encode_all bincode faithful sent chunks h cut in
      rw (messages ∙ told)
        (client_peer-accepts handle device ours theirs (capture_loop events) ignored v)
