-- ===== src/App/EndToEnd.antt =====
-- From the hooks on the server to the device on the client: hooks, channel, forwarding, framing,
-- decoding and injection in one.
pub mod Desk
pub mod ToLinux
pub mod ToWindows
use mathlib.Core.List.{flatten}
use dshare.Base.{
  ◌≡◌, ◌∙◌, sym, ap, true, false, none, some, List, [], ◌∷◌, ◌++◌, map, Result, ok, All, append-nil,
  Bool,
}
use dshare.Protocol.{Bytes, Hello, hello, hello_ack, protocol_version}
use dshare.Protocol.Codec.{Bincode, IsFaithful}
use dshare.Protocol.Codec.Stream.{read_chunks}
use dshare.Protocol.Codec.Transfer.{encode_all, read_chunks-encode_all}
use dshare.Input.Windows.Hooks.{is_grabbed}
use dshare.App.Client.{InputInject, client_peer}
use dshare.App.Client.Delivery.{inject_all, client_peer-accepts}
use dshare.App.Server.{System, Action, run}
use dshare.App.Server.Grab.{is_toggle}
use dshare.App.Server.Order.{is_kept, offered_by_run, on_its_way, run_grabbed}

module _ {E : Type 0} (bincode : Bincode E) (faithful : IsFaithful bincode) where
  -- While the grab stays on, the channel takes everything and the loop has emptied it again, a client
  -- of the server's version gives to its backend everything that the hooks offered, behind what was
  -- under way before and in order, however the connection cuts the bytes and whether or not the
  -- backend fails; besides, it gets the HelloAck, of which it is to make nothing.
  pub run-client_peer :
      {Sender Device X : Type 0} (checks : Bool) (actions : List Action) (s t : System Sender)
      (handle : InputInject Device X) (device : Device) (ours theirs : Hello) (chunks : List Bytes)
      → (handle (hello_ack true none) device).1 ≡ device
      → is_grabbed s.hook ≡ true
      → All (λ a. (is_toggle a ≡ false) × (is_kept a ≡ true)) actions
      → run checks actions s ≡ some t
      → t.queue ≡ []
      → ours.protocol_version ≡ protocol_version
      → (encode_all bincode (hello ours ∷ hello_ack true none ∷ t.sent) []).0 ≡ ok tt
      → flatten chunks ≡ (encode_all bincode (hello ours ∷ hello_ack true none ∷ t.sent) []).1
      → client_peer {E = E} handle theirs
          (ok tt)
          (ok tt)
          (map ok (read_chunks bincode [] chunks).messages)
          (some device)
        ≡ ok (inject_all handle device (on_its_way s ++ offered_by_run checks actions s))
  run-client_peer checks actions s t handle device ours theirs chunks ignored g h e drained v sent
        cut =
      let wire = hello ours ∷ hello_ack true none ∷ t.sent in
      let (messages, failure) = read_chunks-encode_all bincode faithful wire chunks sent cut in
      let all =
        sym (append-nil t.sent)
        ∙ ap (λ q. t.sent ++ q) (sym drained)
        ∙ run_grabbed checks actions s t g h e in
      rw (messages, ← all) (client_peer-accepts handle device ours theirs t.sent ignored v)
