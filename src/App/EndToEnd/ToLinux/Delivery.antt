-- ===== src/App/EndToEnd/ToLinux/Delivery.antt =====
-- From the mouse and the keyboard of a Windows server to the uinput device of a Linux client.
use mathlib.Core.List.{flatten}
use dshare.Base.{◌≡◌, refl, ap, ◌∙◌, Bool, true, none, some, List, [], ◌∷◌, ℤ, ◌-ℤ◌, ok, map}
use dshare.Input.Linux.{EvdevCodes, InputEvent, events}
use dshare.Input.Linux
use dshare.Input.Linux.Emission.{IsDistinct}
use dshare.Input.Windows.Hooks.{HookState, is_grabbed}
use dshare.App.Server.{System, Action, run}
use dshare.App.Server.Order.{offered_by_run}
use dshare.Protocol.{Bytes, Hello, hello, hello_ack, protocol_version}
use dshare.Protocol.Codec.{Bincode, IsFaithful}
use dshare.Protocol.Codec.Stream.{read_chunks}
use dshare.Protocol.Codec.Transfer.{encode_all}
use dshare.App.Client.{client_peer}
use dshare.App.EndToEnd.{run-client_peer}
use dshare.App.EndToEnd.ToLinux.{turns, presses, linux_inject}
use dshare.App.EndToEnd.ToLinux.Messages.{Shows, emitted_all, inject_all-emitted}
use dshare.App.EndToEnd.ToLinux.Steps.{run-Shows}
use dshare.App.EndToEnd.Desk.{place, IsNearPoint, AllForwarded, AllForwarded-All, on_desk}

module _ {E : Type 0} (bincode : Bincode E) (faithful : IsFaithful bincode) where
  -- While the grab is on, the hooks have seen the pointer at some place before, the user moves, clicks,
  -- scrolls and types, the hotkey not among it, on a desk of at most 2^31 pixels, and the channel takes
  -- everything, begins empty and has been emptied: the uinput device of a Linux client of the same
  -- version, if it takes all events and its codes are distinct, is moved by exactly the way from that
  -- place at the server to the pointer's place at the end; its wheel is turned by the sum of the steps;
  -- and its keys and buttons are those of the server that have a code, in order. This holds in either
  -- build, however the connection cuts the bytes.
  pub run-linux_inject :
      {Sender : Type 0} (checks : Bool) (codes : EvdevCodes) (actions : List Action)
      (hook : HookState Sender) (tx : Sender) (p : ℤ × ℤ) (t : System Sender) (ours theirs : Hello)
      (chunks : List Bytes)
      → IsDistinct codes
      → is_grabbed hook ≡ true
      → hook.sender ≡ some tx
      → hook.last_mouse_pos ≡ some p
      → IsNearPoint p
      → AllForwarded actions
      → run checks actions (record { hook = hook; queue = []; sent = [] }) ≡ some t
      → t.queue ≡ []
      → ours.protocol_version ≡ protocol_version
      → (encode_all bincode (hello ours ∷ hello_ack true none ∷ t.sent) []).0 ≡ ok tt
      → flatten chunks ≡ (encode_all bincode (hello ours ∷ hello_ack true none ∷ t.sent) []).1
      → (es : List InputEvent) × (client_peer {E = E}
            (linux_inject codes)
            theirs
            (ok tt)
            (ok tt)
            (map ok (read_chunks bincode [] chunks).messages)
            (some [])
          ≡ ok es)
        × (let q = place actions p in
            Shows codes es (q.0 -ℤ p.0) (q.1 -ℤ p.1) (turns actions) (presses codes actions)
            × (t.hook.last_mouse_pos ≡ some q))
  run-linux_inject checks codes actions hook tx p t ours theirs chunks distinct g c l k h e drained
        v sent cut =
      let start : System _ = record { hook = hook; queue = []; sent = [] } in
      let all =
        run-client_peer bincode faithful checks actions start t (linux_inject codes) [] ours theirs
          chunks (unfold linux_inject Linux.handle in refl) g (AllForwarded-All actions h) e drained
          v sent cut in
      (
        emitted_all codes (offered_by_run checks actions start),
        all ∙ ap ok (inject_all-emitted codes (offered_by_run checks actions start) []),
        run-Shows codes distinct checks actions p start t tx c l (on_desk actions h) k e,
      )
