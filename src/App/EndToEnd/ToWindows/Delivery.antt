-- ===== src/App/EndToEnd/ToWindows/Delivery.antt =====
-- From the mouse and the keyboard of a Windows server to SendInput on a Windows client.
use mathlib.Core.List.{flatten}
use dshare.Base.{ℕ, ◌≡◌, refl, ap, ◌∙◌, Bool, true, none, some, List, [], ◌∷◌, map, ok, ℤ}
use dshare.Protocol.{Bytes, Hello, hello, hello_ack, protocol_version}
use dshare.Protocol.Codec.{Bincode, IsFaithful}
use dshare.Protocol.Codec.Stream.{read_chunks}
use dshare.Protocol.Codec.Transfer.{encode_all}
use dshare.Input.Windows.Inject
use dshare.Input.Windows.Hooks.{HookState, is_grabbed}
use dshare.App.Client.{client_peer}
use dshare.App.Server.{System, Action, run}
use dshare.App.EndToEnd.{run-client_peer}
use dshare.App.EndToEnd.Desk.{IsNearPoint, AllForwarded, AllForwarded-All, on_desk}
use dshare.App.EndToEnd.ToWindows.{win_inject, strokes}
use dshare.App.EndToEnd.ToWindows.Steps.{inject_run}

module _ {E : Type 0} (bincode : Bincode E) (faithful : IsFaithful bincode) where
  -- Between two Windows machines of the same version, a release build at the client: while the grab
  -- is on, the hooks have seen the pointer at some place before, the user moves, clicks, scrolls and
  -- types, the hotkey not among it, on a desk of at most 2^31 pixels, and the channel takes everything,
  -- begins empty and has been emptied, the client gives to SendInput exactly this, in order and however
  -- the connection cuts the bytes: each way that the pointer makes from that place on, each button,
  -- 120 for each step of the wheel, and each press and release of a key by its scan code, less the keys
  -- without a code and the punctuation keys.
  pub run-win_inject :
      {Sender : Type 0} (checks : Bool) (map_virtual_key : ℕ → ℕ) (actions : List Action)
      (hook : HookState Sender) (tx : Sender) (p : ℤ × ℤ) (t : System Sender) (ours theirs : Hello)
      (chunks : List Bytes)
      → is_grabbed hook ≡ true
      → hook.sender ≡ some tx
      → hook.last_mouse_pos ≡ some p
      → IsNearPoint p
      → AllForwarded actions
      → run checks actions (record { hook = hook; queue = []; sent = [] }) ≡ some t
      → t.queue ≡ []
      → ours.protocol_version ≡ protocol_version
      → (encode_all bincode (hello ours ∷ hello_ack true none ∷ t.sent) []).0 ≡ ok tt
      → flatten chunks ≡ (encode_all bincode (hello ours ∷ hello_ack true none ∷ t.sent) []).1
      → client_peer {E = E}
          (win_inject map_virtual_key)
          theirs
          (ok tt)
          (ok tt)
          (map ok (read_chunks bincode [] chunks).messages)
          (some [])
        ≡ ok (strokes map_virtual_key p actions)
  run-win_inject checks map_virtual_key actions hook tx p t ours theirs chunks g c l k h e drained v
        sent cut =
      let start : System _ = record { hook = hook; queue = []; sent = [] } in
      let all =
        run-client_peer bincode faithful checks actions start t (win_inject map_virtual_key) [] ours
          theirs chunks (unfold win_inject Inject.handle in refl) g (AllForwarded-All actions h) e
          drained v sent cut in
      all
      ∙ ap ok
          (inject_run map_virtual_key checks actions p start t tx [] c l (on_desk actions h) k e)
