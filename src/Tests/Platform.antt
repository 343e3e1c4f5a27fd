-- ===== src/Tests/Platform.antt =====
-- A server's session on each platform, and the device that a Linux client opens.
use dshare.Base.{ℕ, true, false, none, List, [], ◌∷◌, ◌++◌, ◌≡◌, refl, ok, All, arith, pos, lookup}
use dshare.Protocol.{Message, hello, hello_ack, ping, key_event}
use dshare.Protocol.Keycode.{vk_to_evdev}
use dshare.Input.Backend.{windows}
use dshare.Input.Linux.{InputEvent, events, registered_keys, key}
use dshare.Input.Linux.Device.{Uinput, registered_axes, new_inject}
use dshare.Input.Linux.Device.Registered.{Reports, HasButtons, accepts, new_inject-accepts}
use dshare.App.Handshake.{frame}
use dshare.App.Server.{ServerEvent, captured, inbound, peer_closed, server_peer}
use dshare.App.Server.Merge.{Merge, neither, from_left, from_right}
use dshare.App.Platform.{channel_of, has_capture, forwardable, session_end, server_peer-forwardable}
use dshare.Tests.App.{ours, theirs, typing}
use dshare.Tests.Codec.{no_modifiers}
use dshare.Tests.Inject.{linux_codes}

-- On Windows, with a ping and then the end of the peer's stream between the captured keys.
abbrev from_peer : List (ServerEvent ℕ)
from_peer = inbound (ok (ping 1)) ∷ peer_closed ∷ []

abbrev seen : List (ServerEvent ℕ)
seen =
    inbound (ok (ping 1))
    ∷ captured (key_event 30 true no_modifiers) true (ok tt)
    ∷ peer_closed
    ∷ captured (key_event 48 true no_modifiers) false (ok tt)
    ∷ []

seen-Merge : Merge (channel_of windows typing) from_peer seen
unfolding channel_of
seen-Merge = from_right (from_left (from_right (from_left neither)))

server_peer-forwardable_example :
    let (sent, end) =
      server_peer ours (ok tt) (frame (ok (hello theirs))) (ok tt) (has_capture windows) seen in
    (rest : List Message) × (sent ++ rest
      ≡ hello ours ∷ hello_ack true none ∷ forwardable windows typing)
    × (end ≡ session_end windows)
server_peer-forwardable_example =
    server_peer-forwardable windows ours theirs typing refl seen-Merge (refl, (refl, tt))

-- A uinput on which nothing fails: a builder and a device are their keys and axes.
abbrev some_uinput : Uinput (List ℕ × List ℕ) (List ℕ × List ℕ) ℕ
some_uinput = record {
  open_uinput = ok ([], []);
  name = λ n b. b;
  with_keys = λ ks b. ok (ks, b.1);
  with_relative_axes = λ rs b. ok (b.0, rs);
  build = λ b. ok b;
}

keys_are_set :
    (ks : List ℕ) (b b' : List ℕ × List ℕ) → some_uinput.with_keys ks b ≡ ok b' → b'.0 ≡ ks
keys_are_set ks b b' h = ground arith

axes_are_set :
    (rs : List ℕ) (b b' : List ℕ × List ℕ)
    → some_uinput.with_relative_axes rs b ≡ ok b'
    → (b'.1 ≡ rs) × (b'.0 ≡ b.0)
axes_are_set rs b b' h = ground arith

builds_itself : (b d : List ℕ × List ℕ) → some_uinput.build b ≡ ok d → (d.0 ≡ b.0) × (d.1 ≡ b.1)
builds_itself b d h = ground arith

abbrev some_uinput-Reports : Reports some_uinput
some_uinput-Reports = record {
  built_keys = λ b. b.0;
  built_axes = λ b. b.1;
  keys = λ d. d.0;
  axes = λ d. d.1;
  name_keeps = λ n b. refl;
  keys_set = keys_are_set;
  axes_set = axes_are_set;
  built = builds_itself;
}

linux_codes-HasButtons : HasButtons linux_codes
linux_codes-HasButtons = record {
  left_in = omega arith;
  right_in = omega arith;
  middle_in = omega arith;
  side_in = omega arith;
  extra_in = omega arith;
}

abbrev press_a : List InputEvent
press_a = record { event_type = key; code = 30; value = pos 1 } ∷ []

new_inject-accepts_example :
    All (λ e. accepts registered_keys (registered_axes linux_codes) e ≡ true) press_a
unfolding new_inject events vk_to_evdev lookup
new_inject-accepts_example =
    new_inject-accepts linux_codes (λ e. e) some_uinput
      (registered_keys, registered_axes linux_codes) (key_event 30 true no_modifiers) press_a
      some_uinput-Reports linux_codes-HasButtons refl (0x41, refl) refl
