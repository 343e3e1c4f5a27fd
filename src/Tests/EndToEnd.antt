-- ===== src/Tests/EndToEnd.antt =====
-- From the hooks to the client's device.
use mathlib.Core.List.{flatten}
use dshare.Base.{
  arith, pos, negsuc, ◌-ℤ◌, ◌+ℤ◌, ℕ, ◌≡◌, refl, true, some, List, [], ◌∷◌, ◌++◌, map, ok, lookup,
}
use dshare.Protocol.{Bytes, key_event, mouse_move}
use dshare.Protocol.Codec.{encode, u32_bytes}
use dshare.Protocol.Codec.Stream.{read_chunks}
use dshare.Protocol.Codec.Transfer.{encode_all}
use dshare.Protocol.Keycode.{vk_to_evdev}
use dshare.Input.Windows.Hooks.{
  HookState, wm_keydown, wm_mousemove, kbd_hook_proc, mouse_hook_proc, mouse_message,
}
use dshare.Input.Linux
use dshare.App.Client.{client_peer}
use dshare.App.Client.Delivery.{inject_all}
use dshare.App.Server.{System, Action, key, mouse, forward, run}
use dshare.App.EndToEnd.{run-client_peer}
use dshare.Input.Linux.{InputEvent}
use dshare.Input.Linux.Emission.{IsDistinct}
use dshare.App.EndToEnd.ToLinux.{linux_inject, pressed, turn}
use dshare.App.EndToEnd.ToLinux.Messages.{Shows}
use dshare.App.EndToEnd.ToLinux.Delivery.{run-linux_inject}
use dshare.App.EndToEnd.ToWindows.{win_inject, inputs_of, strokes, turned_or_clicked}
use dshare.App.EndToEnd.ToWindows.Delivery.{run-win_inject}
use dshare.Input.Windows.Delivery.{key_input}
use dshare.Input.Windows.Inject.{send_mouse, move}
use dshare.App.Server.Order.{on_its_way, offered_by_run}
use dshare.Tests.Codec.{some_bincode, some_bincode-IsFaithful, no_modifiers}
use dshare.Tests.Inject.{scan_of, linux_codes, log_events}
use dshare.Tests.Hooks.{no_keys}
use dshare.Tests.App.{ours, theirs, session_wire, grabbing}

-- A session that begins while the grab is on: A is pressed, and the loop forwards it.
abbrev fresh : System ℕ
fresh = record grabbing { sent = [] }

abbrev typed : System ℕ
typed = record fresh { sent = key_event 30 true no_modifiers ∷ [] }

run-client_peer_example :
    client_peer {E = ℕ}
      (Linux.handle linux_codes log_events)
      theirs
      (ok tt)
      (ok tt)
      (map ok (read_chunks some_bincode [] (session_wire ∷ [])).messages)
      (some [])
    ≡ ok (
        inject_all (Linux.handle linux_codes log_events) [] (
          on_its_way fresh
          ++ offered_by_run true (key wm_keydown 0x41 no_keys true ∷ forward ∷ []) fresh))
unfolding run kbd_hook_proc vk_to_evdev lookup encode_all encode u32_bytes flatten Linux.handle
run-client_peer_example =
    run-client_peer some_bincode some_bincode-IsFaithful true
      (key wm_keydown 0x41 no_keys true ∷ forward ∷ []) fresh typed
      (Linux.handle linux_codes log_events) [] ours theirs (session_wire ∷ []) refl refl
      ((refl, refl), ((refl, refl), tt)) refl refl refl refl refl

abbrev typing_a : List Action
typing_a = key wm_keydown 0x41 no_keys true ∷ forward ∷ []

-- The pointer has been seen at (3, 4), moves to (10, 2), and A is pressed there.
abbrev seen : HookState ℕ
seen = record grabbing.hook { last_mouse_pos = some (pos 3, pos 4) }

abbrev playing : List Action
playing = mouse wm_mousemove (pos 10, pos 2) 0 true ∷ forward ∷ typing_a

abbrev played : System ℕ
played = record {
  hook = record seen { last_mouse_pos = some (pos 10, pos 2) };
  queue = [];
  sent = mouse_move (pos 7) (negsuc 1) ∷ key_event 30 true no_modifiers ∷ [];
}

abbrev played_wire : Bytes
played_wire =
    0 ∷ 0 ∷ 0 ∷ 6 ∷ 4 ∷ 1 ∷ 11 ∷ 1920 ∷ 1080 ∷ 97 ∷ 0 ∷ 0 ∷ 0 ∷ 1 ∷ 5 ∷ 0 ∷ 0 ∷ 0 ∷ 5 ∷ 6 ∷ 0 ∷ 7
    ∷ 1 ∷ 1 ∷ 0 ∷ 0 ∷ 0 ∷ 7 ∷ 3 ∷ 30 ∷ 1 ∷ 0 ∷ 0 ∷ 0 ∷ 0 ∷ []

linux_codes-IsDistinct : IsDistinct linux_codes
linux_codes-IsDistinct = omega arith

run-linux_inject_example :
    (es : List InputEvent) × (client_peer {E = ℕ}
        (linux_inject linux_codes)
        theirs
        (ok tt)
        (ok tt)
        (map ok (read_chunks some_bincode [] (played_wire ∷ [])).messages)
        (some [])
      ≡ ok es)
    × (Shows linux_codes es (pos 7) (negsuc 1) (pos 0) ((30, pos 1) ∷ [])
        × (played.hook.last_mouse_pos ≡ some (pos 10, pos 2)))
unfolding run kbd_hook_proc mouse_hook_proc mouse_message vk_to_evdev lookup encode_all encode
    u32_bytes flatten pressed turn ◌-ℤ◌ ◌+ℤ◌
run-linux_inject_example =
    run-linux_inject some_bincode some_bincode-IsFaithful true linux_codes playing seen 7
      (pos 3, pos 4) played ours theirs (played_wire ∷ []) linux_codes-IsDistinct refl refl refl
      (omega arith)
      ((refl, refl, omega arith), ((refl, refl, tt), ((refl, refl, tt), ((refl, refl, tt), tt))))
      refl refl refl refl refl

run-win_inject_example :
    client_peer {E = ℕ}
      (win_inject scan_of)
      theirs
      (ok tt)
      (ok tt)
      (map ok (read_chunks some_bincode [] (played_wire ∷ [])).messages)
      (some [])
    ≡ ok (strokes scan_of (pos 3, pos 4) playing)
unfolding run kbd_hook_proc mouse_hook_proc mouse_message vk_to_evdev lookup encode_all encode
    u32_bytes flatten ◌-ℤ◌ ◌+ℤ◌
run-win_inject_example =
    run-win_inject some_bincode some_bincode-IsFaithful true scan_of playing seen 7 (pos 3, pos 4)
      played ours theirs (played_wire ∷ []) refl refl refl (omega arith)
      ((refl, refl, omega arith), ((refl, refl, tt), ((refl, refl, tt), ((refl, refl, tt), tt))))
      refl refl refl refl refl

-- The pointer goes as far there, and A is pressed by its scan code.
strokes-playing :
    strokes scan_of (pos 3, pos 4) playing
    ≡ send_mouse move (pos 7) (negsuc 1) (pos 0) ++ key_input scan_of 0x41 true ∷ []
unfolding strokes inputs_of turned_or_clicked vk_to_evdev lookup ◌-ℤ◌ ◌+ℤ◌
strokes-playing = refl
