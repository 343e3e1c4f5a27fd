-- ===== src/Tests/App.antt =====
-- Sessions between a server and a client.
use mathlib.Core.List.{Sublist, flatten}
use dshare.Base.{
  ℕ, suc, ◌≡◌, ◌≢◌, ◌↔◌, ◌⊎◌, refl, true, false, none, some, List, [], ◌∷◌, ◌++◌, map, Result, ok,
  err, lookup, codes, decimal,
}
use dshare.Protocol.{
  Bytes, Hello, Message, hello, hello_ack, key_event, ping, ProtocolError, frame_too_large,
  protocol_version,
}
use dshare.Protocol.Codec.{encode, u32_bytes}
use dshare.Protocol.Codec.Stream.{read_chunks}
use dshare.Protocol.Codec.Transfer.{encode_all}
use dshare.Protocol.Keycode.{vk_to_evdev}
use dshare.Input.Windows.Hooks.{wm_keydown, wm_keyup, kbd_hook_proc, is_grabbed}
use dshare.Input.Linux
use dshare.App.Handshake.{Reply, frame, mismatch_reason, hello_exchange}
use dshare.App.Handshake.Outcome.{hello_exchange_outcome}
use dshare.App.Client.{InputInject, inject_loop, client_peer}
use dshare.App.Client.Delivery.{inject_all, server_peer-client_peer}
use dshare.App.Server.{
  ServerEvent, captured, capture_loop, server_peer, System, Action, key, forward, run,
}
use dshare.App.Server.Grab.{run_off, held_from, is_held, toggle_off_strands}
use dshare.App.Server.Order.{on_its_way, offered_by_run, run-sublist, run_grabbed}
use dshare.Tests.Codec.{some_bincode, some_bincode-IsFaithful, no_modifiers}
use dshare.Input.Windows.Inject
use dshare.Tests.Inject.{scan_of, linux_codes, log_events}
use dshare.Tests.Hooks.{chord, no_keys, idle}

abbrev pub ours : Hello
ours = record {
  protocol_version = 1;
  peer_id = 11;
  hostname = codes "a";
  screen = record { width = 1920; height = 1080 };
}

abbrev pub theirs : Hello
theirs = record {
  protocol_version = 1;
  peer_id = 12;
  hostname = codes "b";
  screen = record { width = 2560; height = 1440 };
}

abbrev old : Hello
old = record theirs { protocol_version = 10 }

reason_names_both : mismatch_reason 10 ≡ codes "version mismatch: peer=10 ours=1"
unfolding mismatch_reason decimal
reason_names_both = refl

hello_exchange_outcome_example :
    let (sent, end) = hello_exchange {E = ℕ} ours (ok tt) (frame (ok (hello theirs))) (ok tt) in
    ((peer : Hello)
      → (end ≡ ok peer) ↔ (
          (◌≡◌ {A = Result (Unit {0}) (ProtocolError ℕ)} (ok tt) (ok tt))
          × (◌≡◌ {A = Reply ℕ} (frame (ok (hello theirs))) (frame (ok (hello peer))))
          × (peer.protocol_version ≡ protocol_version)
          × (◌≡◌ {A = Result (Unit {0}) (ProtocolError ℕ)} (ok tt) (ok tt))))
    × ((sent ≡ hello ours ∷ [])
        ⊎ ((peer : Hello) × (◌≡◌ {A = Reply ℕ}
              (frame (ok (hello theirs)))
              (frame (ok (hello peer))))
            × (((peer.protocol_version ≡ protocol_version)
                  × (sent ≡ hello ours ∷ hello_ack true none ∷ []))
                ⊎ ((peer.protocol_version ≢ protocol_version)
                    × (sent
                        ≡ hello ours
                          ∷ hello_ack false (some (mismatch_reason peer.protocol_version))
                          ∷ [])))))
hello_exchange_outcome_example =
    hello_exchange_outcome ours (ok tt) (frame (ok (hello theirs))) (ok tt)

abbrev counting : InputInject ℕ ℕ
counting msg n = (err 0, suc n)

-- Failed injections do not end the loop; a frame that does not decode does.
goes_on_past_failures :
    inject_loop {E = ℕ} counting
      (ok (ping 1) ∷ ok (ping 2) ∷ err (frame_too_large 0) ∷ ok (ping 3) ∷ [])
      0
    ≡ 2
unfolding inject_loop
goes_on_past_failures = refl

abbrev pub typing : List (ServerEvent ℕ)
typing =
    captured (key_event 30 true no_modifiers) true (ok tt)
    ∷ captured (key_event 48 true no_modifiers) false (ok tt)
    ∷ []

abbrev session : List Message
session = hello ours ∷ hello_ack true none ∷ key_event 30 true no_modifiers ∷ []

abbrev pub session_wire : Bytes
session_wire =
    0 ∷ 0 ∷ 0 ∷ 6 ∷ 4 ∷ 1 ∷ 11 ∷ 1920 ∷ 1080 ∷ 97 ∷ 0 ∷ 0 ∷ 0 ∷ 1 ∷ 5 ∷ 0 ∷ 0 ∷ 0 ∷ 7 ∷ 3 ∷ 30 ∷ 1
    ∷ 0 ∷ 0 ∷ 0 ∷ 0 ∷ []

-- Neither backend makes anything of a HelloAck.
linux_ignores_ack : Linux.handle linux_codes log_events (hello_ack true none) [] ≡ (ok tt, [])
unfolding Linux.handle
linux_ignores_ack = refl

windows_ignores_ack : Inject.handle true scan_of (hello_ack true none) ≡ some []
unfolding Inject.handle
windows_ignores_ack = refl

server_peer-client_peer_example :
    client_peer {E = ℕ}
      (Linux.handle linux_codes log_events)
      theirs
      (ok tt)
      (ok tt)
      (map ok (read_chunks some_bincode [] (session_wire ∷ [])).messages)
      (some [])
    ≡ ok (inject_all (Linux.handle linux_codes log_events) [] (capture_loop typing))
unfolding server_peer hello_exchange encode_all encode u32_bytes flatten Linux.handle
server_peer-client_peer_example =
    server_peer-client_peer some_bincode some_bincode-IsFaithful
      (Linux.handle linux_codes log_events) [] ours theirs typing (session_wire ∷ []) refl refl refl
      refl refl

-- The server just after the grab was switched on by the hotkey, with Ctrl down at the peer.
abbrev pub grabbing : System ℕ
grabbing = record {
  hook = record idle { grabbed = some true };
  queue = [];
  sent = key_event 29 true no_modifiers ∷ [];
}

abbrev letting_go : List Action
letting_go = key wm_keyup 0xA2 no_keys true ∷ forward ∷ []

abbrev let_go : System ℕ
let_go = record grabbing { hook = idle }

toggle_off_strands_example : is_held 29 let_go.sent ≡ true
unfolding run kbd_hook_proc vk_to_evdev lookup held_from
toggle_off_strands_example =
    toggle_off_strands true (key wm_keydown 0x47 chord true) letting_go grabbing let_go 29 refl refl
      (refl, (refl, tt)) refl refl

run_off_example : (let_go.sent ≡ let_go.sent) × (is_grabbed let_go.hook ≡ false)
unfolding run kbd_hook_proc vk_to_evdev lookup
run_off_example = run_off true letting_go let_go let_go refl (refl, (refl, tt)) refl

abbrev after_typing : System ℕ
after_typing = record grabbing {
  sent = key_event 29 true no_modifiers ∷ key_event 30 true no_modifiers ∷ [];
}

run-sublist_example : Sublist (on_its_way after_typing) (
    on_its_way grabbing
    ++ offered_by_run true (key wm_keydown 0x41 no_keys true ∷ forward ∷ []) grabbing)
unfolding run kbd_hook_proc vk_to_evdev lookup
run-sublist_example =
    run-sublist true (key wm_keydown 0x41 no_keys true ∷ forward ∷ []) grabbing after_typing refl

run_grabbed_example :
    on_its_way after_typing
    ≡ on_its_way grabbing
      ++ offered_by_run true (key wm_keydown 0x41 no_keys true ∷ forward ∷ []) grabbing
unfolding run kbd_hook_proc vk_to_evdev lookup
run_grabbed_example =
    run_grabbed true (key wm_keydown 0x41 no_keys true ∷ forward ∷ []) grabbing after_typing refl
      ((refl, refl), ((refl, refl), tt)) refl
