-- ===== src/Tests/Peers.antt =====
-- A chain of hooks that calls them newest first, and two peers on it.
use dshare.App.Server.Peers.Lockout.{newer_peer_locks}
use dshare.Base.{
  pos, ◌<◌, List, ◌++◌, length, ℕ, true, false, none, some, [], ◌∷◌, ◌≡◌, refl, All, map,
}
use dshare.Input.Windows.Hooks.{
  HookState, swallow, call_next, VirtualKey, vk_lwin, vk_rwin, hotkey_vk, is_grabbed, kbd_hook_proc,
  read_current_modifiers, wm_keydown, wm_keyup, wm_mousewheel,
}
use dshare.App.Server.Peers.{
  HookChain, IsHookChain, KeyEvent, installed, PeerEvent, MouseEvent, moved, typed, connected,
  disconnected, without, run_peers,
}

abbrev newest_first : HookChain ℕ
newest_first proc [] = ([], call_next)
newest_first proc (hook ∷ older) =
    let (states, result) = newest_first proc older in
    let out = proc hook in
    elim out.result [
      | swallow ↦ (out.state ∷ older, swallow)
      | call_next ↦ (out.state ∷ states, result)
    ]

newest_first-IsHookChain : IsHookChain newest_first
newest_first-IsHookChain = record {
  no_hook = λ proc. refl;
  swallowed = λ proc hook older h. rw (h, newest_first) refl;
  passed_on = λ proc hook older h. rw (h, newest_first) refl;
}

abbrev controlled : HookState ℕ
controlled = record { sender = some 1; grabbed = some true; last_mouse_pos = none }

-- Ctrl, Alt and Shift are down, the Windows keys are not.
abbrev three_down : VirtualKey → ℕ
three_down vk_lwin = 0
three_down vk_rwin = 0
three_down _ = 0x8000

abbrev hotkey : KeyEvent
hotkey = record { wparam = wm_keydown; vk_code = hotkey_vk; async_key_state = three_down }

abbrev letter : KeyEvent
letter = record { wparam = wm_keyup; vk_code = 0x41; async_key_state = λ vk. 0 }

-- With one peer the hotkey ends its grab; with a second one it goes to that one instead.
hotkey_alone :
    map (λ h. is_grabbed h) (run_peers newest_first (typed hotkey ∷ []) (controlled ∷ [])).0
    ≡ false ∷ []
unfolding run_peers kbd_hook_proc read_current_modifiers
hotkey_alone = refl

hotkey_behind :
    map
      (λ h. is_grabbed h)
      (run_peers newest_first
        (connected 2 ∷ typed hotkey ∷ typed letter ∷ typed hotkey ∷ [])
        (controlled ∷ [])).0
    ≡ false ∷ true ∷ []
unfolding run_peers kbd_hook_proc read_current_modifiers installed
hotkey_behind = refl

-- Once the second peer has left, the hotkey ends the first one's grab.
hotkey_again :
    map
      (λ h. is_grabbed h)
      (run_peers newest_first
        (connected 2 ∷ typed hotkey ∷ disconnected 0 ∷ typed hotkey ∷ typed letter ∷ [])
        (controlled ∷ [])).0
    ≡ false ∷ []
unfolding run_peers kbd_hook_proc read_current_modifiers installed without
hotkey_again = refl

abbrev turn : MouseEvent
turn = record { wparam = wm_mousewheel; cur_pos = (pos 3, pos 4); mouse_data = 0x780000 }

abbrev coming_and_going : List (PeerEvent ℕ)
coming_and_going =
    typed hotkey
    ∷ moved turn
    ∷ connected 3
    ∷ typed letter
    ∷ disconnected 1
    ∷ typed hotkey
    ∷ disconnected 2
    ∷ typed letter
    ∷ []

abbrev second : HookState ℕ
second = record { sender = some 2; grabbed = some false; last_mouse_pos = none }

newer_peer_locks_example :
    let (after, results) =
      run_peers newest_first coming_and_going (second ∷ controlled ∷ second ∷ []) in
    All (λ r. r ≡ swallow) results
    × (newer' : List (HookState ℕ)) × (old' : HookState ℕ) × (older' : List (HookState ℕ)) × (after
        ≡ newer' ++ old' ∷ older')
    × (0 < length newer')
    × (old'.grabbed ≡ some true)
    × (old'.sender ≡ controlled.sender)
newer_peer_locks_example =
    newer_peer_locks newest_first newest_first-IsHookChain coming_and_going (second ∷ []) controlled
      (second ∷ []) ((false, refl), tt) refl refl
