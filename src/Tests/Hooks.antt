-- ===== src/Tests/Hooks.antt =====
-- The hook callbacks.
use dshare.Base.{ℕ, ◌≡◌, ◌↔◌, ◌⊎◌, refl, true, false, none, some, ℤ, pos, ◌*ℤ◌}
use dshare.Protocol.{Message, mouse_wheel, key_event}
use dshare.Protocol.Keycode.{vk_to_evdev}
use dshare.Input.Windows.Inject.{handle, send_mouse, wheel}
use dshare.Input.Windows.Hooks.{
  HookState, swallow, wm_keydown, VirtualKey, vk_shift, vk_control, vk_menu, wheel_delta,
  wheel_steps, is_grabbed, is_pressed, is_released, toggled, kbd_hook_proc, read_current_modifiers,
}
use dshare.Input.Windows.Hooks.Grab.{IsHotkey, kbd_hook_proc_decides, wheel_steps-handle}

-- Ctrl, Alt and Shift are down; and no key is.
abbrev pub chord : VirtualKey → ℕ
chord vk_shift = 0x8000
chord vk_control = 0x8001
chord vk_menu = 0x8000
chord _ = 0

abbrev pub no_keys : VirtualKey → ℕ
no_keys vk = 0

abbrev pub idle : HookState ℕ
idle = record { sender = some 7; grabbed = some false; last_mouse_pos = none }

hotkey_toggles : (kbd_hook_proc true wm_keydown 0x47 chord idle).state.grabbed ≡ some true
unfolding kbd_hook_proc
hotkey_toggles = refl

-- The press of A, while the grab is off.
kbd_hook_proc_decides_example :
    let out = kbd_hook_proc true wm_keydown 0x41 no_keys idle in
    let m = read_current_modifiers no_keys in
    ((out.result ≡ swallow) ↔ ((is_grabbed idle ≡ true) ⊎ IsHotkey wm_keydown 0x41 m))
    × ((IsHotkey wm_keydown 0x41 m
          × (out.state ≡ record idle { grabbed = toggled idle.grabbed })
          × (out.offered ≡ none))
        ⊎ (¬ IsHotkey wm_keydown 0x41 m × (out.state ≡ idle)))
    × ((tx : ℕ) (msg : Message)
        → (out.offered ≡ some (tx, msg)) ↔ (
            (idle.sender ≡ some tx)
            × ((is_pressed wm_keydown ≡ true) ⊎ (is_released wm_keydown ≡ true))
            × ¬ IsHotkey wm_keydown 0x41 m
            × ((code : ℕ) × (vk_to_evdev 0x41 ≡ some code)
                × (msg ≡ key_event code (is_pressed wm_keydown) m))))
kbd_hook_proc_decides_example = kbd_hook_proc_decides wm_keydown 0x41 no_keys idle

-- A turn by -240 units, and one by 60, which is no whole step and moves nothing.
small_turn_is_lost : wheel_steps 0x003C_0000 ≡ pos 0
unfolding wheel_steps
small_turn_is_lost = refl

wheel_steps-handle_example :
    (handle true (λ vk. vk) (mouse_wheel (pos 0) (wheel_steps 0xFF10_0000))
      ≡ some (send_mouse wheel (pos 0) (pos 0) (wheel_steps 0xFF10_0000 *ℤ pos 120)))
    × ((steps : ℤ)
        → wheel_delta 0xFF10_0000 ≡ steps *ℤ pos 120
        → wheel_steps 0xFF10_0000 *ℤ pos 120 ≡ wheel_delta 0xFF10_0000)
wheel_steps-handle_example = wheel_steps-handle true (λ vk. vk) 0xFF10_0000
