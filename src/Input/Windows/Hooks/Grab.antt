-- ===== src/Input/Windows/Hooks/Grab.antt =====
-- When the callbacks swallow an event, toggle the flag and offer a message.
use dshare.Base.{
  ℕ, ◌≡◌, ◌↔◌, ◌⊎◌, inl, inr, refl, Bool, true, false, none, some, ℤ, pos, ◌*ℤ◌, arith, Bool-cases,
  Option-cases,
}
use dshare.Protocol.{Message, KeyModifiers, mouse_wheel, key_event}
use dshare.Protocol.Keycode.{vk_to_evdev}
use dshare.Input.Windows.Inject.{handle, send_mouse, wheel}
use dshare.Input.Windows.Hooks.{
  HookState, swallow, WindowMessage, wm_keydown, wm_syskeydown, VirtualKey, wheel_delta,
  wheel_steps, is_grabbed, kbd_hook_proc, hotkey_vk, is_pressed, is_released, is_hotkey, toggled,
  read_current_modifiers,
}

-- A press of Ctrl+Alt+Shift+G.
abbrev pub IsHotkey : WindowMessage → ℕ → KeyModifiers → Type 0
IsHotkey w vk_code m =
    ((w ≡ wm_keydown) ⊎ (w ≡ wm_syskeydown))
    × (vk_code ≡ hotkey_vk)
    × (m.ctrl ≡ true)
    × (m.alt ≡ true)
    × (m.shift ≡ true)

module _ {Sender : Type 0} where
  -- A key event is kept from the local applications exactly while the grab is on, and for the
  -- hotkey itself; that holds whether or not the key has a code and a message can be sent.
  kbd_hook_proc_swallows :
      (w : WindowMessage) (vk_code : ℕ) (async_key_state : VirtualKey → ℕ) (s : HookState Sender)
      → ((kbd_hook_proc true w vk_code async_key_state s).result ≡ swallow)
        ↔ ((is_grabbed s ≡ true) ⊎ IsHotkey w vk_code (read_current_modifiers async_key_state))
  unfolding kbd_hook_proc
  kbd_hook_proc_swallows w vk_code async_key_state s = (λ h. ground arith, λ h. ground arith)

  -- The hotkey flips the flag that is set up and sends nothing; no other key event changes the state.
  kbd_hook_proc_toggles :
      (action : Bool) (w : WindowMessage) (vk_code : ℕ) (async_key_state : VirtualKey → ℕ)
      (s : HookState Sender)
      → let out = kbd_hook_proc action w vk_code async_key_state s in
        ((action ≡ true)
          × IsHotkey w vk_code (read_current_modifiers async_key_state)
          × (out.state ≡ record s { grabbed = toggled s.grabbed })
          × (out.offered ≡ none))
        ⊎ (¬ ((action ≡ true) × IsHotkey w vk_code (read_current_modifiers async_key_state))
            × (out.state ≡ s))
  unfolding kbd_hook_proc
  kbd_hook_proc_toggles false w vk_code async_key_state s = inr (λ h. ground arith, refl)
  kbd_hook_proc_toggles true w vk_code async_key_state s =
      elim (Bool-cases (is_hotkey w vk_code (read_current_modifiers async_key_state))) [
        | inl h ↦ inl (ground arith)
        | inr h ↦ inr (λ k. ground arith, ground arith)
      ]

  -- A message is offered exactly for the press or release of a key with a code that is not the
  -- hotkey, whatever the grab flag is: the code, whether it is a press, and the modifiers.
  kbd_hook_proc_offers :
      (w : WindowMessage) (vk_code : ℕ) (async_key_state : VirtualKey → ℕ) (s : HookState Sender)
      (tx : Sender) (msg : Message)
      → let m = read_current_modifiers async_key_state in
        ((kbd_hook_proc true w vk_code async_key_state s).offered ≡ some (tx, msg)) ↔ (
          (s.sender ≡ some tx)
          × ((is_pressed w ≡ true) ⊎ (is_released w ≡ true))
          × ¬ IsHotkey w vk_code m
          × ((code : ℕ) × (vk_to_evdev vk_code ≡ some code)
              × (msg ≡ key_event code (is_pressed w) m)))
  unfolding kbd_hook_proc
  kbd_hook_proc_offers w vk_code async_key_state s tx msg = (
    λ h. elim (Option-cases (vk_to_evdev vk_code)) [
      | inl e ↦ absurd (ground arith)
      | inr (code, e) ↦ (ground arith, ground arith, λ k. ground arith, (code, e, ground arith))
    ],
    λ h. ground arith,
  )

module _ {Sender : Type 0} where
  -- What the keyboard callback does with an event. It keeps it from the local applications exactly
  -- while the grab is on and for the hotkey itself. The hotkey flips the flag that is set up and
  -- offers nothing; no other event changes the state. A message is offered exactly for the press or
  -- release of a key with a code that is not the hotkey, whatever the flag is: the code, whether it
  -- is a press, and the modifiers.
  pub kbd_hook_proc_decides :
      (w : WindowMessage) (vk_code : ℕ) (async_key_state : VirtualKey → ℕ) (s : HookState Sender)
      → let out = kbd_hook_proc true w vk_code async_key_state s in
        let m = read_current_modifiers async_key_state in
        ((out.result ≡ swallow) ↔ ((is_grabbed s ≡ true) ⊎ IsHotkey w vk_code m))
        × ((IsHotkey w vk_code m
              × (out.state ≡ record s { grabbed = toggled s.grabbed })
              × (out.offered ≡ none))
            ⊎ (¬ IsHotkey w vk_code m × (out.state ≡ s)))
        × ((tx : Sender) (msg : Message)
            → (out.offered ≡ some (tx, msg)) ↔ (
                (s.sender ≡ some tx)
                × ((is_pressed w ≡ true) ⊎ (is_released w ≡ true))
                × ¬ IsHotkey w vk_code m
                × ((code : ℕ) × (vk_to_evdev vk_code ≡ some code)
                    × (msg ≡ key_event code (is_pressed w) m))))
  kbd_hook_proc_decides w vk_code async_key_state s = (
    kbd_hook_proc_swallows w vk_code async_key_state s,
    elim (kbd_hook_proc_toggles true w vk_code async_key_state s) [
      | inl (a, h, flipped, offers) ↦ inl (h, flipped, offers)
      | inr (n, same) ↦ inr (λ h. n (refl, h), same)
    ],
    λ tx msg. kbd_hook_proc_offers w vk_code async_key_state s tx msg,
  )

-- Between two Windows machines the wheel does not panic, and turns by what was captured less what
-- exceeds a multiple of 120 units: exactly as far if the captured turn is such a multiple.
pub wheel_steps-handle :
    (checks : Bool) (map_virtual_key : ℕ → ℕ) (mouse_data : ℕ)
    → (handle checks map_virtual_key (mouse_wheel (pos 0) (wheel_steps mouse_data))
        ≡ some (send_mouse wheel (pos 0) (pos 0) (wheel_steps mouse_data *ℤ pos 120)))
      × ((steps : ℤ)
          → wheel_delta mouse_data ≡ steps *ℤ pos 120
          → wheel_steps mouse_data *ℤ pos 120 ≡ wheel_delta mouse_data)
unfolding handle wheel_steps ◌*ℤ◌
wheel_steps-handle checks map_virtual_key mouse_data = (ground arith, λ steps e. ground arith)
