-- ===== src/Input/Windows/Delivery.antt =====
-- What SendInput is given for the messages that the capture side makes.
use dshare.Base.{
  ℕ, ◌%◌, ◌^◌, ◌≡◌, refl, Bool, true, not, none, some, [], ◌∷◌, ℤ, pos, ◌*ℤ◌, IsI32, if◌then◌else◌,
  ◌↔◌, arith,
}
use dshare.Protocol.{Message, mouse_move, mouse_button, mouse_wheel, key_event, KeyModifiers}
use dshare.Protocol.Keycode.{vk_to_evdev}
use dshare.Protocol.Keycode.Table.{vk_to_evdev_range}
use dshare.Input.Windows.Keys.{is_extended_vk}
use dshare.Input.Windows.RoundTrip.{is_punctuation, evdev_to_vk-vk_to_evdev}
use dshare.Input.Windows.Inject.{Input, keyboard, handle}

-- The scan code of the key itself, as a press or a release.
abbrev pub key_input : (ℕ → ℕ) → ℕ → Bool → Input
key_input map_virtual_key vk pressed = keyboard (record {
  virtual_key = 0;
  scan = map_virtual_key vk % 2 ^ 16;
  flags = record { scan_code = true; key_up = not pressed; extended_key = is_extended_vk vk };
  time = 0;
  extra_info = 0;
})

-- A key that one Windows machine captures another one presses or releases by that key's own scan
-- code, except that a punctuation key is dropped without an error.
pub vk_to_evdev-handle :
    (checks : Bool) (map_virtual_key : ℕ → ℕ) (vk code : ℕ) (pressed : Bool)
    (modifiers : KeyModifiers)
    → vk_to_evdev vk ≡ some code
    → handle checks map_virtual_key (key_event code pressed modifiers)
      ≡ some (if is_punctuation vk then [] else key_input map_virtual_key vk pressed ∷ [])
unfolding handle
vk_to_evdev-handle checks map_virtual_key vk code pressed modifiers e =
    ground (arith, vk_to_evdev_range vk code e, evdev_to_vk-vk_to_evdev vk code e)

-- `handle` panics in one case only: overflow is checked, and 120 times the wheel's steps is no i32.
handle-eq-none_iff :
    (checks : Bool) (map_virtual_key : ℕ → ℕ) (msg : Message)
    → (handle checks map_virtual_key msg ≡ none) ↔ (
        (checks ≡ true)
        × ((dx : ℤ) × (dy : ℤ) × (msg ≡ mouse_wheel dx dy) × ¬ IsI32 (dy *ℤ pos 120)))
unfolding handle
handle-eq-none_iff checks map_virtual_key msg = (only msg, λ h. overflow h)
  where
    only :
        (msg : Message)
        → handle checks map_virtual_key msg ≡ none
        → (checks ≡ true)
          × ((dx : ℤ) × (dy : ℤ) × (msg ≡ mouse_wheel dx dy) × ¬ IsI32 (dy *ℤ pos 120))
    only (mouse_wheel dx dy) e = (ground arith, (dx, dy, refl, λ r. ground arith))
    only (mouse_move dx dy) e = absurd (ground arith)
    only (mouse_button button pressed) e = absurd (ground arith)
    only (key_event keycode pressed modifiers) e = absurd (ground arith)
    only _ e = absurd (ground arith)

    overflow :
        (checks ≡ true)
          × ((dx : ℤ) × (dy : ℤ) × (msg ≡ mouse_wheel dx dy) × ¬ IsI32 (dy *ℤ pos 120))
        → handle checks map_virtual_key msg ≡ none
    overflow h = ground arith
