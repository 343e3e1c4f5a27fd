-- ===== src/Input/Windows/Inject.antt =====
-- `WinInject`: the inputs that a message hands to SendInput, and MapVirtualKeyW as an argument.
-- A message is handed over by at most one call, whose result the source ignores. `none` is a panic.
use dshare.Base.{
  ℕ, ◌%◌, ◌^◌, Bool, true, false, not, Option, none, some, List, [], ◌∷◌, ℤ, pos, mul_i32, to_u32,
  leb, if◌then◌else◌, ◌>>=◌,
}
use dshare.Protocol.{
  Message, MouseButton, mouse_move, mouse_button, mouse_wheel, key_event, left, right, middle,
}
use dshare.Input.Windows.Keys.{evdev_to_vk, is_extended_vk}

-- One constructor for each MOUSEEVENTF flag that the source names.
pub data MouseEventFlag : Type 0 where
  move left_down left_up right_down right_up middle_down middle_up wheel : MouseEventFlag

-- MOUSEINPUT.
pub record MouseInput : Type 0 where
  pub dx : ℤ
  pub dy : ℤ
  pub mouse_data : ℕ
  pub flags : MouseEventFlag
  pub time : ℕ
  pub extra_info : ℕ

-- The KEYEVENTF flags that are set.
pub record KeyEventFlags : Type 0 where
  pub scan_code : Bool
  pub key_up : Bool
  pub extended_key : Bool

-- KEYBDINPUT.
pub record KeyboardInput : Type 0 where
  pub virtual_key : ℕ
  pub scan : ℕ
  pub flags : KeyEventFlags
  pub time : ℕ
  pub extra_info : ℕ

pub data Input : Type 0 where
  mouse : MouseInput → Input
  keyboard : KeyboardInput → Input

unfoldable pub send_mouse : MouseEventFlag → (dx dy delta : ℤ) → List Input
send_mouse flags dx dy delta =
    mouse (record {
      dx = dx;
      dy = dy;
      mouse_data = to_u32 delta;
      flags = flags;
      time = 0;
      extra_info = 0;
    })
    ∷ []

-- `MapVirtualKeyW(vk, MAPVK_VK_TO_VSC) as u16`
unfoldable pub send_key : (ℕ → ℕ) → ℕ → Bool → List Input
send_key map_virtual_key evdev_code pressed = elim (evdev_to_vk evdev_code) [
  | none ↦ []
  | some vk ↦
      keyboard (record {
        virtual_key = 0;
        scan = map_virtual_key vk % 2 ^ 16;
        flags = record { scan_code = true; key_up = not pressed; extended_key = is_extended_vk vk };
        time = 0;
        extra_info = 0;
      })
      ∷ []
]

-- The `match` on the button and its state; `none` is the early return.
unfoldable pub button_flag : MouseButton → Bool → Option MouseEventFlag
button_flag left true = some left_down
button_flag left false = some left_up
button_flag right true = some right_down
button_flag right false = some right_up
button_flag middle true = some middle_down
button_flag middle false = some middle_up
button_flag _ _ = none

unfoldable pub handle : Bool → (ℕ → ℕ) → Message → Option (List Input)
unfolding send_mouse send_key button_flag
handle checks map_virtual_key (mouse_move dx dy) = some (send_mouse move dx dy (pos 0))
handle checks map_virtual_key (mouse_button button pressed) = elim (button_flag button pressed) [
  | none ↦ some []
  | some flags ↦ some (send_mouse flags (pos 0) (pos 0) (pos 0))
]
handle checks map_virtual_key (mouse_wheel dx dy) = do
  delta ← mul_i32 checks dy (pos 120)
  some (send_mouse wheel (pos 0) (pos 0) delta)
handle checks map_virtual_key (key_event keycode pressed modifiers) =
    if leb keycode 65535
    then some (send_key map_virtual_key (keycode % 2 ^ 16) pressed)
    else some []
handle checks map_virtual_key _ = some []
