-- ===== src/App/EndToEnd/ToLinux.antt =====
-- From the mouse and the keyboard of a Windows server to the uinput device of a Linux client.
pub mod Messages
pub mod Steps
pub mod Delivery
use dshare.Base.{ℕ, ◌||◌, none, some, List, [], ◌∷◌, ◌++◌, ℤ, pos, ◌+ℤ◌, ok, if◌then◌else◌}
use dshare.Protocol.Keycode.{vk_to_evdev}
use dshare.Input.Linux.{EvdevCodes, InputEvent, key_value}
use dshare.Input.Linux
use dshare.Input.Windows.Hooks.{
  WindowMessage, wm_mousewheel, wm_lbuttondown, wm_lbuttonup, wm_rbuttondown, wm_rbuttonup,
  wm_mbuttondown, wm_mbuttonup, wheel_steps, is_pressed, is_released,
}
use dshare.App.Client.{InputInject}
use dshare.App.Server.{Action, key, mouse, forward}

-- The steps by which an action turns the wheel, and those of a run.
unfoldable pub turn : Action → ℤ
turn (mouse wm_mousewheel cur_pos mouse_data kept) = wheel_steps mouse_data
turn _ = pos 0

abbrev pub turns : List Action → ℤ
turns [] = pos 0
turns (a ∷ actions) = turn a +ℤ turns actions

module _ (codes : EvdevCodes) where
  abbrev pub clicked : WindowMessage → List (ℕ × ℤ)
  clicked wm_lbuttondown = (codes.btn_left, pos 1) ∷ []
  clicked wm_lbuttonup = (codes.btn_left, pos 0) ∷ []
  clicked wm_rbuttondown = (codes.btn_right, pos 1) ∷ []
  clicked wm_rbuttonup = (codes.btn_right, pos 0) ∷ []
  clicked wm_mbuttondown = (codes.btn_middle, pos 1) ∷ []
  clicked wm_mbuttonup = (codes.btn_middle, pos 0) ∷ []
  clicked _ = []

  -- The press or release that an action is: of a button, or of a key that has a code.
  unfoldable pub pressed : Action → List (ℕ × ℤ)
  pressed (key w vk_code async_key_state kept) =
      if is_pressed w || is_released w
      then elim (vk_to_evdev vk_code) [
        | none ↦ []
        | some code ↦ (code, key_value (is_pressed w)) ∷ []
      ]
      else []
  pressed (mouse w cur_pos mouse_data kept) = clicked w
  pressed forward = []

  abbrev pub presses : List Action → List (ℕ × ℤ)
  presses [] = []
  presses (a ∷ actions) = pressed a ++ presses actions

  -- LinuxInject with a device that takes everything; its state are the events so far.
  unfoldable pub linux_inject : InputInject (List InputEvent) ⊥
  linux_inject = Linux.handle codes (λ es device. (ok tt, device ++ es))
