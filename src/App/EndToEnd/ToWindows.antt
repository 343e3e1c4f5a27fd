-- ===== src/App/EndToEnd/ToWindows.antt =====
-- From the mouse and the keyboard of a Windows server to SendInput on a Windows client.
pub mod Steps
pub mod Delivery
use dshare.Base.{
  ℕ, false, ◌||◌, none, some, List, [], ◌∷◌, ◌++◌, ok, if◌then◌else◌, ℤ, pos, ◌-ℤ◌, ◌*ℤ◌,
}
use dshare.Protocol.Keycode.{vk_to_evdev}
use dshare.Input.Windows.RoundTrip.{is_punctuation}
use dshare.Input.Windows.Inject.{
  Input, send_mouse, move, wheel, left_down, left_up, right_down, right_up, middle_down, middle_up,
}
use dshare.Input.Windows.Inject
use dshare.Input.Windows.Delivery.{key_input}
use dshare.Input.Windows.Hooks.{
  WindowMessage, wm_mousemove, wm_mousewheel, wm_lbuttondown, wm_lbuttonup, wm_rbuttondown,
  wm_rbuttonup, wm_mbuttondown, wm_mbuttonup, wheel_steps, is_pressed, is_released,
}
use dshare.App.Client.{InputInject}
use dshare.App.Server.{Action, key, mouse, forward}
use dshare.App.EndToEnd.Desk.{place_after}

-- WinInject in a release build, where `handle` neither panics nor fails: its state are the inputs
-- that it has given to SendInput so far.
unfoldable pub win_inject : (ℕ → ℕ) → InputInject (List Input) ⊥
win_inject map_virtual_key msg inputs = elim (Inject.handle false map_virtual_key msg) [
  | none ↦ (ok tt, inputs)
  | some more ↦ (ok tt, inputs ++ more)
]

-- What a mouse event is at the client: the same button, as many steps of the wheel, or the way from
-- the pointer's place `p` before.
unfoldable pub turned_or_clicked : WindowMessage → ℤ × ℤ → ℕ → ℤ × ℤ → List Input
turned_or_clicked wm_mousemove cur_pos mouse_data p =
    send_mouse move (cur_pos.0 -ℤ p.0) (cur_pos.1 -ℤ p.1) (pos 0)
turned_or_clicked wm_mousewheel cur_pos mouse_data p =
    send_mouse wheel (pos 0) (pos 0) (wheel_steps mouse_data *ℤ pos 120)
turned_or_clicked wm_lbuttondown cur_pos mouse_data p = send_mouse left_down (pos 0) (pos 0) (pos 0)
turned_or_clicked wm_lbuttonup cur_pos mouse_data p = send_mouse left_up (pos 0) (pos 0) (pos 0)
turned_or_clicked wm_rbuttondown cur_pos mouse_data p =
    send_mouse right_down (pos 0) (pos 0) (pos 0)
turned_or_clicked wm_rbuttonup cur_pos mouse_data p = send_mouse right_up (pos 0) (pos 0) (pos 0)
turned_or_clicked wm_mbuttondown cur_pos mouse_data p =
    send_mouse middle_down (pos 0) (pos 0) (pos 0)
turned_or_clicked wm_mbuttonup cur_pos mouse_data p = send_mouse middle_up (pos 0) (pos 0) (pos 0)
turned_or_clicked _ cur_pos mouse_data p = []

-- What an action is at the client: a mouse event as above, a press or release of a key the same of
-- that key, if it has a code and is no punctuation.
unfoldable pub inputs_of : (ℕ → ℕ) → ℤ × ℤ → Action → List Input
unfolding turned_or_clicked
inputs_of map_virtual_key p (key w vk_code async_key_state kept) =
    if is_pressed w || is_released w
    then elim (vk_to_evdev vk_code) [
      | none ↦ []
      | some code ↦
          if is_punctuation vk_code
          then []
          else key_input map_virtual_key vk_code (is_pressed w) ∷ []
    ]
    else []
inputs_of map_virtual_key p (mouse w cur_pos mouse_data kept) =
    turned_or_clicked w cur_pos mouse_data p
inputs_of map_virtual_key p forward = []

-- The same for a run, the pointer starting at `p`.
unfoldable pub strokes : (ℕ → ℕ) → ℤ × ℤ → List Action → List Input
strokes map_virtual_key p [] = []
strokes map_virtual_key p (a ∷ actions) =
    inputs_of map_virtual_key p a ++ strokes map_virtual_key (place_after a p) actions
