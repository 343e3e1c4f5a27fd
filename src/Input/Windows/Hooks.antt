-- ===== src/Input/Windows/Hooks.antt =====
-- The low-level hook callbacks of `hook_thread_main`. `Sender` is the channel's sending half, whose
-- `try_send` may drop a message when the consumer is slow. A callback gives the message that it
-- offers to the channel, and whether it swallows the event or passes it to CallNextHookEx.
pub mod Grab
use dshare.Base.{
  ℕ, ◌+◌, ◌/◌, ◌%◌, ◌^◌, Bool, true, false, ◌&&◌, ◌||◌, not, Option, none, some, ℤ, pos, leb, ◌==◌,
  if◌then◌else◌, sub_i32, signed32, negsuc, ltb, ◌-◌, div_ℤ, ◌>>=◌,
}
use dshare.Protocol.{
  Message, KeyModifiers, mouse_move, mouse_button, mouse_wheel, key_event, left, right, middle,
}
use dshare.Protocol.Keycode.{vk_to_evdev}

-- The thread locals SENDER, GRABBED (with the value of the flag that it shares with the daemon)
-- and LAST_MOUSE_POS.
pub record HookState (Sender : Type 0) : Type 0 where
  pub sender : Option Sender
  pub grabbed : Option Bool
  pub last_mouse_pos : Option (ℤ × ℤ)

pub data HookResult : Type 0 where
  swallow call_next : HookResult

pub record Outcome (Sender : Type 0) : Type 0 where
  pub state : HookState Sender
  pub offered : Option (Sender × Message)
  pub result : HookResult

-- The values of `wparam` that the callbacks name; `other` is any other.
pub data WindowMessage : Type 0 where
  wm_mousemove wm_lbuttondown wm_lbuttonup wm_rbuttondown wm_rbuttonup : WindowMessage
  wm_mbuttondown wm_mbuttonup wm_mousewheel : WindowMessage
  wm_keydown wm_keyup wm_syskeydown wm_syskeyup : WindowMessage
  other : ℕ → WindowMessage

-- The virtual keys whose state `read_current_modifiers` asks for.
pub data VirtualKey : Type 0 where
  vk_shift vk_control vk_menu vk_lwin vk_rwin : VirtualKey

-- An i16 pattern as the number it stands for, and `(mouseData >> 16) as u16 as i16`, in steps.
abbrev pub signed16 : ℕ → ℤ
signed16 w = if ltb w (2 ^ 15) then pos w else negsuc (2 ^ 16 - w - 1)

abbrev pub wheel_delta : ℕ → ℤ
wheel_delta mouse_data = signed16 (mouse_data / 2 ^ 16 % 2 ^ 16)

unfoldable pub wheel_steps : ℕ → ℤ
wheel_steps mouse_data = div_ℤ (wheel_delta mouse_data) 120

abbrev pub is_grabbed : {Sender : Type 0} → HookState Sender → Bool
is_grabbed s = elim s.grabbed [ none ↦ false | some g ↦ g ]

-- `SENDER.with(|s| … try_send(msg))`
abbrev pub offer : {Sender : Type 0} → HookState Sender → Message → Option (Sender × Message)
offer s msg = elim s.sender [ none ↦ none | some tx ↦ some (tx, msg) ]

abbrev pub offer_some :
    {Sender : Type 0} → HookState Sender → Option Message → Option (Sender × Message)
offer_some s msg = elim msg [ none ↦ none | some m ↦ offer s m ]

-- The end of both callbacks.
abbrev hook_result : {Sender : Type 0} → HookState Sender → HookResult
hook_result s = if is_grabbed s then swallow else call_next

-- `last.map(…)` of a move; a difference out of range panics where overflow is checked.
abbrev moved : Bool → Option (ℤ × ℤ) → ℤ × ℤ → Option (Option Message)
moved checks none cur = some none
moved checks (some (lx, ly)) (cx, cy) = do
  dx ← sub_i32 checks cx lx
  dy ← sub_i32 checks cy ly
  some (some (mouse_move dx dy))

-- The message for an event, and the last position that it leaves behind. `none` is a panic.
unfoldable pub mouse_message :
    Bool
    → WindowMessage
    → (cur_pos : ℤ × ℤ) → (mouse_data : ℕ) → Option (ℤ × ℤ)
    → Option (Option Message × Option (ℤ × ℤ))
unfolding wheel_steps
mouse_message checks wm_mousemove cur_pos mouse_data last = do
  msg ← moved checks last cur_pos
  some (msg, some cur_pos)
mouse_message checks wm_lbuttondown cur_pos mouse_data last =
    some (some (mouse_button left true), last)
mouse_message checks wm_lbuttonup cur_pos mouse_data last =
    some (some (mouse_button left false), last)
mouse_message checks wm_rbuttondown cur_pos mouse_data last =
    some (some (mouse_button right true), last)
mouse_message checks wm_rbuttonup cur_pos mouse_data last =
    some (some (mouse_button right false), last)
mouse_message checks wm_mbuttondown cur_pos mouse_data last =
    some (some (mouse_button middle true), last)
mouse_message checks wm_mbuttonup cur_pos mouse_data last =
    some (some (mouse_button middle false), last)
mouse_message checks wm_mousewheel cur_pos mouse_data last =
    some (some (mouse_wheel (pos 0) (wheel_steps mouse_data)), last)
mouse_message checks _ cur_pos mouse_data last = some (none, last)

module _ {Sender : Type 0} where
  -- `action` is `code == HC_ACTION`.
  unfoldable pub mouse_hook_proc :
      Bool
      → (action : Bool) → WindowMessage
      → (cur_pos : ℤ × ℤ) → (mouse_data : ℕ) → HookState Sender
      → Option (Outcome Sender)
  unfolding mouse_message
  mouse_hook_proc checks false w cur_pos mouse_data s =
      some (record { state = s; offered = none; result = call_next })
  mouse_hook_proc checks true w cur_pos mouse_data s = do
    (msg, last) ← mouse_message checks w cur_pos mouse_data s.last_mouse_pos
    some (record {
      state = record s { last_mouse_pos = last };
      offered = offer_some s msg;
      result = hook_result s;
    })

abbrev pub hotkey_vk : ℕ
hotkey_vk = 0x47

abbrev pub is_pressed : WindowMessage → Bool
is_pressed wm_keydown = true
is_pressed wm_syskeydown = true
is_pressed _ = false

abbrev pub is_released : WindowMessage → Bool
is_released wm_keyup = true
is_released wm_syskeyup = true
is_released _ = false

-- `GetAsyncKeyState(vk) as u16 & 0x8000 != 0`: the top bit of 16.
abbrev down : (VirtualKey → ℕ) → VirtualKey → Bool
down async_key_state vk = leb 0x8000 (async_key_state vk % 2 ^ 16)

unfoldable pub read_current_modifiers : (VirtualKey → ℕ) → KeyModifiers
read_current_modifiers async_key_state = record {
  shift = down async_key_state vk_shift;
  ctrl = down async_key_state vk_control;
  alt = down async_key_state vk_menu;
  meta = down async_key_state vk_lwin || down async_key_state vk_rwin;
}

-- The two nested tests for the hotkey.
abbrev pub is_hotkey : WindowMessage → ℕ → KeyModifiers → Bool
is_hotkey w vk_code m = is_pressed w && vk_code == hotkey_vk && (m.ctrl && m.alt && m.shift)

-- `fetch_xor(true)` on the shared flag, if it is set up.
abbrev pub toggled : Option Bool → Option Bool
toggled none = none
toggled (some g) = some (not g)

module _ {Sender : Type 0} where
  -- `async_key_state` is GetAsyncKeyState at the time of the event.
  unfoldable pub kbd_hook_proc :
      (action : Bool)
      → WindowMessage
      → (vk_code : ℕ) → (VirtualKey → ℕ)
      → HookState Sender
      → Outcome Sender
  unfolding read_current_modifiers
  kbd_hook_proc false w vk_code async_key_state s = record {
    state = s;
    offered = none;
    result = call_next;
  }
  kbd_hook_proc true w vk_code async_key_state s =
      let m = read_current_modifiers async_key_state in
      let msg : Option Message = elim (vk_to_evdev vk_code) [
        | some evdev ↦ some (key_event evdev (is_pressed w) m)
        | none ↦ none
      ] in
      if is_hotkey w vk_code m
      then record {
        state = record s { grabbed = toggled s.grabbed };
        offered = none;
        result = swallow;
      }
      else record {
        state = s;
        offered = if is_pressed w || is_released w then offer_some s msg else none;
        result = hook_result s;
      }
