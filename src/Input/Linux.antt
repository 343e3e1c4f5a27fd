-- ===== src/Input/Linux.antt =====
-- crates/dshare-input/src/linux.rs: what `LinuxInject` registers at uinput, and what it emits for a
-- message. The codes of <linux/input-event-codes.h> and the uinput device are arguments.
-- `LinuxCapture::run` is a stub in the source: it fails at once.
pub mod Emission
pub mod Device
use dshare.Base.{
  ℕ, zero, suc, ◌+◌, ◌%◌, ◌^◌, Bool, true, false, ◌&&◌, Option, none, some, List, [], ◌∷◌, ◌++◌, ℤ,
  pos, ltb, ltb_ℤ, if◌then◌else◌, Result, ok, not, ◌||◌,
}
use dshare.Protocol.{
  Message, MouseButton, mouse_move, mouse_button, mouse_wheel, key_event, left, right, middle, back,
  forward,
}

pub record EvdevCodes : Type 0 where
  pub rel_x : ℕ
  pub rel_y : ℕ
  pub rel_wheel : ℕ
  pub rel_hwheel : ℕ
  pub btn_left : ℕ
  pub btn_right : ℕ
  pub btn_middle : ℕ
  pub btn_side : ℕ
  pub btn_extra : ℕ

pub data EventType : Type 0 where
  key relative : EventType

pub record InputEvent : Type 0 where
  pub event_type : EventType
  pub code : ℕ
  pub value : ℤ

-- `first, first + 1, …`, `n` numbers.
unfoldable pub range : ℕ → ℕ → List ℕ
range first zero = []
range first (suc n) = first ∷ range (first + 1) n

-- The keys that `new` registers: 1 ..= 248 and 0x100 ..= 0x150.
unfoldable pub registered_keys : List ℕ
unfolding range
registered_keys = range 1 248 ++ range 0x100 81

abbrev pub is_zero : ℤ → Bool
is_zero z = not (ltb_ℤ z (pos 0) || ltb_ℤ (pos 0) z)

-- `if v != 0 { events.push(…) }`
abbrev pub pushed_nonzero : ℕ → ℤ → List InputEvent → List InputEvent
pushed_nonzero code v rest =
    if is_zero v then rest else record { event_type = relative; code = code; value = v } ∷ rest

abbrev pub key_value : Bool → ℤ
key_value pressed = if pressed then pos 1 else pos 0

module _ (codes : EvdevCodes) where
  unfoldable pub button_key : MouseButton → ℕ
  button_key left = codes.btn_left
  button_key right = codes.btn_right
  button_key middle = codes.btn_middle
  button_key back = codes.btn_side
  button_key forward = codes.btn_extra

  -- The events that `handle` collects; `none` where it returns before it comes to emit them.
  unfoldable pub events : Message → Option (List InputEvent)
  unfolding button_key
  events (mouse_move dx dy) =
      some (pushed_nonzero codes.rel_x dx (pushed_nonzero codes.rel_y dy []))
  events (mouse_button button pressed) =
      some (record { event_type = key; code = button_key button; value = key_value pressed } ∷ [])
  events (mouse_wheel dx dy) =
      some (pushed_nonzero codes.rel_wheel dy (pushed_nonzero codes.rel_hwheel dx []))
  events (key_event keycode pressed modifiers) =
      if ltb 65535 keycode
      then none
      else some
          (record { event_type = key; code = keycode % 2 ^ 16; value = key_value pressed } ∷ [])
  events _ = none

  -- `device.emit(&events)` is the argument `emit`.
  unfoldable pub handle {ℓ κ} :
      {Device : Type ℓ} {E : Type κ}
      → (List InputEvent → Device → Result (Unit {0}) E × Device)
      → Message
      → Device
      → Result (Unit {0}) E × Device
  unfolding events
  handle emit msg device = elim (events msg) [
    | none ↦ (ok tt, device)
    | some es ↦ elim es [ [] ↦ (ok tt, device) | e ∷ rest ↦ emit (e ∷ rest) device ]
  ]
