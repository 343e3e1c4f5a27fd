-- ===== src/Input/Linux/Emission.antt =====
-- What reaches the uinput device: the motion that a list of events stands for, and the keys.
use dshare.Base.{
  ℕ, zero, suc, ◌+◌, ◌≤◌, ◌<◌, ◌≡◌, ◌≢◌, ◌⊎◌, inl, Bool, true, false, some, List, [], ◌∷◌, ◌++◌, ℤ,
  pos, ◌+ℤ◌, ◌==◌, if◌then◌else◌, All, arith, ◌&&◌, ◌||◌,
}
use mathlib.Core.Option
use dshare.Protocol.{Message, mouse_move, mouse_button, mouse_wheel, key_event, KeyModifiers}
use dshare.Protocol.Keycode.{vk_to_evdev}
use dshare.Protocol.Keycode.Table.{vk_to_evdev_range}
use dshare.Input.Linux.{
  EvdevCodes, EventType, key, relative, InputEvent, range, registered_keys, events,
}

abbrev is_relative : EventType → Bool
is_relative relative = true
is_relative key = false

-- The sum of the values that a list of events gives for one relative axis.
abbrev pub motion : ℕ → List InputEvent → ℤ
motion axis [] = pos 0
motion axis (e ∷ es) =
    if is_relative e.event_type && e.code == axis then e.value +ℤ motion axis es else motion axis es

-- The key events of a list.
abbrev pub keys : List InputEvent → List (ℕ × ℤ)
keys [] = []
keys (e ∷ es) = if is_relative e.event_type then keys es else (e.code, e.value) ∷ keys es

-- The four axes have different codes.
pub record IsDistinct (codes : EvdevCodes) : Type 0 where
  pub x_y : codes.rel_x ≢ codes.rel_y
  pub x_wheel : codes.rel_x ≢ codes.rel_wheel
  pub x_hwheel : codes.rel_x ≢ codes.rel_hwheel
  pub y_wheel : codes.rel_y ≢ codes.rel_wheel
  pub y_hwheel : codes.rel_y ≢ codes.rel_hwheel
  pub wheel_hwheel : codes.rel_wheel ≢ codes.rel_hwheel

-- What a message asks for, by axis.
pub record Motion : Type 0 where
  pub x : ℤ
  pub y : ℤ
  pub wheel : ℤ
  pub hwheel : ℤ

abbrev pub asked : Message → Motion
asked (mouse_move dx dy) = record { x = dx; y = dy; wheel = pos 0; hwheel = pos 0 }
asked (mouse_wheel dx dy) = record { x = pos 0; y = pos 0; wheel = dy; hwheel = dx }
asked _ = record { x = pos 0; y = pos 0; wheel = pos 0; hwheel = pos 0 }

add_zero : (z : ℤ) → z +ℤ pos 0 ≡ z
unfolding ◌+ℤ◌
add_zero z = ground arith

-- The events for a message move each axis by what the message asks for; no event is a move by 0.
pub events-motion :
    (codes : EvdevCodes) (msg : Message) (es : List InputEvent)
    → IsDistinct codes
    → events codes msg ≡ some es
    → (motion codes.rel_x es ≡ (asked msg).x)
      × (motion codes.rel_y es ≡ (asked msg).y)
      × (motion codes.rel_wheel es ≡ (asked msg).wheel)
      × (motion codes.rel_hwheel es ≡ (asked msg).hwheel)
      × All (λ e. e.event_type ≡ relative → e.value ≢ pos 0) es
unfolding events
events-motion codes (mouse_move dx dy) es h e = ground (arith, add_zero dx, add_zero dy)
events-motion codes (mouse_wheel dx dy) es h e = ground (arith, add_zero dx, add_zero dy)
events-motion codes (mouse_button button pressed) es h e = ground arith
events-motion codes (key_event keycode pressed modifiers) es h e = ground arith
events-motion codes _ es h e = ground arith

unfoldable pub is_member : ℕ → List ℕ → Bool
is_member x [] = false
is_member x (y ∷ ys) = x == y || is_member x ys

pub is_member-range :
    (x first n : ℕ) → first ≤ x → x < first + n → is_member x (range first n) ≡ true
unfolding is_member range
is_member-range x first zero h k = absurd (omega arith)
is_member-range x first (suc n) h k = ground (arith, is_member-range x (first + 1) n)

pub is_member-append :
    (x : ℕ) (xs ys : List ℕ)
    → (is_member x xs ≡ true) ⊎ (is_member x ys ≡ true)
    → is_member x (xs ++ ys) ≡ true
unfolding is_member
is_member-append x [] ys h = ground arith
is_member-append x (y ∷ xs) ys h = ground (arith, is_member-append x xs ys)

-- A key that the Windows side translates is emitted under its code as one press or release, and
-- the device has that code registered.
vk_to_evdev-events :
    (codes : EvdevCodes) (vk code : ℕ) (pressed : Bool) (modifiers : KeyModifiers)
    → vk_to_evdev vk ≡ some code
    → (Option.map keys (events codes (key_event code pressed modifiers))
        ≡ some ((code, if pressed then pos 1 else pos 0) ∷ []))
      × (is_member code registered_keys ≡ true)
unfolding events registered_keys
vk_to_evdev-events codes vk code pressed modifiers e =
    let bounds = vk_to_evdev_range vk code e in
    (
      ground (arith, bounds),
      is_member-append code (range 1 248) (range 0x100 81)
          (inl (is_member-range code 1 248 (omega arith) (omega arith))),
    )
