-- ===== src/Input/Linux/Device/Registered.antt =====
-- The device of `new` has what `handle` emits.
use dshare.Base.{
  codes, ◌∙◌, ◌%◌, ◌^◌, ℕ, ◌≤◌, ◌≡◌, Bool, true, some, List, ok, All, arith, inl, inr, Result-cases,
}
use dshare.Protocol.{
  Message, mouse_move, mouse_button, mouse_wheel, key_event, Bytes, left, right, middle, back,
  forward,
}
use dshare.Protocol.Keycode.{vk_to_evdev}
use dshare.Protocol.Keycode.Table.{vk_to_evdev_range}
use dshare.Input.Linux.{
  EvdevCodes, key, relative, InputEvent, registered_keys, range, button_key, events,
}
use dshare.Input.Linux.Emission.{is_member, is_member-range, is_member-append}
use dshare.Input.Linux.Device.{Uinput, registered_axes, new_inject}

-- What the documentation of uinput says of the calls: a device has the keys and the axes that its
-- builder was given, and has no others. `keys` and `axes` tell what a builder or a device has.
pub record Reports {B Device E : Type 0} (uinput : Uinput B Device E) : Type 0 where
  pub built_keys : B → List ℕ
  pub built_axes : B → List ℕ
  pub keys : Device → List ℕ
  pub axes : Device → List ℕ
  pub name_keeps : (n : Bytes) (b : B) → built_keys (uinput.name n b) ≡ built_keys b
  pub keys_set : (ks : List ℕ) (b b' : B) → uinput.with_keys ks b ≡ ok b' → built_keys b' ≡ ks
  pub axes_set :
      (rs : List ℕ) (b b' : B)
      → uinput.with_relative_axes rs b ≡ ok b'
      → (built_axes b' ≡ rs) × (built_keys b' ≡ built_keys b)
  pub built :
      (b : B) (d : Device)
      → uinput.build b ≡ ok d
      → (keys d ≡ built_keys b) × (axes d ≡ built_axes b)

-- The evdev of the five buttons lie between BTN_MISC and BTN_GEAR_UP.
pub record HasButtons (evdev : EvdevCodes) : Type 0 where
  pub left_in : (0x100 ≤ evdev.btn_left) × (evdev.btn_left ≤ 0x150)
  pub right_in : (0x100 ≤ evdev.btn_right) × (evdev.btn_right ≤ 0x150)
  pub middle_in : (0x100 ≤ evdev.btn_middle) × (evdev.btn_middle ≤ 0x150)
  pub side_in : (0x100 ≤ evdev.btn_side) × (evdev.btn_side ≤ 0x150)
  pub extra_in : (0x100 ≤ evdev.btn_extra) × (evdev.btn_extra ≤ 0x150)

-- A message of the capture side: any but a key event, or a key event of a translated key.
abbrev pub IsCaptured : Message → Type 0
IsCaptured (key_event keycode pressed modifiers) = (vk : ℕ) × (vk_to_evdev vk ≡ some keycode)
IsCaptured _ = Unit {0}

-- A device accepts an event that it has the key or the axis for.
abbrev pub accepts : (keys axes : List ℕ) → InputEvent → Bool
accepts keys axes e = elim e.event_type [
  | key ↦ is_member e.code keys
  | relative ↦ is_member e.code axes
]

new_inject-parts :
    {B Device E : Type 0} (evdev : EvdevCodes) (opening : E → E) (uinput : Uinput B Device E)
    (d : Device) (r : Reports uinput)
    → new_inject evdev opening uinput ≡ ok d
    → (r.keys d ≡ registered_keys) × (r.axes d ≡ registered_axes evdev)
unfolding new_inject
new_inject-parts evdev opening uinput d r e = elim (Result-cases uinput.open_uinput) [
  | inr (x, o) ↦ absurd (ground arith)
  | inl (b, o) ↦
      let named = uinput.name (codes "dshare virtual input") b in
      elim (Result-cases (uinput.with_keys registered_keys named)) [
        | inr (x, k) ↦ absurd (ground arith)
        | inl (keyed, k) ↦
            elim (Result-cases (uinput.with_relative_axes (registered_axes evdev) keyed)) [
              | inr (x, a) ↦ absurd (ground arith)
              | inl (moving, a) ↦
                  let (keys, axes) = r.built moving d (ground arith) in
                  let (has_axes, same) = r.axes_set (registered_axes evdev) keyed moving a in
                  (keys ∙ (same ∙ r.keys_set registered_keys named keyed k), axes ∙ has_axes)
            ]
      ]
]

is_registered_button : (x : ℕ) → (0x100 ≤ x) × (x ≤ 0x150) → is_member x registered_keys ≡ true
unfolding registered_keys
is_registered_button x h =
    is_member-append x (range 1 248) (range 0x100 81)
      (inr (is_member-range x 0x100 81 h.0 (omega arith)))

is_registered_key :
    (vk code : ℕ) → vk_to_evdev vk ≡ some code → is_member (code % 2 ^ 16) registered_keys ≡ true
unfolding registered_keys
is_registered_key vk code e =
    let bounds = vk_to_evdev_range vk code e in
    let same : code % 2 ^ 16 ≡ code = omega arith in
    rw same (
      is_member-append code (range 1 248) (range 0x100 81)
        (inl (is_member-range code 1 248 (omega arith) (omega arith))))

events-accepted :
    (evdev : EvdevCodes) (msg : Message) (es : List InputEvent)
    → HasButtons evdev
    → IsCaptured msg
    → events evdev msg ≡ some es
    → All (λ e. accepts registered_keys (registered_axes evdev) e ≡ true) es
unfolding events button_key is_member
events-accepted evdev (mouse_move dx dy) es h c e = ground arith
events-accepted evdev (mouse_wheel dx dy) es h c e = ground arith
events-accepted evdev (mouse_button left pressed) es h c e =
    ground (arith, is_registered_button evdev.btn_left h.left_in)
events-accepted evdev (mouse_button right pressed) es h c e =
    ground (arith, is_registered_button evdev.btn_right h.right_in)
events-accepted evdev (mouse_button middle pressed) es h c e =
    ground (arith, is_registered_button evdev.btn_middle h.middle_in)
events-accepted evdev (mouse_button back pressed) es h c e =
    ground (arith, is_registered_button evdev.btn_side h.side_in)
events-accepted evdev (mouse_button forward pressed) es h c e =
    ground (arith, is_registered_button evdev.btn_extra h.extra_in)
events-accepted evdev (key_event keycode pressed modifiers) es h c e =
    ground (arith, is_registered_key c.0 keycode c.1)
events-accepted evdev _ es h c e = ground arith

-- The device that `new` returns has every key and every axis that `handle` emits for what the Windows
-- side captures: its buttons, its moves and wheel turns, and every key that it translates.
pub new_inject-accepts :
    {B Device E : Type 0} (evdev : EvdevCodes) (opening : E → E) (uinput : Uinput B Device E)
    (d : Device) (msg : Message) (es : List InputEvent) (r : Reports uinput)
    → HasButtons evdev
    → new_inject evdev opening uinput ≡ ok d
    → IsCaptured msg
    → events evdev msg ≡ some es
    → All (λ e. accepts (r.keys d) (r.axes d) e ≡ true) es
new_inject-accepts evdev opening uinput d msg es r h made c e =
    let (keys, axes) = new_inject-parts evdev opening uinput d r made in
    rw (keys, axes) (events-accepted evdev msg es h c e)
