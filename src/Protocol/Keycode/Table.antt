-- ===== src/Protocol/Keycode/Table.antt =====
-- What the table of virtual keys guarantees to the other end of the wire.
use dshare.Base.{
  ℕ, ◌≤◌, ◌≡◌, refl, Bool, ◌||◌, ◌&&◌, not, some, ◌==◌, leb, lookup-all_rows, all_rows, arith,
}
use dshare.Protocol.Keycode.{vk_rows, vk_to_evdev}

-- A row gives a code of the keyboard range, for a code of one byte.
abbrev in_range : ℕ → ℕ → Bool
in_range vk code = leb 1 code && leb code 248 && leb vk 255

-- Every key that is translated gets a code from 1 (KEY_ESC) to 248 (KEY_MICMUTE), the range that the
-- Linux backend registers; only codes of one byte are translated.
pub vk_to_evdev_range :
    (vk code : ℕ) → vk_to_evdev vk ≡ some code → (1 ≤ code) × (code ≤ 248) × (vk ≤ 255)
unfolding vk_to_evdev
vk_to_evdev_range vk code e =
    ground (arith, lookup-all_rows in_range vk_rows vk code (unfold all_rows in refl) e)

abbrev same_key : ℕ → ℕ → ℕ → ℕ → Bool
same_key vk code vk' code' = not (code == code') || vk == vk'

-- No two keys are translated to one code.
vk_to_evdev-injective :
    (vk vk' code : ℕ) → vk_to_evdev vk ≡ some code → vk_to_evdev vk' ≡ some code → vk ≡ vk'
unfolding vk_to_evdev
vk_to_evdev-injective vk vk' code e e' = ground (
  arith,
  lookup-all_rows (same_key vk code) vk_rows vk' code
      (lookup-all_rows (λ a c. all_rows (same_key a c) vk_rows) vk_rows vk code
        (unfold all_rows in refl) e)
      e',
)
