-- ===== src/Input/Windows/RoundTrip.antt =====
-- The table of the inject side against that of the capture side.
use dshare.Base.{
  ℕ, ◌≡◌, refl, Bool, true, false, ◌||◌, ◌&&◌, not, Option, some, none, ◌==◌, leb, lookup,
  lookup-all_rows, all_rows, arith, if◌then◌else◌, ◌↔◌,
}
use dshare.Protocol.Keycode.{vk_rows, vk_to_evdev}
use dshare.Input.Windows.Keys.{evdev_rows, evdev_to_vk}

abbrev is_some_of : Option ℕ → ℕ → Bool
is_some_of none n = false
is_some_of (some m) n = m == n

-- The keys of the US layout's punctuation: VK_OEM_1 .. VK_OEM_3 and VK_OEM_4 .. VK_OEM_7.
abbrev pub is_punctuation : ℕ → Bool
is_punctuation vk = (leb 0xBA vk && leb vk 0xC0) || (leb 0xDB vk && leb vk 0xDE)

abbrev is_none : Option ℕ → Bool
is_none none = true
is_none (some n) = false

abbrev comes_back : ℕ → ℕ → Bool
comes_back vk code =
    if is_punctuation vk
    then is_none (lookup code evdev_rows)
    else is_some_of (lookup code evdev_rows) vk

-- What the capture side translates the inject side translates back to the same key, except for
-- the punctuation keys, which it has no key for.
pub evdev_to_vk-vk_to_evdev :
    (vk code : ℕ)
    → vk_to_evdev vk ≡ some code
    → evdev_to_vk code ≡ (if is_punctuation vk then none else some vk)
unfolding vk_to_evdev evdev_to_vk
evdev_to_vk-vk_to_evdev vk code e =
    ground (arith, lookup-all_rows comes_back vk_rows vk code (unfold all_rows lookup in refl) e)

abbrev goes_out : ℕ → ℕ → Bool
goes_out code vk = is_some_of (lookup vk vk_rows) code && not (is_punctuation vk)

-- The inject side's table is the capture side's read backwards, without the punctuation keys.
pub evdev_to_vk_iff :
    (vk code : ℕ)
    → (evdev_to_vk code ≡ some vk) ↔ ((vk_to_evdev vk ≡ some code) × (is_punctuation vk ≡ false))
unfolding vk_to_evdev evdev_to_vk
evdev_to_vk_iff vk code = (
  λ e.
      ground
        (arith, lookup-all_rows goes_out evdev_rows code vk (unfold all_rows lookup in refl) e),
  λ h.
      ground
        (arith, lookup-all_rows comes_back vk_rows vk code (unfold all_rows lookup in refl) h.0),
)
