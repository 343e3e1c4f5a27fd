-- ===== src/Protocol/Keycode/UnitTests.antt =====
-- The unit tests of crates/dshare-protocol/src/keycode.rs. A failed assertion is `false`.
use dshare.Base.{ℕ, ◌≡◌, refl, Bool, true, false, Option, none, some, ◌==◌, ◌&&◌, lookup}
use dshare.Protocol.Keycode.{vk_to_evdev}

-- `assert_eq!` on the answers.
abbrev same : Option ℕ → Option ℕ → Bool
same (some a) (some b) = a == b
same none none = true
same _ _ = false

unfoldable pub letters_map_correctly : Bool
letters_map_correctly = same (vk_to_evdev 0x48) (some 35) && same (vk_to_evdev 0x49) (some 23)

unfoldable pub enter_and_escape : Bool
enter_and_escape = same (vk_to_evdev 0x0D) (some 28) && same (vk_to_evdev 0x1B) (some 1)

unfoldable pub arrows : Bool
arrows =
    same (vk_to_evdev 0x25) (some 105)
    && same (vk_to_evdev 0x26) (some 103)
    && same (vk_to_evdev 0x27) (some 106)
    && same (vk_to_evdev 0x28) (some 108)

unfoldable pub unknown_returns_none : Bool
unknown_returns_none = same (vk_to_evdev 0xFFFF) none

keycode_tests_pass :
    (letters_map_correctly ≡ true)
    × (enter_and_escape ≡ true)
    × (arrows ≡ true)
    × (unknown_returns_none ≡ true)
unfolding letters_map_correctly enter_and_escape arrows unknown_returns_none vk_to_evdev lookup
keycode_tests_pass = (refl, refl, refl, refl)
