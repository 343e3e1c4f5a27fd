-- ===== src/Tests/Keys.antt =====
-- The tables of keys.
use dshare.Base.{◌≡◌, ◌↔◌, refl, true, false, none, some, lookup}
use dshare.Protocol.Keycode.{vk_to_evdev}
use dshare.Input.Windows.Keys.{evdev_to_vk, is_extended_vk}
use dshare.Input.Windows.RoundTrip.{is_punctuation, evdev_to_vk_iff}

h_is_key_h : vk_to_evdev 0x48 ≡ some 35
unfolding vk_to_evdev lookup
h_is_key_h = refl

unknown_is_none : vk_to_evdev 0xFFFF ≡ none
unfolding vk_to_evdev lookup
unknown_is_none = refl

-- The return key proper is in the list of extended keys, which makes it the keypad's.
return_is_extended : is_extended_vk 0x0D ≡ true
unfolding is_extended_vk
return_is_extended = refl

evdev_to_vk_iff_example :
    (evdev_to_vk 35 ≡ some 0x48) ↔ ((vk_to_evdev 0x48 ≡ some 35) × (is_punctuation 0x48 ≡ false))
evdev_to_vk_iff_example = evdev_to_vk_iff 0x48 35
