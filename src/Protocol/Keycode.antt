-- ===== src/Protocol/Keycode.antt =====
-- crates/dshare-protocol/src/keycode.rs: Win32 virtual-key codes to evdev key codes. The arms of the
-- `match` are the rows of a table, in the order of the source; no two have the same code.
pub mod Table
pub mod UnitTests
use dshare.Base.{ℕ, List, [], ◌∷◌, Option, lookup}

abbrev pub vk_rows : List (ℕ × ℕ)
vk_rows =
    (0x41, 30)
    ∷ (0x42, 48)
    ∷ (0x43, 46)
    ∷ (0x44, 32)
    ∷ (0x45, 18)
    ∷ (0x46, 33)
    ∷ (0x47, 34)
    ∷ (0x48, 35)
    ∷ (0x49, 23)
    ∷ (0x4A, 36)
    ∷ (0x4B, 37)
    ∷ (0x4C, 38)
    ∷ (0x4D, 50)
    ∷ (0x4E, 49)
    ∷ (0x4F, 24)
    ∷ (0x50, 25)
    ∷ (0x51, 16)
    ∷ (0x52, 19)
    ∷ (0x53, 31)
    ∷ (0x54, 20)
    ∷ (0x55, 22)
    ∷ (0x56, 47)
    ∷ (0x57, 17)
    ∷ (0x58, 45)
    ∷ (0x59, 21)
    ∷ (0x5A, 44)
    ∷ (0x30, 11)
    ∷ (0x31, 2)
    ∷ (0x32, 3)
    ∷ (0x33, 4)
    ∷ (0x34, 5)
    ∷ (0x35, 6)
    ∷ (0x36, 7)
    ∷ (0x37, 8)
    ∷ (0x38, 9)
    ∷ (0x39, 10)
    ∷ (0x0D, 28)
    ∷ (0x1B, 1)
    ∷ (0x08, 14)
    ∷ (0x09, 15)
    ∷ (0x20, 57)
    ∷ (0x25, 105)
    ∷ (0x26, 103)
    ∷ (0x27, 106)
    ∷ (0x28, 108)
    ∷ (0xA0, 42)
    ∷ (0xA1, 54)
    ∷ (0xA2, 29)
    ∷ (0xA3, 97)
    ∷ (0xA4, 56)
    ∷ (0xA5, 100)
    ∷ (0x5B, 125)
    ∷ (0x5C, 126)
    ∷ (0x70, 59)
    ∷ (0x71, 60)
    ∷ (0x72, 61)
    ∷ (0x73, 62)
    ∷ (0x74, 63)
    ∷ (0x75, 64)
    ∷ (0x76, 65)
    ∷ (0x77, 66)
    ∷ (0x78, 67)
    ∷ (0x79, 68)
    ∷ (0x7A, 87)
    ∷ (0x7B, 88)
    ∷ (0x2D, 110)
    ∷ (0x2E, 111)
    ∷ (0x24, 102)
    ∷ (0x23, 107)
    ∷ (0x21, 104)
    ∷ (0x22, 109)
    ∷ (0xBA, 39)
    ∷ (0xBB, 13)
    ∷ (0xBC, 51)
    ∷ (0xBD, 12)
    ∷ (0xBE, 52)
    ∷ (0xBF, 53)
    ∷ (0xC0, 41)
    ∷ (0xDB, 26)
    ∷ (0xDC, 43)
    ∷ (0xDD, 27)
    ∷ (0xDE, 40)
    ∷ (0x14, 58)
    ∷ (0x90, 69)
    ∷ (0x91, 70)
    ∷ []

unfoldable pub vk_to_evdev : ℕ → Option ℕ
vk_to_evdev vk = lookup vk vk_rows
