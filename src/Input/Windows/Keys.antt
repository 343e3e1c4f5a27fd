-- ===== src/Input/Windows/Keys.antt =====
-- The tables of the inject side: evdev key codes to virtual keys, and the keys with an extended
-- scan code. The arms of a `match` are the rows of a table, in the order of the source.
use dshare.Base.{ℕ, List, [], ◌∷◌, Bool, false, Option, lookup, ◌==◌, ◌||◌}

abbrev pub evdev_rows : List (ℕ × ℕ)
evdev_rows =
    (30, 0x41)
    ∷ (48, 0x42)
    ∷ (46, 0x43)
    ∷ (32, 0x44)
    ∷ (18, 0x45)
    ∷ (33, 0x46)
    ∷ (34, 0x47)
    ∷ (35, 0x48)
    ∷ (23, 0x49)
    ∷ (36, 0x4A)
    ∷ (37, 0x4B)
    ∷ (38, 0x4C)
    ∷ (50, 0x4D)
    ∷ (49, 0x4E)
    ∷ (24, 0x4F)
    ∷ (25, 0x50)
    ∷ (16, 0x51)
    ∷ (19, 0x52)
    ∷ (31, 0x53)
    ∷ (20, 0x54)
    ∷ (22, 0x55)
    ∷ (47, 0x56)
    ∷ (17, 0x57)
    ∷ (45, 0x58)
    ∷ (21, 0x59)
    ∷ (44, 0x5A)
    ∷ (11, 0x30)
    ∷ (2, 0x31)
    ∷ (3, 0x32)
    ∷ (4, 0x33)
    ∷ (5, 0x34)
    ∷ (6, 0x35)
    ∷ (7, 0x36)
    ∷ (8, 0x37)
    ∷ (9, 0x38)
    ∷ (10, 0x39)
    ∷ (28, 0x0D)
    ∷ (1, 0x1B)
    ∷ (14, 0x08)
    ∷ (15, 0x09)
    ∷ (57, 0x20)
    ∷ (105, 0x25)
    ∷ (103, 0x26)
    ∷ (106, 0x27)
    ∷ (108, 0x28)
    ∷ (42, 0xA0)
    ∷ (54, 0xA1)
    ∷ (29, 0xA2)
    ∷ (97, 0xA3)
    ∷ (56, 0xA4)
    ∷ (100, 0xA5)
    ∷ (125, 0x5B)
    ∷ (126, 0x5C)
    ∷ (59, 0x70)
    ∷ (60, 0x71)
    ∷ (61, 0x72)
    ∷ (62, 0x73)
    ∷ (63, 0x74)
    ∷ (64, 0x75)
    ∷ (65, 0x76)
    ∷ (66, 0x77)
    ∷ (67, 0x78)
    ∷ (68, 0x79)
    ∷ (87, 0x7A)
    ∷ (88, 0x7B)
    ∷ (110, 0x2D)
    ∷ (111, 0x2E)
    ∷ (102, 0x24)
    ∷ (107, 0x23)
    ∷ (104, 0x21)
    ∷ (109, 0x22)
    ∷ (58, 0x14)
    ∷ (69, 0x90)
    ∷ (70, 0x91)
    ∷ []

unfoldable pub evdev_to_vk : ℕ → Option ℕ
evdev_to_vk code = lookup code evdev_rows

abbrev pub extended_keys : List ℕ
extended_keys =
    0x21 ∷ 0x22 ∷ 0x23 ∷ 0x24 ∷ 0x25 ∷ 0x26 ∷ 0x27 ∷ 0x28 ∷ 0x2D ∷ 0x2E ∷ 0x6F ∷ 0x0D ∷ 0xA3 ∷ 0xA5
    ∷ 0x5B ∷ 0x5C ∷ []

unfoldable pub is_one_of : ℕ → List ℕ → Bool
is_one_of x [] = false
is_one_of x (y ∷ ys) = x == y || is_one_of x ys

unfoldable pub is_extended_vk : ℕ → Bool
unfolding is_one_of
is_extended_vk vk = is_one_of vk extended_keys
