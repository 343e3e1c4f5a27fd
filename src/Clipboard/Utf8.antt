-- ===== src/Clipboard/Utf8.antt =====
-- `std::str::from_utf8`: the byte sequences that Unicode's table 3-7 calls well formed.
use dshare.Base.{
  ℕ, zero, suc, Bool, false, ◌&&◌, Option, none, some, List, [], ◌∷◌, leb, ◌==◌, if◌then◌else◌,
}

-- What may come next: so many more bytes of a character, the first of them in a range.
pub record Expect : Type 0 where
  pub more : ℕ
  pub least : ℕ
  pub greatest : ℕ

abbrev within : ℕ → ℕ → ℕ → Bool
within lo hi b = leb lo b && leb b hi

abbrev expect : ℕ → ℕ → ℕ → Option Expect
expect more lo hi = some (record { more = more; least = lo; greatest = hi })

-- By the first byte of a character; `none` for a byte that begins none.
unfoldable pub first_byte : ℕ → Option Expect
first_byte b =
    if leb b 0x7F
    then expect 0 0x80 0xBF
    else if within 0xC2 0xDF b
    then expect 1 0x80 0xBF
    else if b == 0xE0
    then expect 2 0xA0 0xBF
    else if b == 0xED
    then expect 2 0x80 0x9F
    else if within 0xE1 0xEF b
    then expect 2 0x80 0xBF
    else if b == 0xF0
    then expect 3 0x90 0xBF
    else if within 0xF1 0xF3 b
    then expect 3 0x80 0xBF
    else if b == 0xF4
    then expect 3 0x80 0x8F
    else none

unfoldable pub next_byte : Expect → ℕ → Option Expect
unfolding first_byte
next_byte e b = elim e.more [
  | zero ↦ first_byte b
  | suc n ↦ if within e.least e.greatest b then expect n 0x80 0xBF else none
]

unfoldable pub well_formed_from : Expect → List ℕ → Bool
well_formed_from e [] = e.more == 0
well_formed_from e (b ∷ bytes) = elim (next_byte e b) [
  | none ↦ false
  | some e' ↦ well_formed_from e' bytes
]

unfoldable pub well_formed : List ℕ → Bool
unfolding next_byte well_formed_from
well_formed bytes = well_formed_from (record { more = 0; least = 0x80; greatest = 0xBF }) bytes

unfoldable pub from_utf8 : List ℕ → Option (List ℕ)
unfolding well_formed
from_utf8 bytes = if well_formed bytes then some bytes else none
