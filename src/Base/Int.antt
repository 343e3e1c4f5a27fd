-- ===== src/Base/Int.antt =====
-- Signed integers over the native numbers, and the i32 of the source: a number in its range, with
-- the build profile's choice between a panic and a wrap where an operation leaves it.
use Prim.Native.Nat.{ℕ, suc, ◌+◌, ◌-◌, ◌*◌, ◌^◌, ◌%◌, ◌/◌, ◌≤◌, ◌<◌}
use mathlib.Core.Path.{◌≡◌, refl}
use mathlib.Core.Bool.{Bool, false, ◌&&◌}
use mathlib.Core.Logic.{inl, inr}
use mathlib.Core.Option.{Option, none, some}
use native.Mathlib.Omega.{arith}
use dshare.Base.Tests.{ltb, leb, if◌then◌else◌, Bool-cases}

-- `negsuc n` is -(n + 1).
pub data ℤ : Type 0 where
  pos : ℕ → ℤ
  negsuc : ℕ → ℤ

abbrev pub pos_part : ℤ → ℕ
pos_part (pos n) = n
pos_part (negsuc n) = 0

abbrev pub neg_part : ℤ → ℕ
neg_part (pos n) = 0
neg_part (negsuc n) = suc n

-- a - b, as an integer.
abbrev pub sub_ℕ : ℕ → ℕ → ℤ
sub_ℕ a b = if leb b a then pos (a - b) else negsuc (b - a - 1)

infixl 65 ◌+ℤ◌ ◌-ℤ◌
infixl 70 ◌*ℤ◌
infix 50 ◌≤ℤ◌ ◌<ℤ◌
unfoldable pub ◌+ℤ◌ : ℤ → ℤ → ℤ
a +ℤ b = sub_ℕ (pos_part a + pos_part b) (neg_part a + neg_part b)

unfoldable pub ◌-ℤ◌ : ℤ → ℤ → ℤ
a -ℤ b = sub_ℕ (pos_part a + neg_part b) (neg_part a + pos_part b)

unfoldable pub ◌*ℤ◌ : ℤ → ℤ → ℤ
a *ℤ b =
    sub_ℕ (pos_part a * pos_part b + neg_part a * neg_part b)
      (pos_part a * neg_part b + neg_part a * pos_part b)

abbrev pub ◌≤ℤ◌ : ℤ → ℤ → Type 0
a ≤ℤ b = pos_part a + neg_part b ≤ pos_part b + neg_part a

abbrev pub ◌<ℤ◌ : ℤ → ℤ → Type 0
a <ℤ b = pos_part a + neg_part b < pos_part b + neg_part a

abbrev pub ltb_ℤ : ℤ → ℤ → Bool
ltb_ℤ a b = ltb (pos_part a + neg_part b) (pos_part b + neg_part a)

abbrev pub leb_ℤ : ℤ → ℤ → Bool
leb_ℤ a b = leb (pos_part a + neg_part b) (pos_part b + neg_part a)

-- `/` of the source on signed numbers rounds towards zero.
abbrev pub div_ℤ : ℤ → ℕ → ℤ
div_ℤ (pos n) k = pos (n / k)
div_ℤ (negsuc n) k = sub_ℕ 0 (suc n / k)

abbrev pub IsI32 : ℤ → Type 0
IsI32 z = (negsuc (2 ^ 31 - 1) ≤ℤ z) × (z ≤ℤ pos (2 ^ 31 - 1))

abbrev pub in_i32 : ℤ → Bool
in_i32 z = leb_ℤ (negsuc (2 ^ 31 - 1)) z && leb_ℤ z (pos (2 ^ 31 - 1))

-- The bit pattern of an integer, as `as u32` gives it, and the i32 that a pattern stands for.
abbrev pub to_u32 : ℤ → ℕ
to_u32 (pos n) = n % 2 ^ 32
to_u32 (negsuc n) = 2 ^ 32 - 1 - n % 2 ^ 32

abbrev pub signed32 : ℕ → ℤ
signed32 w = if ltb w (2 ^ 31) then pos w else negsuc (2 ^ 32 - w - 1)

-- `x as i32` of a u32.
abbrev pub u32_as_i32 : ℕ → ℤ
u32_as_i32 w = signed32 (w % 2 ^ 32)

-- An i32 operation whose exact result is `z`. With overflow checks (a debug build) a result out of
-- range is a panic, which is `none`; without them (a release build) it wraps.
abbrev pub i32_result : Bool → ℤ → Option ℤ
i32_result checks z =
    if in_i32 z then some z else if checks then none else some (signed32 (to_u32 z))

abbrev pub sub_i32 : Bool → ℤ → ℤ → Option ℤ
sub_i32 checks a b = i32_result checks (a -ℤ b)

-- Without overflow checks the difference wraps.
pub sub_i32_total : (a b : ℤ) → (z : ℤ) × (sub_i32 false a b ≡ some z)
sub_i32_total a b = elim (Bool-cases (in_i32 (a -ℤ b))) [
  | inl e ↦ (a -ℤ b, rw e refl)
  | inr e ↦ (signed32 (to_u32 (a -ℤ b)), rw e refl)
]

abbrev pub mul_i32 : Bool → ℤ → ℤ → Option ℤ
mul_i32 checks a b = i32_result checks (a *ℤ b)

-- `v.clamp(lo, hi)` asserts `lo <= hi`, in every build.
abbrev pub clamp : ℤ → ℤ → ℤ → Option ℤ
clamp v lo hi =
    if ltb_ℤ hi lo then none else some (if ltb_ℤ v lo then lo else if ltb_ℤ hi v then hi else v)

pub -ℤ_parts :
    (a b : ℤ)
    → pos_part (a -ℤ b) + neg_part a + pos_part b ≡ neg_part (a -ℤ b) + pos_part a + neg_part b
unfolding ◌-ℤ◌
-ℤ_parts a b = ground arith

pub eq_of_parts : (a b : ℤ) → pos_part a + neg_part b ≡ pos_part b + neg_part a → a ≡ b
eq_of_parts a b h = ground arith

pub +ℤ_parts :
    (a b : ℤ)
    → pos_part (a +ℤ b) + neg_part a + neg_part b ≡ neg_part (a +ℤ b) + pos_part a + pos_part b
unfolding ◌+ℤ◌
+ℤ_parts a b = ground arith

pub +ℤ_assoc : (a b c : ℤ) → a +ℤ b +ℤ c ≡ a +ℤ (b +ℤ c)
+ℤ_assoc a b c = eq_of_parts _ _ (grind (arith, +ℤ_parts))

pub zero-+ℤ : (a : ℤ) → pos 0 +ℤ a ≡ a
zero-+ℤ a = eq_of_parts _ _ (grind (arith, +ℤ_parts))

pub -ℤ_self : (a : ℤ) → a -ℤ a ≡ pos 0
-ℤ_self a = eq_of_parts _ _ (grind (arith, -ℤ_parts))

-- The way from `p` to `q` and on to `r`.
pub -ℤ_telescope : (p q r : ℤ) → (q -ℤ p) +ℤ (r -ℤ q) ≡ r -ℤ p
-ℤ_telescope p q r = eq_of_parts _ _ (grind (arith, +ℤ_parts, -ℤ_parts))

-- A difference that is an i32 is formed as it is, in either build.
pub i32_result_exact : (checks : Bool) (z : ℤ) → IsI32 z → i32_result checks z ≡ some z
i32_result_exact checks z h = ground arith

pub ruleset int_laws = (arith, -ℤ_parts, eq_of_parts)
