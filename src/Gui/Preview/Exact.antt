-- ===== src/Gui/Preview/Exact.antt =====
-- Arithmetic in which the preview is drawn without rounding: whole fortieths of a point, of which the
-- 0.15 points of a pixel are six.
use dshare.Base.{ℕ, ◌*◌, ◌≡◌, ℤ, pos, ◌+ℤ◌, ◌-ℤ◌, ◌*ℤ◌, div_ℤ, pos_part, arith}
use dshare.Gui.Preview.{F32, Rects}

abbrev pub exact : F32 ℤ
exact = record {
  of_u32 = λ n. pos (40 * n);
  of_i32 = λ z. z *ℤ pos 40;
  scale = pos 6;
  two = pos 80;
  four = pos 160;
  add = λ a b. a +ℤ b;
  sub = λ a b. a -ℤ b;
  mul = λ a b. div_ℤ (a *ℤ b) 40;
  div = λ a b. div_ℤ (a *ℤ pos 40) (pos_part b);
}

pub record Box : Type 0 where
  pub left : ℤ
  pub right : ℤ
  pub top : ℤ
  pub bottom : ℤ

abbrev pub boxes : Rects ℤ Box
boxes = record {
  from_center_size = λ center size. record {
    left = center.0 -ℤ div_ℤ size.0 2;
    right = center.0 +ℤ div_ℤ size.0 2;
    top = center.1 -ℤ div_ℤ size.1 2;
    bottom = center.1 +ℤ div_ℤ size.1 2;
  };
  left_of = λ r. r.left;
  right_of = λ r. r.right;
  top_of = λ r. r.top;
  bottom_of = λ r. r.bottom;
  center_of = λ r. (div_ℤ (r.left +ℤ r.right) 2, div_ℤ (r.top +ℤ r.bottom) 2);
}

-- A length in pixels, and the half of it.
pub exact_pixels : (n : ℕ) → exact.mul (exact.of_u32 n) exact.scale ≡ pos (6 * n)
unfolding ◌*ℤ◌
exact_pixels n = ground arith

pub exact_offset : (z : ℤ) → exact.mul (exact.of_i32 z) exact.scale ≡ z *ℤ pos 6
unfolding ◌*ℤ◌
exact_offset z = ground arith

pub exact_half : (n : ℕ) → exact.div (pos (6 * n)) exact.two ≡ pos (3 * n)
unfolding ◌*ℤ◌
exact_half n = ground arith
