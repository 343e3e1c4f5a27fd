-- ===== src/Core/Layout/Entry.antt =====
-- `check_edge` against its specification.
use dshare.Base.{
  ℕ, ◌^◌, ◌<◌, ◌≡◌, refl, ◌⊎◌, inl, inr, Bool, none, some, ℤ, pos, ◌-ℤ◌, IsI32, arith, sub_i32,
  u32_as_i32, leb_ℤ, true, Bool-cases, i32_result_exact, ltb_ℤ, if◌then◌else◌, clamp, ◌-◌,
}
use dshare.Core.Layout.{Screen, PeerScreen, Edge, left, right, top, bottom, along_edge, crossed}
use dshare.Core.Layout.Spec.{IsProper, Crosses, InReach, Nearest, Entry}

pub u32_as_i32_small : (n : ℕ) → n < 2 ^ 31 → u32_as_i32 n ≡ pos n
u32_as_i32_small n h = ground arith

last_pixel :
    (checks : Bool) (size : ℕ)
    → 0 < size
    → size < 2 ^ 31
    → (sub_i32 checks (pos size) (pos 1) ≡ some (pos (size - 1)))
      × (pos (size - 1) ≡ pos size -ℤ pos 1)
unfolding ◌-ℤ◌
last_pixel checks size h k = ground arith

-- The number in 0 .. size - 1 that is nearest to `d`.
abbrev nearest : ℕ → ℤ → ℤ
nearest size d =
    if ltb_ℤ d (pos 0) then pos 0 else if ltb_ℤ (pos (size - 1)) d then pos (size - 1) else d

clamp-nearest :
    (size : ℕ) (d : ℤ) → 0 < size → clamp d (pos 0) (pos (size - 1)) ≡ some (nearest size d)
clamp-nearest size d h = ground arith

nearest-Nearest : (size : ℕ) (d : ℤ) → 0 < size → size < 2 ^ 31 → Nearest size d (nearest size d)
nearest-Nearest size d h k = ground (arith, last_pixel true size)

along_edge-nearest :
    (checks : Bool) (c offset : ℤ) (size : ℕ)
    → 0 < size
    → size < 2 ^ 31
    → IsI32 (c -ℤ offset)
    → along_edge checks c offset (pos size) ≡ some (nearest size (c -ℤ offset))
unfolding along_edge
along_edge-nearest checks c offset size h k r =
    rw (i32_result_exact checks (c -ℤ offset) r, (last_pixel checks size h k).0)
      (clamp-nearest size (c -ℤ offset) h)

-- One round of the loop: no answer without a crossing, and the entry point with one.
pub crossed_lem :
    (checks : Bool) (s : Screen) (x y : ℤ) (p : PeerScreen)
    → IsProper s
    → IsProper p.screen
    → InReach x y p
    → ((crossed checks (pos s.width) (pos s.height) x y p ≡ some none) × ¬ Crosses s x y p)
      ⊎ ((e : ℤ × ℤ) × (crossed checks (pos s.width) (pos s.height) x y p ≡ some (some e))
          × Crosses s x y p
          × Entry x y p e.0 e.1)
unfolding crossed
crossed_lem checks s x y p hs hp r = by_edge p.edge refl
  where
    at_w : u32_as_i32 p.screen.width ≡ pos p.screen.width
    at_w = u32_as_i32_small p.screen.width (omega arith)

    at_h : u32_as_i32 p.screen.height ≡ pos p.screen.height
    at_h = u32_as_i32_small p.screen.height (omega arith)

    by_edge :
        (edge : Edge)
        → p.edge ≡ edge
        → ((crossed checks (pos s.width) (pos s.height) x y p ≡ some none) × ¬ Crosses s x y p)
          ⊎ ((e : ℤ × ℤ) × (crossed checks (pos s.width) (pos s.height) x y p ≡ some (some e))
              × Crosses s x y p
              × Entry x y p e.0 e.1)
    by_edge left at = elim (Bool-cases (ltb_ℤ x (pos 0))) [
      | inl t ↦ inr (
        (pos (p.screen.width - 1), nearest p.screen.height (y -ℤ p.offset)),
        ground (
          arith,
          at_w,
          at_h,
          along_edge-nearest checks y p.offset p.screen.height,
          last_pixel checks p.screen.width,
        ),
        ground arith,
        ground (
          arith,
          nearest-Nearest p.screen.height (y -ℤ p.offset),
          last_pixel checks p.screen.width,
        ),
      )
      | inr t ↦ inl (ground (arith), λ c. ground arith)
    ]
    by_edge right at = elim (Bool-cases (leb_ℤ (pos s.width) x)) [
      | inl t ↦ inr (
        (pos 0, nearest p.screen.height (y -ℤ p.offset)),
        ground (
          arith,
          at_w,
          at_h,
          along_edge-nearest checks y p.offset p.screen.height,
          last_pixel checks p.screen.height,
        ),
        ground arith,
        ground (
          arith,
          nearest-Nearest p.screen.height (y -ℤ p.offset),
          last_pixel checks p.screen.height,
        ),
      )
      | inr t ↦ inl (ground (arith), λ c. ground arith)
    ]
    by_edge top at = elim (Bool-cases (ltb_ℤ y (pos 0))) [
      | inl t ↦ inr (
        (nearest p.screen.width (x -ℤ p.offset), pos (p.screen.height - 1)),
        ground (
          arith,
          at_w,
          at_h,
          along_edge-nearest checks x p.offset p.screen.width,
          last_pixel checks p.screen.height,
        ),
        ground arith,
        ground (
          arith,
          nearest-Nearest p.screen.width (x -ℤ p.offset),
          last_pixel checks p.screen.height,
        ),
      )
      | inr t ↦ inl (ground (arith), λ c. ground arith)
    ]
    by_edge bottom at = elim (Bool-cases (leb_ℤ (pos s.height) y)) [
      | inl t ↦ inr (
        (nearest p.screen.width (x -ℤ p.offset), pos 0),
        ground (
          arith,
          at_w,
          at_h,
          along_edge-nearest checks x p.offset p.screen.width,
          last_pixel checks p.screen.width,
        ),
        ground arith,
        ground (
          arith,
          nearest-Nearest p.screen.width (x -ℤ p.offset),
          last_pixel checks p.screen.width,
        ),
      )
      | inr t ↦ inl (ground (arith), λ c. ground arith)
    ]
