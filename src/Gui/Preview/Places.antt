-- ===== src/Gui/Preview/Places.antt =====
-- Where the preview draws what, in exact arithmetic.
use dshare.Base.{
  ℕ, ◌*◌, ◌≡◌, refl, ap, ℤ, pos, negsuc, ◌+ℤ◌, ◌-ℤ◌, ◌*ℤ◌, ◌≤ℤ◌, ◌<ℤ◌, div_ℤ, pos_part, neg_part,
  eq_of_parts, -ℤ_parts, +ℤ_parts, arith,
}
use dshare.Protocol.{Bytes}
use dshare.Core.Layout.{Screen, Edge, left, right, top, bottom}
use dshare.Core.Layout.Spec.{EntersAt, Nearest}
use dshare.Gui.Preview.{scaled, peer_center}
use dshare.Gui.Preview.Exact.{exact, Box, boxes, exact_pixels, exact_offset, exact_half}

*ℤ_six_parts :
    (a : ℤ) → (pos_part (a *ℤ pos 6) ≡ 6 * pos_part a) × (neg_part (a *ℤ pos 6) ≡ 6 * neg_part a)
unfolding ◌*ℤ◌
*ℤ_six_parts a = ground arith

half_of_six : (n : ℕ) → div_ℤ (pos (6 * n)) 2 ≡ pos (3 * n)
half_of_six n = ap pos (omega arith)

-- Where the pixel (x, y) of the screen that `r` shows is drawn: its corner at the top and the left.
abbrev pub drawn_at : Box → (x y : ℤ) → ℤ × ℤ
drawn_at r x y = (r.left +ℤ x *ℤ pos 6, r.top +ℤ y *ℤ pos 6)

-- The pixel behind the edge of the server's screen, at the cursor's place along that edge.
abbrev pub next_to : Edge → Screen → (x y : ℤ) → ℤ × ℤ
next_to left s x y = (negsuc 0, y)
next_to right s x y = (pos s.width, y)
next_to top s x y = (x, negsuc 0)
next_to bottom s x y = (x, pos s.height)

-- The cursor is at a place of the edge where the peer's screen is.
abbrev pub Beside : Edge → Screen → (dx dy : ℤ) → Type 0
Beside left s dx dy = (pos 0 ≤ℤ dy) × (dy <ℤ pos s.height)
Beside right s dx dy = (pos 0 ≤ℤ dy) × (dy <ℤ pos s.height)
Beside top s dx dy = (pos 0 ≤ℤ dx) × (dx <ℤ pos s.width)
Beside bottom s dx dy = (pos 0 ≤ℤ dx) × (dx <ℤ pos s.width)

scaled_lem : (s : Screen) → scaled exact boxes s ≡ (pos (6 * s.width), pos (6 * s.height))
unfolding scaled
scaled_lem s = rw (exact_pixels s.width, exact_pixels s.height) refl

abbrev pub box_at : (center : ℤ × ℤ) → Screen → Box
box_at c s = record {
  left = c.0 -ℤ pos (3 * s.width);
  right = c.0 +ℤ pos (3 * s.width);
  top = c.1 -ℤ pos (3 * s.height);
  bottom = c.1 +ℤ pos (3 * s.height);
}

pub from_center_size_lem :
    (c : ℤ × ℤ) (s : Screen) → boxes.from_center_size c (scaled exact boxes s) ≡ box_at c s
from_center_size_lem c s = rw (scaled_lem s, half_of_six s.width, half_of_six s.height) refl

-- `peer_center` without the scaling.
abbrev pub center_at : Edge → Box → (offset : ℤ) → Screen → ℤ × ℤ
center_at left r o s = (r.left -ℤ pos (3 * s.width), r.top +ℤ o *ℤ pos 6 +ℤ pos (3 * s.height))
center_at right r o s = (r.right +ℤ pos (3 * s.width), r.top +ℤ o *ℤ pos 6 +ℤ pos (3 * s.height))
center_at top r o s = (r.left +ℤ o *ℤ pos 6 +ℤ pos (3 * s.width), r.top -ℤ pos (3 * s.height))
center_at bottom r o s = (r.left +ℤ o *ℤ pos 6 +ℤ pos (3 * s.width), r.bottom +ℤ pos (3 * s.height))

ruleset unscaled = (exact_pixels, exact_offset, exact_half)

pub peer_center_lem :
    (r : Box) (edge : Edge) (id : ℕ) (name : Bytes) (offset : ℤ) (s : Screen)
    → peer_center exact boxes r
        (record { peer_id = id; name = name; edge = edge; offset = offset; screen = s })
      ≡ center_at edge r offset s
unfolding peer_center scaled
peer_center_lem r left id name offset s = simp unscaled
peer_center_lem r right id name offset s = simp unscaled
peer_center_lem r top id name offset s = simp unscaled
peer_center_lem r bottom id name offset s = simp unscaled

pair_eq : {a b c d : ℤ} → a ≡ c → b ≡ d → Path (ℤ × ℤ) (a, b) (c, d)
pair_eq h k = cc

ruleset sums = (arith, -ℤ_parts, +ℤ_parts, *ℤ_six_parts)

-- Across the edge: the peer's pixels that touch the server are the pixels behind its edge.
across_far :
    (u : ℤ) (n m : ℕ)
    → u +ℤ pos (3 * n) +ℤ pos (3 * m) -ℤ pos (3 * m) +ℤ pos 0 *ℤ pos 6
      ≡ u -ℤ pos (3 * n) +ℤ pos n *ℤ pos 6
across_far u n m = eq_of_parts _ _ (grind sums)

across_near :
    (u e : ℤ) (n m : ℕ)
    → e ≡ pos m -ℤ pos 1
    → u -ℤ pos (3 * n) -ℤ pos (3 * m) -ℤ pos (3 * m) +ℤ e *ℤ pos 6
      ≡ u -ℤ pos (3 * n) +ℤ negsuc 0 *ℤ pos 6
across_near u e n m h = eq_of_parts _ _ (grind sums)

-- Along the edge, where the cursor is beside the peer.
along :
    (u o x e : ℤ) (n m size : ℕ)
    → (pos 0 ≤ℤ x -ℤ o) × (x -ℤ o <ℤ pos size)
    → Nearest size (x -ℤ o) e
    → u -ℤ pos (3 * n) +ℤ o *ℤ pos 6 +ℤ pos (3 * m) -ℤ pos (3 * m) +ℤ e *ℤ pos 6
      ≡ u -ℤ pos (3 * n) +ℤ x *ℤ pos 6
along u o x e n m size beside nearest =
    let at : (e ≡ x -ℤ o) = ground arith in eq_of_parts _ _ (grind sums)

pub center_at_lem :
    (c : ℤ × ℤ) (s : Screen) (edge : Edge) (o : ℤ) (q : Screen) (x y ex ey : ℤ)
    → Beside edge q (x -ℤ o) (y -ℤ o)
    → EntersAt edge q (x -ℤ o) (y -ℤ o) ex ey
    → drawn_at (box_at (center_at edge (box_at c s) o q) q) ex ey
      ≡ (let (a, b) = next_to edge s x y in drawn_at (box_at c s) a b)
center_at_lem c s left o q x y ex ey beside (at, n) =
    pair_eq (across_near c.0 ex s.width q.width at)
      (along c.1 o y ey s.height q.height q.height beside n)
center_at_lem c s right o q x y ex ey beside (at, n) =
    pair_eq (rw at (across_far c.0 s.width q.width))
      (along c.1 o y ey s.height q.height q.height beside n)
center_at_lem c s top o q x y ex ey beside (n, at) =
    pair_eq (along c.0 o x ex s.width q.width q.width beside n)
      (across_near c.1 ey s.height q.height at)
center_at_lem c s bottom o q x y ex ey beside (n, at) =
    pair_eq (along c.0 o x ex s.width q.width q.width beside n)
      (rw at (across_far c.1 s.height q.height))
