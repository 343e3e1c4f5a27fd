-- ===== src/Gui/Preview/Agreement.antt =====
-- The preview against `check_edge`.
use dshare.Base.{
  ℕ, zero, suc, ◌+◌, ◌≡◌, ◌∙◌, ap, Bool, some, List, [], ◌∷◌, ℤ, ◌-ℤ◌, get_elem?, All, arith,
}
use mathlib.Core.Path.{subst}
use dshare.Core.Layout.{PeerScreen, Layout, cross, check_edge}
use dshare.Core.Layout.Spec.{IsProper, InReach, Entry, Answers}
use dshare.Core.Layout.Check.{check_edge-Answers}
use dshare.Gui.Preview.{
  Shape, rect_filled, scaled, server_rect, peer_center, peer_rect, peer_shapes, layout_preview,
}
use dshare.Gui.Preview.Exact.{exact, Box, boxes}
use dshare.Gui.Preview.Places.{
  drawn_at, next_to, Beside, box_at, center_at, from_center_size_lem, peer_center_lem,
  center_at_lem,
}

-- What the loop draws for the peer with index `i`.
peer_shapes-get_elem? :
    (r : Box) (peers : List PeerScreen) (i : ℕ) (p : PeerScreen)
    → get_elem? peers i ≡ some p
    → get_elem? (peer_shapes exact boxes r peers) (i + i)
      ≡ some (rect_filled (peer_rect exact boxes r p) 4 (120, 160, 100))
unfolding peer_shapes
peer_shapes-get_elem? r (q ∷ peers) zero p h = ground arith
peer_shapes-get_elem? r (q ∷ peers) (suc i) p h =
    let at : (suc i + suc i ≡ suc (suc (i + i))) = omega arith in
    rw at (peer_shapes-get_elem? r peers i p h)
peer_shapes-get_elem? r [] i p h = absurd (ground arith)

server_rect_lem : (c : ℤ × ℤ) (l : Layout) → server_rect exact boxes c l ≡ box_at c l.server_screen
unfolding server_rect
server_rect_lem c l = from_center_size_lem c l.server_screen

peer_rect_lem :
    (r : Box) (p : PeerScreen)
    → peer_rect exact boxes r p ≡ box_at (center_at p.edge r p.offset p.screen) p.screen
unfolding peer_rect
peer_rect_lem r p =
    from_center_size_lem (peer_center exact boxes r p) p.screen
    ∙ ap (λ c. box_at c p.screen) (peer_center_lem r p.edge p.peer_id p.name p.offset p.screen)

-- The picture's rectangles for the server and for the peer with index `i` have the pixel `here` of
-- the peer's screen at the place of the pixel `there` of the server's.
abbrev pub Meets : List (Shape ℤ Box) → ℕ → (here there : ℤ × ℤ) → Type 0
Meets shapes i here there =
    (server : Box) × (peer : Box) × (get_elem? shapes 0
      ≡ some (rect_filled server 4 (80, 100, 160)))
    × (get_elem? shapes (2 + (i + i)) ≡ some (rect_filled peer 4 (120, 160, 100)))
    × (drawn_at peer here.0 here.1 ≡ drawn_at server there.0 there.1)

layout_preview-Meets :
    (allocate : ℤ × ℤ → Box) (l : Layout) (i : ℕ) (p : PeerScreen) (x y ex ey : ℤ)
    → get_elem? l.peers i ≡ some p
    → Beside p.edge p.screen (x -ℤ p.offset) (y -ℤ p.offset)
    → Entry x y p ex ey
    → Meets (layout_preview exact boxes allocate l) i (ex, ey) (next_to p.edge l.server_screen x y)
unfolding layout_preview
layout_preview-Meets allocate l i p x y ex ey found beside entry =
    let size = scaled exact boxes l.server_screen in
    let c = boxes.center_of (allocate (exact.mul size.0 exact.four, exact.mul size.1 exact.four)) in
    let server = box_at c l.server_screen in
    let at : (2 + (i + i) ≡ suc (suc (i + i))) = omega arith in
    let drawn = server_rect_lem c l in
    (
      server,
      box_at (center_at p.edge server p.offset p.screen) p.screen,
      ap (λ r. some (rect_filled r 4 (80, 100, 160))) drawn,
      rw (at, drawn)
          (peer_shapes-get_elem? server l.peers i p found
            ∙ ap (λ r. some (rect_filled r 4 (120, 160, 100))) (peer_rect_lem server p)),
      center_at_lem c l.server_screen p.edge p.offset p.screen x y ex ey beside entry,
    )

-- On proper screens, and if the cursor's coordinates less each peer's offset are i32s: where the
-- cursor crosses to a peer and is at a place of the edge where that peer's screen is, the pixel at
-- which check_edge lets it enter is drawn, in the preview of the same layout and without rounding,
-- exactly at the pixel behind the edge of the server's screen that the cursor leaves by.
pub check_edge-Meets :
    (checks : Bool) (allocate : ℤ × ℤ → Box) (l : Layout) (x y : ℤ) (i : ℕ) (p : PeerScreen)
    (ex ey : ℤ)
    → IsProper l.server_screen
    → All (λ q. IsProper q.screen) l.peers
    → All (InReach x y) l.peers
    → check_edge checks l x y ≡ some (cross i ex ey)
    → get_elem? l.peers i ≡ some p
    → Beside p.edge p.screen (x -ℤ p.offset) (y -ℤ p.offset)
    → Meets (layout_preview exact boxes allocate l) i (ex, ey) (next_to p.edge l.server_screen x y)
check_edge-Meets checks allocate l x y i p ex ey hs hp hr e found beside =
    let (r, answer, a) = check_edge-Answers checks l x y hs hp hr in
    let crosses : (r ≡ cross i ex ey) = ground (arith, answer, e) in
    let (q, there, c, before, entry) : Answers l.server_screen l.peers x y (cross i ex ey) =
      subst (λ t. Answers l.server_screen l.peers x y t) crosses a in
    let same : (q ≡ p) = ground (arith, there, found) in
    layout_preview-Meets allocate l i p x y ex ey found beside
      (subst (λ t. Entry x y t ex ey) same entry)
