-- ===== src/Gui/Preview.antt =====
-- `layout_preview` of crates/dshare-gui/src/lib.rs. f32 and egui's geometry are arguments: `F` are the
-- floats, `Rect` the rectangles.
pub mod Exact
pub mod Places
pub mod Agreement
use dshare.Base.{ℕ, List, [], ◌∷◌, ◌++◌, ℤ, codes}
use dshare.Protocol.{Bytes}
use dshare.Core.Layout.{Screen, Edge, left, right, top, bottom, PeerScreen, Layout}

-- What the code does with an f32, and the literals that it writes.
pub record F32 (F : Type 0) : Type 0 where
  pub of_u32 : ℕ → F
  pub of_i32 : ℤ → F
  pub scale : F
  pub two : F
  pub four : F
  pub add : F → F → F
  pub sub : F → F → F
  pub mul : F → F → F
  pub div : F → F → F

-- `egui::Rect`.
pub record Rects (F Rect : Type 0) : Type 0 where
  pub from_center_size : (center size : F × F) → Rect
  pub left_of : Rect → F
  pub right_of : Rect → F
  pub top_of : Rect → F
  pub bottom_of : Rect → F
  pub center_of : Rect → F × F

-- What the painter is told: a rectangle with its rounding and colour, a white text about a point.
pub data Shape (F Rect : Type 0) : Type 0 where
  rect_filled : Rect → (rounding : ℕ) → (color : ℕ × ℕ × ℕ) → Shape F Rect
  text : (at : F × F) → Bytes → Shape F Rect

module _ {F Rect : Type 0} (f : F32 F) (rects : Rects F Rect) where
  -- `egui::vec2(width as f32 * scale, height as f32 * scale)`
  unfoldable pub scaled : Screen → F × F
  scaled s = (f.mul (f.of_u32 s.width) f.scale, f.mul (f.of_u32 s.height) f.scale)

  unfoldable pub server_rect : (center : F × F) → Layout → Rect
  unfolding scaled
  server_rect center layout = rects.from_center_size center (scaled layout.server_screen)

  unfoldable pub peer_center : (server : Rect) → PeerScreen → F × F
  unfolding scaled
  peer_center server peer =
      let (w, h) = scaled peer.screen in
      let offset_px = f.mul (f.of_i32 peer.offset) f.scale in
      let along_y = f.add (f.add (rects.top_of server) offset_px) (f.div h f.two) in
      let along_x = f.add (f.add (rects.left_of server) offset_px) (f.div w f.two) in
      elim peer.edge [
        | right ↦ (f.add (rects.right_of server) (f.div w f.two), along_y)
        | left ↦ (f.sub (rects.left_of server) (f.div w f.two), along_y)
        | top ↦ (along_x, f.sub (rects.top_of server) (f.div h f.two))
        | bottom ↦ (along_x, f.add (rects.bottom_of server) (f.div h f.two))
      ]

  unfoldable pub peer_rect : (server : Rect) → PeerScreen → Rect
  unfolding peer_center
  peer_rect server peer = rects.from_center_size (peer_center server peer) (scaled peer.screen)

  -- The loop over the peers.
  unfoldable pub peer_shapes : (server : Rect) → List PeerScreen → List (Shape F Rect)
  unfolding peer_rect
  peer_shapes server [] = []
  peer_shapes server (peer ∷ peers) =
      let r = peer_rect server peer in
      rect_filled r 4 (120, 160, 100)
      ∷ text (rects.center_of r) peer.name
      ∷ peer_shapes server peers

  -- `allocate` is where the panel puts a widget of a size.
  unfoldable pub layout_preview : (allocate : F × F → Rect) → Layout → List (Shape F Rect)
  unfolding server_rect peer_shapes
  layout_preview allocate layout =
      let (w, h) = scaled layout.server_screen in
      let rect = allocate (f.mul w f.four, f.mul h f.four) in
      let server = server_rect (rects.center_of rect) layout in
      rect_filled server 4 (80, 100, 160)
      ∷ text (rects.center_of server) (codes "Server")
      ∷ peer_shapes server layout.peers
