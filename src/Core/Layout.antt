-- ===== src/Core/Layout.antt =====
-- crates/dshare-core/src/layout.rs: where each peer's screen sits, and which peer the cursor enters.
-- `none` is a panic. `checks` says whether the build checks i32 overflow; without, it wraps.
pub mod Spec
pub mod Entry
pub mod Check
pub mod UnitTests
use dshare.Base.{
  ℕ, zero, suc, Bool, Option, none, some, List, [], ◌∷◌, ℤ, pos, ltb_ℤ, leb_ℤ, if◌then◌else◌,
  sub_i32, clamp, u32_as_i32, ◌>>=◌,
}
use dshare.Protocol.{Bytes}

pub record Screen : Type 0 where
  pub width : ℕ
  pub height : ℕ

abbrev pub default_screen : Screen
default_screen = record { width = 1920; height = 1080 }

pub data Edge : Type 0 where
  left right top bottom : Edge

pub record PeerScreen : Type 0 where
  pub peer_id : ℕ
  pub name : Bytes
  pub edge : Edge
  pub offset : ℤ
  pub screen : Screen

pub record Layout : Type 0 where
  pub server_screen : Screen
  pub peers : List PeerScreen

abbrev pub default_layout : Layout
default_layout = record { server_screen = default_screen; peers = [] }

pub data EdgeCross : Type 0 where
  stay : EdgeCross
  cross : (peer_index : ℕ) → (entry_x entry_y : ℤ) → EdgeCross

-- `(c - offset).clamp(0, size - 1)`
unfoldable pub along_edge : Bool → ℤ → ℤ → ℤ → Option ℤ
along_edge checks c offset size = do
  d ← sub_i32 checks c offset
  last ← sub_i32 checks size (pos 1)
  clamp d (pos 0) last

-- The `match` of the loop body, for a server screen of size `w` by `h`.
unfoldable pub crossed : Bool → (w h x y : ℤ) → PeerScreen → Option (Option (ℤ × ℤ))
crossed checks w h x y peer =
    let pw = u32_as_i32 peer.screen.width in
    let ph = u32_as_i32 peer.screen.height in
    elim peer.edge [
      | left ↦
          if ltb_ℤ x (pos 0)
          then (do
            local_y ← along_edge checks y peer.offset ph
            ex ← sub_i32 checks pw (pos 1)
            some (some (ex, local_y)))
          else some none
      | right ↦
          if leb_ℤ w x
          then (do local_y ← along_edge checks y peer.offset ph; some (some (pos 0, local_y)))
          else some none
      | top ↦
          if ltb_ℤ y (pos 0)
          then (do
            local_x ← along_edge checks x peer.offset pw
            ey ← sub_i32 checks ph (pos 1)
            some (some (local_x, ey)))
          else some none
      | bottom ↦
          if leb_ℤ h y
          then (do local_x ← along_edge checks x peer.offset pw; some (some (local_x, pos 0)))
          else some none
    ]

-- The loop, from the peer with index `i` on.
unfoldable pub check_from : Bool → (w h x y : ℤ) → ℕ → List PeerScreen → Option EdgeCross
check_from checks w h x y i [] = some stay
check_from checks w h x y i (peer ∷ peers) =
    let next = check_from checks w h x y (suc i) peers in
    crossed checks w h x y peer >>= λ c. elim c [
      | some (ex, ey) ↦ some (cross i ex ey)
      | none ↦ next
    ]

unfoldable pub check_edge : Bool → Layout → (x y : ℤ) → Option EdgeCross
check_edge checks self x y =
    check_from checks (u32_as_i32 self.server_screen.width) (u32_as_i32 self.server_screen.height) x
      y 0 self.peers
