-- ===== src/Tests/Layout.antt =====
-- Edge crossings, and the picture of a layout.
use dshare.Base.{◌≡◌, refl, true, false, none, some, [], ◌∷◌, ℤ, pos, negsuc, arith, codes, ◌-ℤ◌}
use dshare.Core.Layout.{
  PeerScreen, left, right, EdgeCross, along_edge, crossed, check_from, check_edge,
}
use dshare.Core.Layout.UnitTests.{layout_with_right_peer}
use dshare.Core.Layout.Spec.{Answers}
use dshare.Core.Layout.Check.{check_edge-Answers, check_edge-NoSide}
use dshare.Gui.Preview.{layout_preview}
use dshare.Gui.Preview.Exact.{exact, Box, boxes}
use dshare.Gui.Preview.Agreement.{Meets, check_edge-Meets}

check_edge-Answers_example :
    (r : EdgeCross) × (check_edge true layout_with_right_peer (pos 1920) (pos 1079) ≡ some r)
    × Answers layout_with_right_peer.server_screen layout_with_right_peer.peers
        (pos 1920)
        (pos 1079)
        r
unfolding ◌-ℤ◌
check_edge-Answers_example =
    check_edge-Answers true layout_with_right_peer (pos 1920) (pos 1079) (omega arith) (omega arith)
      (omega arith)

-- The peer of that layout.
abbrev beside : PeerScreen
beside = record {
  peer_id = 0;
  name = codes "ubuntu";
  edge = right;
  offset = pos 0;
  screen = record { width = 2560; height = 1440 };
}

abbrev flat : PeerScreen
flat = record beside { edge = left; screen = record { width = 1920; height = 0 } }

check_edge-NoSide_example :
    check_edge false (record layout_with_right_peer { peers = flat ∷ [] }) (negsuc 0) (pos 5) ≡ none
check_edge-NoSide_example =
    check_edge-NoSide false (record layout_with_right_peer { peers = flat ∷ [] }) flat [] (negsuc 0)
      (pos 5) (omega arith) (omega arith) refl refl (omega arith)

-- A panel that puts a widget at the window's corner.
abbrev at_corner : ℤ × ℤ → Box
at_corner (w, h) = record { left = pos 0; right = w; top = pos 0; bottom = h }

check_edge-Meets_example :
    Meets
      (layout_preview exact boxes at_corner layout_with_right_peer)
      0
      (pos 0, pos 500)
      (pos 1920, pos 500)
unfolding check_edge check_from crossed along_edge ◌-ℤ◌
check_edge-Meets_example =
    check_edge-Meets true at_corner layout_with_right_peer (pos 1920) (pos 500) 0 beside (pos 0)
      (pos 500) (omega arith) (omega arith) (omega arith) refl refl (omega arith)
