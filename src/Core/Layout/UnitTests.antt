-- ===== src/Core/Layout/UnitTests.antt =====
-- The unit tests of crates/dshare-core/src/layout.rs. A test that panics is `false`.
use dshare.Base.{◌≡◌, refl, Bool, true, false, some, [], ◌∷◌, pos, ◌-ℤ◌, codes, ◌==◌, ◌&&◌}
use dshare.Core.Layout.{right, Layout, stay, cross, along_edge, crossed, check_from, check_edge}

abbrev pub layout_with_right_peer : Layout
layout_with_right_peer = record {
  server_screen = record { width = 1920; height = 1080 };
  peers =
      record {
        peer_id = 0;
        name = codes "ubuntu";
        edge = right;
        offset = pos 0;
        screen = record { width = 2560; height = 1440 };
      }
      ∷ [];
}

unfoldable pub cursor_within_server_stays : (checks : Bool) → Bool
cursor_within_server_stays checks =
    elim (check_edge checks layout_with_right_peer (pos 100) (pos 100)) [
      | some stay ↦ true
      | _ ↦ false
    ]

unfoldable pub cursor_crosses_right_edge : (checks : Bool) → Bool
cursor_crosses_right_edge checks =
    elim (check_edge checks layout_with_right_peer (pos 1920) (pos 500)) [
      | some (cross i (pos x) (pos y)) ↦ (i == 0) && (x == 0) && (y == 500)
      | _ ↦ false
    ]

unfoldable pub cursor_clamped_below_peer_height : (checks : Bool) → Bool
cursor_clamped_below_peer_height checks =
    elim (check_edge checks layout_with_right_peer (pos 1920) (pos 1079)) [
      | some (cross _ _ (pos y)) ↦ y == 1079
      | _ ↦ false
    ]

-- The tests pass in either build.
layout_tests_pass :
    (checks : Bool)
    → (cursor_within_server_stays checks ≡ true)
      × (cursor_crosses_right_edge checks ≡ true)
      × (cursor_clamped_below_peer_height checks ≡ true)
unfolding cursor_within_server_stays cursor_crosses_right_edge cursor_clamped_below_peer_height
    check_edge check_from crossed along_edge ◌-ℤ◌
layout_tests_pass true = (refl, refl, refl)
layout_tests_pass false = (refl, refl, refl)
