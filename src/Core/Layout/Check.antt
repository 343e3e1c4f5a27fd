-- ===== src/Core/Layout/Check.antt =====
-- `check_edge` against its specification, and the layouts on which it does not come through.
use dshare.Base.{
  ℕ, suc, ◌+◌, ◌^◌, ◌<◌, ◌≡◌, refl, inl, inr, Bool, none, some, List, [], ◌∷◌, ℤ, pos, ◌-ℤ◌, ◌≤ℤ◌,
  ◌<ℤ◌, All, arith, sub_i32, ap, ◌∙◌, Option-cases,
}
use dshare.Core.Layout.{
  Screen, PeerScreen, Edge, left, right, top, bottom, Layout, EdgeCross, stay, cross, along_edge,
  crossed, check_from, check_edge,
}
use dshare.Core.Layout.Spec.{IsProper, Crosses, InReach, Answers}
use dshare.Core.Layout.Entry.{crossed_lem, u32_as_i32_small}

-- The answer of the loop that started `i` peers earlier.
abbrev counted_from : ℕ → EdgeCross → EdgeCross
counted_from i stay = stay
counted_from i (cross k ex ey) = cross (i + k) ex ey

-- The answer for a list with one more peer in front.
abbrev behind_one : EdgeCross → EdgeCross
behind_one stay = stay
behind_one (cross k ex ey) = cross (suc k) ex ey

counted_from-behind_one :
    (i : ℕ) (r : EdgeCross) → counted_from (suc i) r ≡ counted_from i (behind_one r)
counted_from-behind_one i stay = refl
counted_from-behind_one i (cross k ex ey) = ap (λ (n : ℕ). cross n ex ey) (omega arith)

counted_from-zero : (r : EdgeCross) → counted_from 0 r ≡ r
counted_from-zero stay = refl
counted_from-zero (cross k ex ey) = ap (λ (n : ℕ). cross n ex ey) (omega arith)

Answers-cons :
    (s : Screen) (p : PeerScreen) (peers : List PeerScreen) (x y : ℤ) (r : EdgeCross)
    → ¬ Crosses s x y p
    → Answers s peers x y r
    → Answers s (p ∷ peers) x y (behind_one r)
Answers-cons s p peers x y stay n a = (n, a)
Answers-cons s p peers x y (cross k ex ey) n (q, found, c, before, e) =
    (q, found, c, (n, before), e)

module _ (checks : Bool) (s : Screen) (proper : IsProper s) (x y : ℤ) where
  check_from_lem :
      (i : ℕ) (peers : List PeerScreen)
      → All (λ p. IsProper p.screen) peers
      → All (InReach x y) peers
      → (r : EdgeCross) × (check_from checks (pos s.width) (pos s.height) x y i peers
          ≡ some (counted_from i r))
        × Answers s peers x y r
  unfolding check_from
  check_from_lem i [] hp hr = (stay, refl, tt)
  check_from_lem i (p ∷ peers) hp hr = elim (crossed_lem checks s x y p proper hp.0 hr.0) [
    | inl (e, n) ↦
        let (r, found, a) = check_from_lem (suc i) peers hp.1 hr.1 in
        (
          behind_one r,
          rw (e, check_from) (found ∙ ap some (counted_from-behind_one i r)),
          Answers-cons s p peers x y r n a,
        )
    | inr ((ex, ey), e, c, entry) ↦ (
      cross 0 ex ey,
      rw (e, check_from) (ap (λ (n : ℕ). some (cross n ex ey)) (omega arith)),
      (p, refl, c, tt, entry),
    )
  ]

-- On proper screens, and if the cursor's coordinates less each peer's offset are i32s, in either build, `check_edge` does not
-- panic, and it answers with the first peer whose edge of the server's screen the cursor is beyond
-- and the point of that peer's screen that is nearest, or with `stay` if there is no such peer.
pub check_edge-Answers :
    (checks : Bool) (l : Layout) (x y : ℤ)
    → IsProper l.server_screen
    → All (λ p. IsProper p.screen) l.peers
    → All (InReach x y) l.peers
    → (r : EdgeCross) × (check_edge checks l x y ≡ some r) × Answers l.server_screen l.peers x y r
unfolding check_edge
check_edge-Answers checks l x y hs hp hr =
    let (r, found, a) = check_from_lem checks l.server_screen hs x y 0 l.peers hp hr in
    (
      r,
      rw
          (
            u32_as_i32_small l.server_screen.width (omega arith),
            u32_as_i32_small l.server_screen.height (omega arith),
          )
          (found ∙ ap some (counted_from-zero r)),
      a,
    )

-- The cursor is on the server's screen.
abbrev pub IsOnScreen : Screen → (x y : ℤ) → Type 0
IsOnScreen s x y = (pos 0 ≤ℤ x) × (x <ℤ pos s.width) × (pos 0 ≤ℤ y) × (y <ℤ pos s.height)

crossed-IsOnScreen :
    (checks : Bool) (s : Screen) (x y : ℤ) (p : PeerScreen)
    → IsOnScreen s x y
    → crossed checks (pos s.width) (pos s.height) x y p ≡ some none
unfolding crossed
crossed-IsOnScreen checks s x y p h = by_edge p.edge refl
  where
    by_edge :
        (edge : Edge)
        → p.edge ≡ edge
        → crossed checks (pos s.width) (pos s.height) x y p ≡ some none
    by_edge left at = ground arith
    by_edge right at = ground arith
    by_edge top at = ground arith
    by_edge bottom at = ground arith

check_from-IsOnScreen :
    (checks : Bool) (s : Screen) (x y : ℤ) (i : ℕ) (peers : List PeerScreen)
    → IsOnScreen s x y
    → check_from checks (pos s.width) (pos s.height) x y i peers ≡ some stay
unfolding check_from
check_from-IsOnScreen checks s x y i [] h = refl
check_from-IsOnScreen checks s x y i (p ∷ peers) h =
    rw (crossed-IsOnScreen checks s x y p h, check_from)
      (check_from-IsOnScreen checks s x y (suc i) peers h)

-- While the cursor is on the server's screen it stays there, whatever the peers are, those with
-- sizes that make no sense included.
check_edge_inside :
    (checks : Bool) (l : Layout) (x y : ℤ)
    → l.server_screen.width < 2 ^ 31
    → l.server_screen.height < 2 ^ 31
    → IsOnScreen l.server_screen x y
    → check_edge checks l x y ≡ some stay
unfolding check_edge
check_edge_inside checks l x y hw hh h =
    rw (u32_as_i32_small l.server_screen.width hw, u32_as_i32_small l.server_screen.height hh)
      (check_from-IsOnScreen checks l.server_screen x y 0 l.peers h)

along_edge_zero : (checks : Bool) (c offset : ℤ) → along_edge checks c offset (pos 0) ≡ none
unfolding along_edge ◌-ℤ◌
along_edge_zero checks c offset = elim (Option-cases (sub_i32 checks c offset)) [
  | inl e ↦ rw e
  | inr (d, e) ↦ rw e (ground arith)
]

-- The peer's screen has no pixel along the edge that it shares.
abbrev pub NoSide : Edge → Screen → Type 0
NoSide left s = s.height ≡ 0
NoSide right s = s.height ≡ 0
NoSide top s = s.width ≡ 0
NoSide bottom s = s.width ≡ 0

crossed-NoSide :
    (checks : Bool) (s : Screen) (p : PeerScreen) (x y : ℤ)
    → NoSide p.edge p.screen
    → Crosses s x y p
    → crossed checks (pos s.width) (pos s.height) x y p ≡ none
unfolding crossed
crossed-NoSide checks s p x y flat c = by_edge p.edge refl
  where
    by_edge :
        (edge : Edge) → p.edge ≡ edge → crossed checks (pos s.width) (pos s.height) x y p ≡ none
    by_edge left at = ground (arith, along_edge_zero checks y p.offset)
    by_edge right at = ground (arith, along_edge_zero checks y p.offset)
    by_edge top at = ground (arith, along_edge_zero checks x p.offset)
    by_edge bottom at = ground (arith, along_edge_zero checks x p.offset)

-- If the first peer's screen has no pixel along its edge, a cursor that crosses that edge makes
-- `check_edge` panic, in either build.
pub check_edge-NoSide :
    (checks : Bool) (l : Layout) (p : PeerScreen) (peers : List PeerScreen) (x y : ℤ)
    → l.server_screen.width < 2 ^ 31
    → l.server_screen.height < 2 ^ 31
    → l.peers ≡ p ∷ peers
    → NoSide p.edge p.screen
    → Crosses l.server_screen x y p
    → check_edge checks l x y ≡ none
unfolding check_edge check_from
check_edge-NoSide checks l p peers x y hw hh at flat c =
    rw (u32_as_i32_small l.server_screen.width hw, u32_as_i32_small l.server_screen.height hh, at)
      (rw (crossed-NoSide checks l.server_screen p x y flat c))
