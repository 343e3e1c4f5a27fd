-- ===== src/Core/Layout/Spec.antt =====
-- What `check_edge` is to answer, in plain geometry.
use dshare.Base.{
  ℕ, ◌^◌, ◌<◌, ◌≡◌, ◌⊎◌, some, List, ℤ, pos, ◌-ℤ◌, ◌≤ℤ◌, ◌<ℤ◌, IsI32, get_elem?, take, All,
}
use dshare.Core.Layout.{Screen, PeerScreen, Edge, left, right, top, bottom, EdgeCross, stay, cross}

-- A screen with at least one pixel whose sizes are i32s.
abbrev pub IsProper : Screen → Type 0
IsProper s = (0 < s.width) × (s.width < 2 ^ 31) × (0 < s.height) × (s.height < 2 ^ 31)

abbrev pub BeyondEdge : Edge → Screen → (x y : ℤ) → Type 0
BeyondEdge left s x y = x <ℤ pos 0
BeyondEdge right s x y = pos s.width ≤ℤ x
BeyondEdge top s x y = y <ℤ pos 0
BeyondEdge bottom s x y = pos s.height ≤ℤ y

-- The cursor is beyond the edge of the server's screen where the peer sits.
abbrev pub Crosses : Screen → (x y : ℤ) → PeerScreen → Type 0
Crosses s x y p = BeyondEdge p.edge s x y

-- The differences that the code forms are i32s.
abbrev pub InReach : (x y : ℤ) → PeerScreen → Type 0
InReach x y p = IsI32 (x -ℤ p.offset) × IsI32 (y -ℤ p.offset)

-- `v` is the number in 0 .. size - 1 that is nearest to `d`.
abbrev pub Nearest : ℕ → ℤ → ℤ → Type 0
Nearest size d v =
    (pos 0 ≤ℤ v)
    × (v <ℤ pos size)
    × ((v ≡ d) ⊎ ((d <ℤ pos 0) × (v ≡ pos 0)) ⊎ ((pos size ≤ℤ d) × (v ≡ pos size -ℤ pos 1)))

-- Where the cursor enters a screen that sits at an edge: at the pixels that touch the server.
abbrev pub EntersAt : Edge → Screen → (dx dy ex ey : ℤ) → Type 0
EntersAt left s dx dy ex ey = (ex ≡ pos s.width -ℤ pos 1) × Nearest s.height dy ey
EntersAt right s dx dy ex ey = (ex ≡ pos 0) × Nearest s.height dy ey
EntersAt top s dx dy ex ey = Nearest s.width dx ex × (ey ≡ pos s.height -ℤ pos 1)
EntersAt bottom s dx dy ex ey = Nearest s.width dx ex × (ey ≡ pos 0)

abbrev pub Entry : (x y : ℤ) → PeerScreen → (ex ey : ℤ) → Type 0
Entry x y p ex ey = EntersAt p.edge p.screen (x -ℤ p.offset) (y -ℤ p.offset) ex ey

-- Nobody is crossed to, or the first peer that is, at its entry point.
abbrev pub Answers : Screen → List PeerScreen → (x y : ℤ) → EdgeCross → Type 0
Answers s peers x y stay = All (λ p. ¬ Crosses s x y p) peers
Answers s peers x y (cross i ex ey) =
    (p : PeerScreen) × (get_elem? peers i ≡ some p)
    × Crosses s x y p
    × All (λ q. ¬ Crosses s x y q) (take i peers)
    × Entry x y p ex ey
