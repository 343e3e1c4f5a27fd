-- ===== src/App/Smoke/SelfTest.antt =====
-- What the self-test of `test-capture` does to the pointer.
use dshare.Base.{ℕ, List, [], ◌∷◌, ℤ, pos, ◌+ℤ◌, ◌&&◌, ltb, if◌then◌else◌}
use dshare.Input.Windows.Inject.{Input, mouse, keyboard}
use dshare.Input.Windows.Inject
use dshare.Input.Linux.{pushed_nonzero}
use dshare.Input.Linux
use dshare.App.Smoke.Blocking.{is_odd}

-- The way on which a list of inputs moves the pointer.
abbrev pub way : List Input → ℤ × ℤ
way [] = (pos 0, pos 0)
way (mouse i ∷ inputs) = (i.dx +ℤ (way inputs).0, i.dy +ℤ (way inputs).1)
way (keyboard i ∷ inputs) = way inputs

-- How far right the pointer is behind the first `ran` of the six moves.
abbrev pub strayed : ℕ → ℤ
strayed ran = if ltb ran 6 && is_odd ran then pos 2 else pos 0
