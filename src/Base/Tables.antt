-- ===== src/Base/Tables.antt =====
-- Tables of pairs of numbers, searched in order, and facts about all rows checked by evaluation.
use Prim.Native.Nat.{ℕ}
use mathlib.Core.Path.{◌≡◌}
use mathlib.Core.Bool.{Bool, true, ◌&&◌}
use mathlib.Core.Option.{Option, none, some}
use mathlib.Core.List.{List, [], ◌∷◌}
use native.Mathlib.Omega.{arith}
use dshare.Base.Tests.{◌==◌, if◌then◌else◌}

unfoldable pub lookup {ℓ} : {V : Type ℓ} → ℕ → List (ℕ × V) → Option V
lookup k [] = none
lookup k ((j, v) ∷ rows) = if k == j then some v else lookup k rows

unfoldable pub all_rows : (ℕ → ℕ → Bool) → List (ℕ × ℕ) → Bool
all_rows test [] = true
all_rows test ((k, v) ∷ rows) = test k v && all_rows test rows

-- What holds of every row holds of a row that is found.
pub lookup-all_rows :
    (test : ℕ → ℕ → Bool) (rows : List (ℕ × ℕ)) (k v : ℕ)
    → all_rows test rows ≡ true
    → lookup k rows ≡ some v
    → test k v ≡ true
unfolding lookup all_rows
lookup-all_rows test [] k v h e = absurd (ground arith)
lookup-all_rows test ((j, w) ∷ rows) k v h e = ground (arith, lookup-all_rows test rows k v)
