-- ===== src/Base/Relations.antt =====
-- The closure of a step relation.
-- Any number of steps.
pub data Star {ℓ κ} {S : Type ℓ} (Step : S → S → Type κ) (s : S) : S → Type (ℓ ⊔ κ) where
  here : Star Step s s
  next : {t u : S} → Star Step s t → Step t u → Star Step s u

pub Star-trans {ℓ κ} :
    {S : Type ℓ} {Step : S → S → Type κ} {s t u : S} → Star Step s t → Star Step t u → Star Step s u
Star-trans r here = r
Star-trans r (next q st) = next (Star-trans r q) st
