-- ===== src/App/EndToEnd/Desk.antt =====
-- Where the pointer is in a run, and the runs whose input is all forwarded.
use dshare.Base.{
  ◌-◌, ◌^◌, ◌≡◌, true, false, List, [], ◌∷◌, ℤ, pos, negsuc, ◌-ℤ◌, ◌≤ℤ◌, IsI32, -ℤ_parts, All,
  arith,
}
use dshare.Input.Windows.Hooks.{wm_mousemove}
use dshare.App.Server.{Action, key, mouse, forward}
use dshare.App.Server.Grab.{is_toggle}
use dshare.App.Server.Order.{is_kept}

-- The pointer's place behind an action, and behind a run.
abbrev pub place_after : Action → ℤ × ℤ → ℤ × ℤ
place_after (mouse wm_mousemove cur_pos mouse_data kept) p = cur_pos
place_after _ p = p

abbrev pub place : List Action → ℤ × ℤ → ℤ × ℤ
place [] p = p
place (a ∷ actions) p = place actions (place_after a p)

-- A coordinate of a desk of at most 2^31 pixels about the origin.
abbrev pub IsNear : ℤ → Type 0
IsNear c = (negsuc (2 ^ 30 - 1) ≤ℤ c) × (c ≤ℤ pos (2 ^ 30 - 1))

abbrev pub IsNearPoint : ℤ × ℤ → Type 0
IsNearPoint p = IsNear p.0 × IsNear p.1

-- The pointer of a mouse event is on such a desk.
abbrev pub IsOnDesk : Action → Type 0
IsOnDesk (mouse w cur_pos mouse_data kept) = IsNearPoint cur_pos
IsOnDesk _ = Unit {0}

pub IsNear-IsI32 : (a b : ℤ) → IsNear a → IsNear b → IsI32 (a -ℤ b)
IsNear-IsI32 a b h k = omega (arith, -ℤ_parts a b)

pub IsNearPoint-place_after :
    (a : Action) (p : ℤ × ℤ) → IsOnDesk a → IsNearPoint p → IsNearPoint (place_after a p)
IsNearPoint-place_after (mouse wm_mousemove cur_pos mouse_data kept) p d k = d
IsNearPoint-place_after (mouse w cur_pos mouse_data kept) p d k = k
IsNearPoint-place_after (key w vk_code async_key_state kept) p d k = k
IsNearPoint-place_after forward p d k = k

-- No hotkey is pressed, the channel takes everything, and the pointer is on the desk.
abbrev pub AllForwarded : List Action → Type 0
AllForwarded = All (λ a. (is_toggle a ≡ false) × (is_kept a ≡ true) × IsOnDesk a)

pub AllForwarded-All :
    (actions : List Action)
    → AllForwarded actions
    → All (λ a. (is_toggle a ≡ false) × (is_kept a ≡ true)) actions
AllForwarded-All [] h = tt
AllForwarded-All (a ∷ actions) h = ((h.0.0, h.0.1), AllForwarded-All actions h.1)

pub on_desk :
    (actions : List Action)
    → AllForwarded actions
    → All (λ a. (is_toggle a ≡ false) × IsOnDesk a) actions
on_desk [] h = tt
on_desk (a ∷ actions) h = ((h.0.0, h.0.2), on_desk actions h.1)
