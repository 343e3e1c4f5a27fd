-- ===== src/App/EndToEnd/ToLinux/Steps.antt =====
-- What a run of the hooks shows at the device.
use dshare.Base.{
  ℕ, ◌≡◌, refl, sym, Bool, false, ◌||◌, Option, none, some, List, [], ◌∷◌, ℤ, ◌-ℤ◌, All, arith,
  append-nil, inl, inr, Option-cases, Bool-cases, -ℤ_self,
}
use dshare.Protocol.Keycode.{vk_to_evdev}
use dshare.Input.Linux.{EvdevCodes, events, key_value}
use dshare.Input.Linux
use dshare.Input.Linux.Emission.{IsDistinct}
use dshare.Input.Windows.Hooks.{
  HookState, WindowMessage, VirtualKey, is_pressed, is_released, mouse_hook_proc, offer_some,
  kbd_hook_proc, read_current_modifiers,
}
use dshare.App.Server.{System, Action, key, mouse, forward, forward_next, hooked, step, run}
use dshare.App.Server.Grab.{is_toggle, run-cons}
use dshare.App.Server.Order.{message_of, offered, offered_by_run}
use dshare.Protocol.{Message, key_event, KeyModifiers}
use dshare.App.EndToEnd.ToLinux.{turn, turns, pressed, presses}
use dshare.App.EndToEnd.ToLinux.Messages.{
  Shows, emitted, emitted_all, emitted_if, mouse-MouseShows, emitted_all-append, Shows-append,
}
use dshare.Protocol.Keycode.Table.{vk_to_evdev_range}
use dshare.App.EndToEnd.Desk.{place_after, place, IsNearPoint, IsOnDesk, IsNearPoint-place_after}

emitted-key_event :
    (codes : EvdevCodes) (vk code : ℕ) (down : Bool) (m : KeyModifiers)
    → vk_to_evdev vk ≡ some code
    → emitted codes (key_event code down m)
      ≡ record { event_type = Linux.key; code = code; value = key_value down } ∷ []
unfolding events
emitted-key_event codes vk code down m e = ground (arith, vk_to_evdev_range vk code e)

module _ {Sender : Type 0} (codes : EvdevCodes) (distinct : IsDistinct codes) where
  -- What an action shows, and the state in which it leaves the callbacks.
  abbrev ActionShows : Bool → Action → ℤ × ℤ → System Sender → Type 0
  ActionShows checks a p s =
      let q = place_after a p in
      Shows codes (emitted_all codes (offered checks a s)) (q.0 -ℤ p.0) (q.1 -ℤ p.1) (turn a)
        (pressed codes a)

  key-ActionShows :
      (checks : Bool) (w : WindowMessage) (vk_code : ℕ) (async_key_state : VirtualKey → ℕ)
      (kept : Bool) (p : ℤ × ℤ) (s : System Sender) (tx : Sender)
      → s.hook.sender ≡ some tx
      → is_toggle (key w vk_code async_key_state kept) ≡ false
      → ActionShows checks (key w vk_code async_key_state kept) p s
  unfolding offered pressed kbd_hook_proc turn
  key-ActionShows checks w vk_code async_key_state kept p s tx c n =
      let m = read_current_modifiers async_key_state in
      elim (Bool-cases (is_pressed w || is_released w)) [
        | inl d ↦ elim (Option-cases (vk_to_evdev vk_code)) [
          | inl e ↦ rw (n, d, e) (sym (-ℤ_self p.0), sym (-ℤ_self p.1), refl, refl)
          | inr (code, e) ↦
              let one = emitted-key_event codes vk_code code (is_pressed w) m e in
              rw (n, d, e, c) (rw one (sym (-ℤ_self p.0), sym (-ℤ_self p.1), refl, refl))
        ]
        | inr d ↦ rw (n, d) (sym (-ℤ_self p.0), sym (-ℤ_self p.1), refl, refl)
      ]

  emitted_all-offer_some :
      (s : HookState Sender) (tx : Sender) (msg : Option Message)
      → s.sender ≡ some tx
      → emitted_all codes (message_of (offer_some s msg)) ≡ emitted_if codes msg
  emitted_all-offer_some s tx none c = refl
  emitted_all-offer_some s tx (some msg) c = rw c (append-nil (emitted codes msg))

  mouse-ActionShows :
      (checks : Bool) (w : WindowMessage) (cur_pos : ℤ × ℤ) (mouse_data : ℕ) (kept : Bool)
      (p : ℤ × ℤ) (s u : System Sender) (tx : Sender)
      → s.hook.sender ≡ some tx
      → s.hook.last_mouse_pos ≡ some p
      → IsNearPoint cur_pos
      → IsNearPoint p
      → step checks (mouse w cur_pos mouse_data kept) s ≡ some u
      → ActionShows checks (mouse w cur_pos mouse_data kept) p s
        × (u.hook.sender ≡ some tx)
        × (u.hook.last_mouse_pos ≡ some (place_after (mouse w cur_pos mouse_data kept) p))
  unfolding offered pressed mouse_hook_proc step hooked
  mouse-ActionShows checks w cur_pos mouse_data kept p s u tx c l h k e =
      let (msg, made, shows) =
        mouse-MouseShows codes distinct checks w cur_pos mouse_data kept p h k in
      let same = emitted_all-offer_some s.hook tx msg c in
      (
        rw (l, made, offered, mouse_hook_proc) (rw same shows),
        ground (arith, made, l, c),
        ground (arith, made, l, c),
      )

  step-ActionShows :
      (checks : Bool) (a : Action) (p : ℤ × ℤ) (s u : System Sender) (tx : Sender)
      → s.hook.sender ≡ some tx
      → s.hook.last_mouse_pos ≡ some p
      → is_toggle a ≡ false
      → IsOnDesk a
      → IsNearPoint p
      → step checks a s ≡ some u
      → ActionShows checks a p s
        × (u.hook.sender ≡ some tx)
        × (u.hook.last_mouse_pos ≡ some (place_after a p))
  step-ActionShows checks (key w vk_code async_key_state kept) p s u tx c l n d k e =
      let same : (u.hook ≡ s.hook) = unfold step kbd_hook_proc hooked in ground arith in
      (key-ActionShows checks w vk_code async_key_state kept p s tx c n, rw same c, rw same l)
  step-ActionShows checks (mouse w cur_pos mouse_data kept) p s u tx c l n d k e =
      mouse-ActionShows checks w cur_pos mouse_data kept p s u tx c l d k e
  step-ActionShows checks forward p s u tx c l n d k e =
      let same : (u.hook ≡ s.hook) = unfold step forward_next in ground arith in
      (
        unfold offered turn pressed in (sym (-ℤ_self p.0), sym (-ℤ_self p.1), refl, refl),
        rw same c,
        rw same l,
      )

  pub run-Shows :
      (checks : Bool) (actions : List Action) (p : ℤ × ℤ) (s t : System Sender) (tx : Sender)
      → s.hook.sender ≡ some tx
      → s.hook.last_mouse_pos ≡ some p
      → All (λ a. (is_toggle a ≡ false) × IsOnDesk a) actions
      → IsNearPoint p
      → run checks actions s ≡ some t
      → let q = place actions p in
        Shows codes
          (emitted_all codes (offered_by_run checks actions s))
          (q.0 -ℤ p.0)
          (q.1 -ℤ p.1)
          (turns actions)
          (presses codes actions)
        × (t.hook.last_mouse_pos ≡ some q)
  unfolding offered_by_run
  run-Shows checks [] p s t tx c l h k e =
      ((sym (-ℤ_self p.0), sym (-ℤ_self p.1), refl, refl), unfold run in ground (arith, l))
  run-Shows checks (a ∷ actions) p s t tx c l (d, h) k e =
      let (u, first, rest) = run-cons checks a actions s t e in
      let (shows, c', l') = step-ActionShows checks a p s u tx c l d.0 d.1 k first in
      let q = place_after a p in
      let (later, end) =
        run-Shows checks actions q u t tx c' l' h (IsNearPoint-place_after a p d.1 k) rest in
      (
        rw (first, offered_by_run)
            (rw (emitted_all-append codes (offered checks a s) (offered_by_run checks actions u)) (
              Shows-append codes (emitted_all codes (offered checks a s))
                (emitted_all codes (offered_by_run checks actions u)) p q (place actions q) (turn a)
                (turns actions) (pressed codes a) (presses codes actions) shows later)),
        end,
      )
