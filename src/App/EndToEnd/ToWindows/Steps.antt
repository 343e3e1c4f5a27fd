-- ===== src/App/EndToEnd/ToWindows/Steps.antt =====
-- What single events and a run of the hooks are at the client.
use mathlib.Core.List.{foldl-append}
use dshare.Base.{
  ℕ, ◌≡◌, refl, sym, ap, ◌∙◌, Bool, false, ◌||◌, none, some, List, [], ◌∷◌, ◌++◌, All, arith,
  append_assoc, append-nil, if◌then◌else◌, inl, inr, Option-cases, Bool-cases, Option, ℤ, pos, ◌-ℤ◌,
  ◌*ℤ◌, i32_result_exact,
}
use dshare.Protocol.{Message, mouse_move, mouse_wheel, KeyModifiers, key_event}
use dshare.Protocol.Keycode.{vk_to_evdev}
use dshare.Input.Windows.RoundTrip.{is_punctuation}
use dshare.Input.Windows.Inject.{Input, send_mouse, button_flag, wheel}
use dshare.Input.Windows.Hooks.Grab.{wheel_steps-handle}
use dshare.Input.Windows.Inject
use dshare.Input.Windows.Delivery.{key_input, vk_to_evdev-handle}
use dshare.Input.Windows.Hooks.{
  WindowMessage, wm_mousemove, wm_mousewheel, wm_lbuttondown, wm_lbuttonup, wm_rbuttondown,
  wm_rbuttonup, wm_mbuttondown, wm_mbuttonup, wheel_steps, mouse_message, mouse_hook_proc,
  offer_some, HookState, VirtualKey, is_pressed, is_released, kbd_hook_proc, read_current_modifiers,
}
use dshare.App.Client.Delivery.{inject_all}
use dshare.App.Server.{System, Action, key, mouse, forward, forward_next, hooked, step, run}
use dshare.App.Server.Grab.{is_toggle, run-cons}
use dshare.App.Server.Order.{message_of, offered, offered_by_run}
use dshare.App.EndToEnd.Desk.{
  place_after, IsNearPoint, IsOnDesk, IsNear-IsI32, IsNearPoint-place_after,
}
use dshare.App.EndToEnd.ToWindows.{win_inject, turned_or_clicked, inputs_of, strokes}

-- One key's message, injected.
inject_key :
    (map_virtual_key : ℕ → ℕ) (vk code : ℕ) (pressed : Bool) (m : KeyModifiers)
    (inputs : List Input)
    → vk_to_evdev vk ≡ some code
    → (win_inject map_virtual_key (key_event code pressed m) inputs).1
      ≡ inputs ++ (if is_punctuation vk then [] else key_input map_virtual_key vk pressed ∷ [])
unfolding win_inject
inject_key map_virtual_key vk code pressed m inputs e =
    rw (win_inject, vk_to_evdev-handle false map_virtual_key vk code pressed m e) refl

inject_wheel :
    (map_virtual_key : ℕ → ℕ) (mouse_data : ℕ) (inputs : List Input)
    → (win_inject map_virtual_key (mouse_wheel (pos 0) (wheel_steps mouse_data)) inputs).1
      ≡ inputs ++ send_mouse wheel (pos 0) (pos 0) (wheel_steps mouse_data *ℤ pos 120)
unfolding win_inject
inject_wheel map_virtual_key mouse_data inputs =
    rw (win_inject, (wheel_steps-handle false map_virtual_key mouse_data).0) refl

abbrev inject_if : (ℕ → ℕ) → List Input → Option Message → List Input
inject_if map_virtual_key inputs none = inputs
inject_if map_virtual_key inputs (some msg) = (win_inject map_virtual_key msg inputs).1

abbrev MouseInjects :
    Bool → (ℕ → ℕ) → WindowMessage → ℤ × ℤ → ℕ → Bool → ℤ × ℤ → List Input → Type 0
MouseInjects checks map_virtual_key w cur_pos mouse_data kept p inputs =
    (msg : Option Message) × (mouse_message checks w cur_pos mouse_data (some p)
      ≡ some (msg, some (place_after (mouse w cur_pos mouse_data kept) p)))
    × (inject_if map_virtual_key inputs msg ≡ inputs ++ turned_or_clicked w cur_pos mouse_data p)

mouse-MouseInjects :
    (checks : Bool) (map_virtual_key : ℕ → ℕ) (w : WindowMessage) (cur_pos : ℤ × ℤ) (mouse_data : ℕ)
    (kept : Bool) (p : ℤ × ℤ) (inputs : List Input)
    → IsNearPoint cur_pos
    → IsNearPoint p
    → MouseInjects checks map_virtual_key w cur_pos mouse_data kept p inputs
unfolding mouse_message win_inject Inject.handle turned_or_clicked button_flag
mouse-MouseInjects checks mvk wm_mousemove (x, y) mouse_data kept (px, py) inputs h k =
    let ex = i32_result_exact checks (x -ℤ px) (IsNear-IsI32 x px h.0 k.0) in
    let ey = i32_result_exact checks (y -ℤ py) (IsNear-IsI32 y py h.1 k.1) in
    (some (mouse_move (x -ℤ px) (y -ℤ py)), rw (ex, ey, mouse_message) refl, refl)
mouse-MouseInjects checks mvk wm_mousewheel cur_pos mouse_data kept p inputs h k =
    (some (mouse_wheel (pos 0) (wheel_steps mouse_data)), refl, inject_wheel mvk mouse_data inputs)
mouse-MouseInjects checks mvk wm_lbuttondown cur_pos mouse_data kept p inputs h k = (_, refl, refl)
mouse-MouseInjects checks mvk wm_lbuttonup cur_pos mouse_data kept p inputs h k = (_, refl, refl)
mouse-MouseInjects checks mvk wm_rbuttondown cur_pos mouse_data kept p inputs h k = (_, refl, refl)
mouse-MouseInjects checks mvk wm_rbuttonup cur_pos mouse_data kept p inputs h k = (_, refl, refl)
mouse-MouseInjects checks mvk wm_mbuttondown cur_pos mouse_data kept p inputs h k = (_, refl, refl)
mouse-MouseInjects checks mvk wm_mbuttonup cur_pos mouse_data kept p inputs h k = (_, refl, refl)
mouse-MouseInjects checks mvk _ cur_pos mouse_data kept p inputs h k =
    (none, refl, sym (append-nil inputs))

module _ {Sender : Type 0} (map_virtual_key : ℕ → ℕ) where
  inject_key_offered :
      (checks : Bool) (w : WindowMessage) (vk_code : ℕ) (async_key_state : VirtualKey → ℕ)
      (kept : Bool) (p : ℤ × ℤ) (s : System Sender) (tx : Sender) (inputs : List Input)
      → s.hook.sender ≡ some tx
      → is_toggle (key w vk_code async_key_state kept) ≡ false
      → inject_all
          (win_inject map_virtual_key)
          inputs
          (offered checks (key w vk_code async_key_state kept) s)
        ≡ inputs ++ inputs_of map_virtual_key p (key w vk_code async_key_state kept)
  unfolding offered inputs_of kbd_hook_proc
  inject_key_offered checks w vk_code async_key_state kept p s tx inputs c n =
      let m = read_current_modifiers async_key_state in
      elim (Bool-cases (is_pressed w || is_released w)) [
        | inl d ↦ elim (Option-cases (vk_to_evdev vk_code)) [
          | inl e ↦ rw (n, d, e) (sym (append-nil inputs))
          | inr (code, e) ↦
              let one = inject_key map_virtual_key vk_code code (is_pressed w) m inputs e in
              rw (n, d, e, c) one
        ]
        | inr d ↦ rw (n, d) (sym (append-nil inputs))
      ]

  inject_offer_some :
      (s : HookState Sender) (tx : Sender) (msg : Option Message) (inputs : List Input)
      → s.sender ≡ some tx
      → inject_all (win_inject map_virtual_key) inputs (message_of (offer_some s msg))
        ≡ inject_if map_virtual_key inputs msg
  inject_offer_some s tx none inputs c = refl
  inject_offer_some s tx (some msg) inputs c = rw c refl

  -- An action injected, and the state in which it leaves the callbacks.
  inject_step :
      (checks : Bool) (a : Action) (p : ℤ × ℤ) (s u : System Sender) (tx : Sender)
      (inputs : List Input)
      → s.hook.sender ≡ some tx
      → s.hook.last_mouse_pos ≡ some p
      → is_toggle a ≡ false
      → IsOnDesk a
      → IsNearPoint p
      → step checks a s ≡ some u
      → (inject_all (win_inject map_virtual_key) inputs (offered checks a s)
          ≡ inputs ++ inputs_of map_virtual_key p a)
        × (u.hook.sender ≡ some tx)
        × (u.hook.last_mouse_pos ≡ some (place_after a p))
  unfolding offered inputs_of mouse_hook_proc step hooked
  inject_step checks (key w vk_code async_key_state kept) p s u tx inputs c l n d k e =
      let same : (u.hook ≡ s.hook) = unfold kbd_hook_proc in ground (arith, n) in
      (
        inject_key_offered checks w vk_code async_key_state kept p s tx inputs c n,
        rw same c,
        rw same l,
      )
  inject_step checks (mouse w cur_pos mouse_data kept) p s u tx inputs c l n d k e =
      let (msg, made, injects) =
        mouse-MouseInjects checks map_virtual_key w cur_pos mouse_data kept p inputs d k in
      let same = inject_offer_some s.hook tx msg inputs c in
      (
        rw (l, made, offered, mouse_hook_proc) (same ∙ injects),
        ground (arith, made, l, c),
        ground (arith, made, l, c),
      )
  inject_step checks forward p s u tx inputs c l n d k e =
      let same : (u.hook ≡ s.hook) = unfold forward_next in ground arith in
      (sym (append-nil inputs), rw same c, rw same l)

  pub inject_run :
      (checks : Bool) (actions : List Action) (p : ℤ × ℤ) (s t : System Sender) (tx : Sender)
      (inputs : List Input)
      → s.hook.sender ≡ some tx
      → s.hook.last_mouse_pos ≡ some p
      → All (λ a. (is_toggle a ≡ false) × IsOnDesk a) actions
      → IsNearPoint p
      → run checks actions s ≡ some t
      → inject_all (win_inject map_virtual_key) inputs (offered_by_run checks actions s)
        ≡ inputs ++ strokes map_virtual_key p actions
  unfolding offered_by_run strokes
  inject_run checks [] p s t tx inputs c l h k e = sym (append-nil inputs)
  inject_run checks (a ∷ actions) p s t tx inputs c l (d, h) k e =
      let (u, first, rest) = run-cons checks a actions s t e in
      let (here, c', l') = inject_step checks a p s u tx inputs c l d.0 d.1 k first in
      let q = place_after a p in
      let one = inputs_of map_virtual_key p a in
      let later =
        inject_run checks actions q u t tx (inputs ++ one) c' l' h
          (IsNearPoint-place_after a p d.1 k) rest in
      rw (offered_by_run, first)
        (foldl-append (λ device msg. (win_inject map_virtual_key msg device).1) inputs
            (offered checks a s) (offered_by_run checks actions u)
          ∙ ap (λ d. inject_all (win_inject map_virtual_key) d (offered_by_run checks actions u))
              here
          ∙ later
          ∙ append_assoc inputs one (strokes map_virtual_key q actions))
