-- ===== src/App/EndToEnd/ToLinux/Messages.antt =====
-- What single messages and mouse events show at the device.
use dshare.Base.{
  ℕ, ◌≡◌, refl, sym, ap, ◌∙◌, Bool, true, false, Option, none, some, List, [], ◌∷◌, ◌++◌, ℤ, pos,
  ◌+ℤ◌, ◌-ℤ◌, arith, append_assoc, append-nil, inl, inr, Bool-cases, i32_result_exact, zero-+ℤ,
  +ℤ_assoc, -ℤ_self, -ℤ_telescope,
}
use dshare.Protocol.{
  Message, mouse_move, mouse_wheel, mouse_button, left, right, middle, MouseButton,
}
use dshare.Input.Linux.{
  EvdevCodes, InputEvent, events, key_value, is_zero, pushed_nonzero, button_key,
}
use dshare.Input.Linux
use dshare.Input.Linux.Emission.{motion, keys, IsDistinct, events-motion}
use dshare.Input.Windows.Hooks.{
  WindowMessage, wm_mousemove, wm_mousewheel, wm_lbuttondown, wm_lbuttonup, wm_rbuttondown,
  wm_rbuttonup, wm_mbuttondown, wm_mbuttonup, wheel_steps, mouse_message,
}
use dshare.App.Client.Delivery.{inject_all}
use dshare.App.Server.{mouse}
use dshare.App.EndToEnd.ToLinux.{turn, clicked, pressed, linux_inject}
use dshare.App.EndToEnd.Desk.{place_after, IsNearPoint, IsNear-IsI32}

module _ (codes : EvdevCodes) where
  -- What events show: the motion of three axes, and the keys.
  abbrev pub Shows : List InputEvent → (x y wheel : ℤ) → List (ℕ × ℤ) → Type 0
  Shows es x y wheel ks =
      (motion codes.rel_x es ≡ x)
      × (motion codes.rel_y es ≡ y)
      × (motion codes.rel_wheel es ≡ wheel)
      × (keys es ≡ ks)

  pub motion-append :
      (axis : ℕ) (xs ys : List InputEvent)
      → motion axis (xs ++ ys) ≡ motion axis xs +ℤ motion axis ys
  motion-append axis [] ys = sym (zero-+ℤ (motion axis ys))
  motion-append axis (e ∷ xs) ys =
      ground (arith, motion-append axis xs ys, +ℤ_assoc e.value (motion axis xs) (motion axis ys))

  pub keys-append : (xs ys : List InputEvent) → keys (xs ++ ys) ≡ keys xs ++ keys ys
  keys-append [] ys = refl
  keys-append (e ∷ xs) ys = ground (arith, keys-append xs ys)

  -- What the device gets for a message.
  abbrev pub emitted : Message → List InputEvent
  emitted msg = elim (events codes msg) [ none ↦ [] | some es ↦ es ]

  abbrev pub emitted_if : Option Message → List InputEvent
  emitted_if none = []
  emitted_if (some msg) = emitted msg

  abbrev pub emitted_all : List Message → List InputEvent
  emitted_all [] = []
  emitted_all (m ∷ msgs) = emitted m ++ emitted_all msgs

  linux_inject-emitted :
      (msg : Message) (device : List InputEvent)
      → (linux_inject codes msg device).1 ≡ device ++ emitted msg
  unfolding linux_inject Linux.handle
  linux_inject-emitted msg device = ground (arith, append-nil device)

  pub inject_all-emitted :
      (msgs : List Message) (device : List InputEvent)
      → inject_all (linux_inject codes) device msgs ≡ device ++ emitted_all msgs
  inject_all-emitted [] device = sym (append-nil device)
  inject_all-emitted (m ∷ msgs) device =
      ap (λ d. inject_all (linux_inject codes) d msgs) (linux_inject-emitted m device)
      ∙ inject_all-emitted msgs (device ++ emitted m)
      ∙ append_assoc device (emitted m) (emitted_all msgs)

  pub emitted_all-append :
      (xs ys : List Message) → emitted_all (xs ++ ys) ≡ emitted_all xs ++ emitted_all ys
  emitted_all-append [] ys = refl
  emitted_all-append (m ∷ xs) ys =
      ap (λ es. emitted m ++ es) (emitted_all-append xs ys)
      ∙ sym (append_assoc (emitted m) (emitted_all xs) (emitted_all ys))

  -- What shows of a way by `q` and of the way on is what shows of the whole.
  pub Shows-append :
      (es fs : List InputEvent) (p q r : ℤ × ℤ) (v w : ℤ) (ks ls : List (ℕ × ℤ))
      → Shows es (q.0 -ℤ p.0) (q.1 -ℤ p.1) v ks
      → Shows fs (r.0 -ℤ q.0) (r.1 -ℤ q.1) w ls
      → Shows (es ++ fs) (r.0 -ℤ p.0) (r.1 -ℤ p.1) (v +ℤ w) (ks ++ ls)
  Shows-append es fs p q r v w ks ls (ex, ey, ew, ek) (fx, fy, fw, fk) = (
    rw (motion-append codes.rel_x es fs, ex, fx) (-ℤ_telescope p.0 q.0 r.0),
    rw (motion-append codes.rel_y es fs, ey, fy) (-ℤ_telescope p.1 q.1 r.1),
    rw (motion-append codes.rel_wheel es fs, ew, fw) refl,
    rw (keys-append es fs, ek, fk) refl,
  )

module _ (codes : EvdevCodes) (distinct : IsDistinct codes) where
  keys-pushed_nonzero :
      (code : ℕ) (v : ℤ) (rest : List InputEvent) → keys (pushed_nonzero code v rest) ≡ keys rest
  keys-pushed_nonzero code v rest = elim (Bool-cases (is_zero v)) [
    | inl e ↦ rw e refl
    | inr e ↦ rw e refl
  ]

  abbrev pub MouseShows : Bool → WindowMessage → ℤ × ℤ → ℕ → Bool → ℤ × ℤ → Type 0
  MouseShows checks w cur_pos mouse_data kept p =
      let q = place_after (mouse w cur_pos mouse_data kept) p in
      (msg : Option Message) × (mouse_message checks w cur_pos mouse_data (some p)
        ≡ some (msg, some q))
      × Shows codes (emitted_if codes msg) (q.0 -ℤ p.0) (q.1 -ℤ p.1)
          (turn (mouse w cur_pos mouse_data kept)) (clicked codes w)

  move-MouseShows :
      (checks : Bool) (cur_pos : ℤ × ℤ) (mouse_data : ℕ) (kept : Bool) (p : ℤ × ℤ)
      → IsNearPoint cur_pos
      → IsNearPoint p
      → MouseShows checks wm_mousemove cur_pos mouse_data kept p
  unfolding mouse_message events turn
  move-MouseShows checks (x, y) mouse_data kept (px, py) (hx, hy) (kx, ky) =
      let ex = i32_result_exact checks (x -ℤ px) (IsNear-IsI32 x px hx kx) in
      let ey = i32_result_exact checks (y -ℤ py) (IsNear-IsI32 y py hy ky) in
      let (mx, my, mw, mh, z) =
        events-motion codes (mouse_move (x -ℤ px) (y -ℤ py)) _ distinct refl in
      (
        some (mouse_move (x -ℤ px) (y -ℤ py)),
        rw (ex, ey, mouse_message) refl,
        (
          mx,
          my,
          mw,
          keys-pushed_nonzero codes.rel_x (x -ℤ px) _
              ∙ keys-pushed_nonzero codes.rel_y (y -ℤ py) [],
        ),
      )

  wheel-MouseShows :
      (checks : Bool) (cur_pos : ℤ × ℤ) (mouse_data : ℕ) (kept : Bool) (p : ℤ × ℤ)
      → MouseShows checks wm_mousewheel cur_pos mouse_data kept p
  unfolding mouse_message events turn
  wheel-MouseShows checks cur_pos mouse_data kept p =
      let (mx, my, mw, mh, z) =
        events-motion codes (mouse_wheel (pos 0) (wheel_steps mouse_data)) _ distinct refl in
      (
        some (mouse_wheel (pos 0) (wheel_steps mouse_data)),
        refl,
        (
          mx ∙ sym (-ℤ_self p.0),
          my ∙ sym (-ℤ_self p.1),
          mw,
          keys-pushed_nonzero codes.rel_wheel (wheel_steps mouse_data) [],
        ),
      )

  button-Shows :
      (button : MouseButton) (pressed : Bool) (p : ℤ × ℤ)
      → (msg : Option Message) × (◌≡◌ {A = Option (Option Message × Option (ℤ × ℤ))}
          (some (some (mouse_button button pressed), some p))
          (some (msg, some p)))
        × Shows codes
            (emitted_if codes msg)
            (p.0 -ℤ p.0)
            (p.1 -ℤ p.1)
            (pos 0)
            ((button_key codes button, key_value pressed) ∷ [])
  unfolding events
  button-Shows button pressed p =
      (some (mouse_button button pressed), refl, (sym (-ℤ_self p.0), sym (-ℤ_self p.1), refl, refl))

  pub mouse-MouseShows :
      (checks : Bool) (w : WindowMessage) (cur_pos : ℤ × ℤ) (mouse_data : ℕ) (kept : Bool)
      (p : ℤ × ℤ)
      → IsNearPoint cur_pos
      → IsNearPoint p
      → MouseShows checks w cur_pos mouse_data kept p
  unfolding mouse_message turn button_key
  mouse-MouseShows checks wm_mousemove cur_pos mouse_data kept p h k =
      move-MouseShows checks cur_pos mouse_data kept p h k
  mouse-MouseShows checks wm_mousewheel cur_pos mouse_data kept p h k =
      wheel-MouseShows checks cur_pos mouse_data kept p
  mouse-MouseShows checks wm_lbuttondown cur_pos mouse_data kept p h k = button-Shows left true p
  mouse-MouseShows checks wm_lbuttonup cur_pos mouse_data kept p h k = button-Shows left false p
  mouse-MouseShows checks wm_rbuttondown cur_pos mouse_data kept p h k = button-Shows right true p
  mouse-MouseShows checks wm_rbuttonup cur_pos mouse_data kept p h k = button-Shows right false p
  mouse-MouseShows checks wm_mbuttondown cur_pos mouse_data kept p h k = button-Shows middle true p
  mouse-MouseShows checks wm_mbuttonup cur_pos mouse_data kept p h k = button-Shows middle false p
  mouse-MouseShows checks _ cur_pos mouse_data kept p h k =
      (none, refl, (sym (-ℤ_self p.0), sym (-ℤ_self p.1), refl, refl))
