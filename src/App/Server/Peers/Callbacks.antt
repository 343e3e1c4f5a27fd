-- ===== src/App/Server/Peers/Callbacks.antt =====
-- What the two callbacks have in common, as the chain of hooks sees them.
use dshare.Base.{
  ◌∙◌, ℤ, Option, none, sub_i32_total, ℕ, Bool, true, false, not, some, ◌≡◌, refl, ◌⊎◌, inl, inr,
  arith, Bool-cases, if◌then◌else◌,
}
use dshare.Input.Windows.Hooks.{
  HookState, Outcome, mouse_hook_proc, mouse_message, WindowMessage, wm_mousemove, swallow,
  call_next, is_hotkey, read_current_modifiers, kbd_hook_proc,
}
use dshare.Protocol.{Message, mouse_move}
use dshare.App.Server.Peers.{KeyEvent, MouseEvent, key_callback, mouse_callback}

-- The hook thread has set its flag up.
abbrev pub HasFlag : {Sender : Type 0} → HookState Sender → Type 0
HasFlag hook = (b : Bool) × (hook.grabbed ≡ some b)

-- What both callbacks are to the chain. `Calm` says that an event is no hotkey: of those only, a hook
-- that is not grabbed leaves the decision to the older ones.
pub record IsCallback {Sender : Type 0} (proc : HookState Sender → Outcome Sender) (Calm : Type 0)
    : Type 0 where
  pub decides :
      (hook : HookState Sender) (b : Bool)
      → hook.grabbed ≡ some b
      → (((proc hook).result ≡ swallow) × HasFlag (proc hook).state)
        ⊎ (((proc hook).result ≡ call_next) × HasFlag (proc hook).state × Calm)
  pub controlled :
      (hook : HookState Sender)
      → hook.grabbed ≡ some true
      → Calm
      → ((proc hook).result ≡ swallow)
        × ((proc hook).state.grabbed ≡ some true)
        × ((proc hook).state.sender ≡ hook.sender)

abbrev pub IsCalm : KeyEvent → Type 0
IsCalm e = is_hotkey e.wparam e.vk_code (read_current_modifiers e.async_key_state) ≡ false

-- Without overflow checks every mouse event has an outcome.
mouse_message_total :
    (w : WindowMessage) (cur_pos : ℤ × ℤ) (mouse_data : ℕ) (last : Option (ℤ × ℤ))
    → (r : Option Message × Option (ℤ × ℤ)) × (mouse_message false w cur_pos mouse_data last
        ≡ some r)
unfolding mouse_message
mouse_message_total wm_mousemove cur_pos mouse_data none = (_, refl)
mouse_message_total wm_mousemove (cx, cy) mouse_data (some (lx, ly)) =
    let (dx, ex) = sub_i32_total cx lx in
    let (dy, ey) = sub_i32_total cy ly in
    ((some (mouse_move dx dy), some (cx, cy)), rw (ex, ey) refl)
mouse_message_total _ cur_pos mouse_data last = (_, refl)

module _ {Sender : Type 0} where
  pub key_callback-IsCallback :
      (e : KeyEvent) → IsCallback {Sender = Sender} (key_callback e) (IsCalm e)
  unfolding kbd_hook_proc
  key_callback-IsCallback e = record {
    decides = λ hook b h.
        elim (Bool-cases
          (is_hotkey e.wparam e.vk_code (read_current_modifiers e.async_key_state))) [
            | inl hot ↦ inl (ground arith, (not b, ground arith))
            | inr other ↦ elim (Bool-cases b) [
              | inl on ↦ inl (ground arith, (b, ground arith))
              | inr off ↦ inr (ground arith, (b, ground arith), other)
            ]
          ];
    controlled = λ hook h n. (ground arith, ground arith, ground arith);
  }

  -- The mouse callback leaves the flag alone, and swallows exactly while it is set.
  pub mouse_callback_keeps :
      (e : MouseEvent) (hook : HookState Sender)
      → let out = mouse_callback e hook in
        (out.state.grabbed ≡ hook.grabbed)
        × ((b : Bool) → hook.grabbed ≡ some b → out.result ≡ (if b then swallow else call_next))
  unfolding mouse_callback mouse_hook_proc
  mouse_callback_keeps e hook =
      let (r, m) = mouse_message_total e.wparam e.cur_pos e.mouse_data hook.last_mouse_pos in
      (rw (mouse_callback, m) refl, λ b h. rw (mouse_callback, m, h) refl)

  mouse_callback-sender :
      (e : MouseEvent) (hook : HookState Sender)
      → (mouse_callback e hook).state.sender ≡ hook.sender
  unfolding mouse_callback mouse_hook_proc
  mouse_callback-sender e hook =
      let (r, m) = mouse_message_total e.wparam e.cur_pos e.mouse_data hook.last_mouse_pos in
      rw (mouse_callback, m) refl

  pub mouse_callback-IsCallback :
      (e : MouseEvent) → IsCallback {Sender = Sender} (mouse_callback e) (Unit {0})
  mouse_callback-IsCallback e = record {
    decides = λ hook b h.
        let (same, result) = mouse_callback_keeps e hook in
        elim (Bool-cases b) [
          | inl on ↦ inl (result b h ∙ rw on refl, (b, same ∙ h))
          | inr off ↦ inr (result b h ∙ rw off refl, (b, same ∙ h), tt)
        ];
    controlled = λ hook h n.
        let (same, result) = mouse_callback_keeps e hook in
        (result true h, same ∙ h, mouse_callback-sender e hook);
  }
