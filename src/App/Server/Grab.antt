-- ===== src/App/Server/Grab.antt =====
-- What the grab flag guarantees to the peer.
use dshare.Base.{
  ℕ, ◌≡◌, ◌∙◌, inl, inr, Bool, true, false, some, List, [], ◌∷◌, All, arith, if◌then◌else◌,
  Option-cases, ◌==◌, ℤ,
}
use dshare.Protocol.{Message, key_event}
use dshare.Input.Windows.Hooks.{
  HookState, Outcome, WindowMessage, VirtualKey, is_grabbed, is_hotkey, read_current_modifiers,
  mouse_hook_proc, kbd_hook_proc,
}
use dshare.App.Server.{System, Action, key, mouse, forward, step, run}

-- The action is a press of the hotkey.
abbrev pub is_toggle : Action → Bool
is_toggle (key w vk_code async_key_state kept) =
    is_hotkey w vk_code (read_current_modifiers async_key_state)
is_toggle _ = false

module _ {Sender : Type 0} where
  mouse_hook_proc_grabbed :
      (checks : Bool) (w : WindowMessage) (cur_pos : ℤ × ℤ) (mouse_data : ℕ) (s : HookState Sender)
      (out : Outcome Sender)
      → mouse_hook_proc checks true w cur_pos mouse_data s ≡ some out
      → out.state.grabbed ≡ s.grabbed
  unfolding mouse_hook_proc
  mouse_hook_proc_grabbed checks w cur_pos mouse_data s out h = ground arith

  kbd_hook_proc_grabbed :
      (w : WindowMessage) (vk_code : ℕ) (async_key_state : VirtualKey → ℕ) (s : HookState Sender)
      → is_hotkey w vk_code (read_current_modifiers async_key_state) ≡ false
      → (kbd_hook_proc true w vk_code async_key_state s).state ≡ s
  unfolding kbd_hook_proc
  kbd_hook_proc_grabbed w vk_code async_key_state s h = ground arith

  pub step_grabbed :
      (checks : Bool) (a : Action) (s t : System Sender)
      → is_toggle a ≡ false
      → step checks a s ≡ some t
      → t.hook.grabbed ≡ s.hook.grabbed
  unfolding step
  step_grabbed checks (key w vk_code async_key_state kept) s t h e =
      ground (arith, kbd_hook_proc_grabbed w vk_code async_key_state s.hook)
  step_grabbed checks (mouse w cur_pos mouse_data kept) s t h e =
      elim (Option-cases (mouse_hook_proc checks true w cur_pos mouse_data s.hook)) [
        | inl n ↦ absurd (ground arith)
        | inr (out, o) ↦
            ground (arith, mouse_hook_proc_grabbed checks w cur_pos mouse_data s.hook out)
      ]
  step_grabbed checks forward s t h e = ground arith

  step_off :
      (checks : Bool) (a : Action) (s t : System Sender)
      → is_grabbed s.hook ≡ false
      → step checks a s ≡ some t
      → t.sent ≡ s.sent
  unfolding step
  step_off checks (key w vk_code async_key_state kept) s t h e = ground arith
  step_off checks (mouse w cur_pos mouse_data kept) s t h e = ground arith
  step_off checks forward s t h e = ground arith

  pub run-cons :
      (checks : Bool) (a : Action) (actions : List Action) (s t : System Sender)
      → run checks (a ∷ actions) s ≡ some t
      → (u : System Sender) × (step checks a s ≡ some u) × (run checks actions u ≡ some t)
  unfolding run
  run-cons checks a actions s t h = elim (Option-cases (step checks a s)) [
    | inl e ↦ absurd (ground arith)
    | inr (u, e) ↦ (u, e, ground arith)
  ]

  -- While the grab is off and the hotkey is not pressed, nothing is sent to the peer: not what is
  -- typed or moved then, and not what was captured before and is still in the channel.
  pub run_off :
      (checks : Bool) (actions : List Action) (s t : System Sender)
      → is_grabbed s.hook ≡ false
      → All (λ a. is_toggle a ≡ false) actions
      → run checks actions s ≡ some t
      → (t.sent ≡ s.sent) × (is_grabbed t.hook ≡ false)
  run_off checks [] s t h n e = unfold run in ground arith
  run_off checks (a ∷ actions) s t h n e =
      let (u, first, rest) = run-cons checks a actions s t e in
      let same = step_grabbed checks a s u n.0 first in
      let ih = run_off checks actions u t (ground arith) n.1 rest in
      (ih.0 ∙ step_off checks a s u h first, ih.1)

-- Whether a key is down for a peer that gets these messages: by the last event for its code.
unfoldable pub held_from : Bool → ℕ → List Message → Bool
held_from down code [] = down
held_from down code (key_event keycode pressed m ∷ msgs) =
    held_from (if keycode == code then pressed else down) code msgs
held_from down code (_ ∷ msgs) = held_from down code msgs

abbrev pub is_held : ℕ → List Message → Bool
is_held = held_from false

module _ {Sender : Type 0} where
  step_toggle :
      (checks : Bool) (a : Action) (s t : System Sender)
      → is_toggle a ≡ true
      → s.hook.grabbed ≡ some true
      → step checks a s ≡ some t
      → (t.sent ≡ s.sent) × (is_grabbed t.hook ≡ false)
  unfolding step kbd_hook_proc
  step_toggle checks (key w vk_code async_key_state kept) s t h g e = ground arith
  step_toggle checks (mouse w cur_pos mouse_data kept) s t h g e = absurd (ground arith)
  step_toggle checks forward s t h g e = absurd (ground arith)

  -- When the hotkey ends a grab, a key that is down at the peer stays down there for as long as the
  -- hotkey is not pressed again, whatever keys are released and whatever is still in the channel.
  pub toggle_off_strands :
      (checks : Bool) (a : Action) (actions : List Action) (s t : System Sender) (code : ℕ)
      → s.hook.grabbed ≡ some true
      → is_toggle a ≡ true
      → All (λ b. is_toggle b ≡ false) actions
      → run checks (a ∷ actions) s ≡ some t
      → is_held code s.sent ≡ true
      → is_held code t.sent ≡ true
  toggle_off_strands checks a actions s t code g h n e held =
      let (u, first, rest) = run-cons checks a actions s t e in
      let (same, off) = step_toggle checks a s u h g first in
      rw ((run_off checks actions u t off n rest).0 ∙ same) held
