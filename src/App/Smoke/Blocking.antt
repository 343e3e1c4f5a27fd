-- ===== src/App/Smoke/Blocking.antt =====
-- `test-capture` and the machine's own input.
use dshare.Base.{
  ℕ, zero, suc, ◌≡◌, refl, ap, ◌∙◌, ◌⊎◌, inl, inr, Bool, false, not, ◌||◌, some, List, [], ◌∷◌,
  arith, Bool-cases, if◌then◌else◌,
}
use dshare.Input.Backend.{InputCapture, win_capture, linux_capture, set_grabbed, grabbed_handle}
use dshare.Input.Windows.Hooks.{
  HookState, HookResult, swallow, call_next, is_hotkey, read_current_modifiers, kbd_hook_proc,
}
use dshare.App.Server.Peers.{KeyEvent, MouseEvent, key_callback, mouse_callback}
use dshare.App.Server.Peers.Callbacks.{mouse_callback_keeps}
use dshare.App.Smoke.{watched, watch_events}

abbrev pub is_press_of_hotkey : KeyEvent ⊎ MouseEvent → Bool
is_press_of_hotkey (inl e) = is_hotkey e.wparam e.vk_code (read_current_modifiers e.async_key_state)
is_press_of_hotkey (inr e) = false

abbrev pub is_odd : ℕ → Bool
is_odd zero = false
is_odd (suc n) = not (is_odd n)

-- The events are kept from the machine that are presses of the hotkey, or have an odd number of such
-- presses before them; `presses` came before these.
abbrev pub kept_back : (presses : ℕ) → List (KeyEvent ⊎ MouseEvent) → List HookResult
kept_back presses [] = []
kept_back presses (e ∷ events) =
    (if is_press_of_hotkey e || is_odd presses then swallow else call_next)
    ∷ kept_back (if is_press_of_hotkey e then suc presses else presses) events

set_grabbed-handle : (cap : InputCapture) → grabbed_handle (set_grabbed false cap) ≡ false
unfolding grabbed_handle set_grabbed
set_grabbed-handle (win_capture g) = refl
set_grabbed-handle (linux_capture g) = refl

module _ {Sender : Type 0} where
  key_callback_lem :
      (e : KeyEvent) (hook : HookState Sender) (presses : ℕ)
      → hook.grabbed ≡ some (is_odd presses)
      → let out = key_callback e hook in
        let hot = is_press_of_hotkey (inl e) in
        (out.result ≡ (if hot || is_odd presses then swallow else call_next))
        × (out.state.grabbed ≡ some (is_odd (if hot then suc presses else presses)))
  unfolding kbd_hook_proc
  key_callback_lem e hook presses h = elim (Bool-cases (is_press_of_hotkey (inl e))) [
    | inl b ↦ ground arith
    | inr b ↦ ground arith
  ]

  watch_events-kept_back :
      (events : List (KeyEvent ⊎ MouseEvent)) (hook : HookState Sender) (presses : ℕ)
      → hook.grabbed ≡ some (is_odd presses)
      → watch_events events hook ≡ kept_back presses events
  unfolding watch_events
  watch_events-kept_back [] hook presses h = refl
  watch_events-kept_back (inl e ∷ events) hook presses h =
      let (result, state) = key_callback_lem e hook presses h in
      let presses' = if is_press_of_hotkey (inl e) then suc presses else presses in
      let later = watch_events-kept_back events (key_callback e hook).state presses' state in cc
  watch_events-kept_back (inr e ∷ events) hook presses h =
      let (same, result) = mouse_callback_keeps e hook in
      let kept = result (is_odd presses) h in
      let later = watch_events-kept_back events (mouse_callback e hook).state presses (same ∙ h) in
      cc

  -- While `test-capture` watches, the hotkey works: an event is kept from the machine exactly if it is
  -- a press of the hotkey or an odd number of such presses came before it. Until the first one nothing
  -- is kept back.
  pub test_capture_blocks :
      (cap : InputCapture) (tx : Sender) (events : List (KeyEvent ⊎ MouseEvent))
      → watch_events events (watched cap tx) ≡ kept_back 0 events
  unfolding watched
  test_capture_blocks cap tx events =
      watch_events-kept_back events (watched cap tx) 0 (ap some (set_grabbed-handle cap))
