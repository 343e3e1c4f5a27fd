-- ===== src/App/Server/Peers.antt =====
-- `run_server` of crates/dshare/src/main.rs with several peers. Each connection runs `handle_peer`
-- with a capture backend of its own, so each has its own hooks and its own grab flag.
pub mod Callbacks
pub mod Lockout
use dshare.Base.{
  ℤ, ℕ, zero, suc, Bool, true, false, not, none, some, List, [], ◌∷◌, ◌≡◌, refl, ◌⊎◌, inl, inr,
  arith, All, Bool-cases,
}
use dshare.Input.Windows.Hooks.{
  HookState, HookResult, swallow, call_next, Outcome, WindowMessage, VirtualKey, is_hotkey,
  read_current_modifiers, kbd_hook_proc, mouse_hook_proc,
}

-- Windows: it runs a callback on the installed hooks, the newest first, and gives the hooks' states
-- afterwards and whether the event was swallowed.
abbrev pub HookChain : Type 0 → Type 0
HookChain Sender =
    (HookState Sender → Outcome Sender)
    → List (HookState Sender)
    → List (HookState Sender) × HookResult

-- What Windows documents: the newest hook is called first, and an older one only if CallNextHookEx
-- is called.
pub record IsHookChain {Sender : Type 0} (chain : HookChain Sender) : Type 0 where
  pub no_hook : (proc : HookState Sender → Outcome Sender) → chain proc [] ≡ ([], call_next)
  pub swallowed :
      (proc : HookState Sender → Outcome Sender) (hook : HookState Sender)
      (older : List (HookState Sender))
      → (proc hook).result ≡ swallow
      → chain proc (hook ∷ older) ≡ ((proc hook).state ∷ older, swallow)
  pub passed_on :
      (proc : HookState Sender → Outcome Sender) (hook : HookState Sender)
      (older : List (HookState Sender))
      → (proc hook).result ≡ call_next
      → chain proc (hook ∷ older) ≡ ((proc hook).state ∷ (chain proc older).0, (chain proc older).1)

-- A keyboard event, and the keys that are down then.
pub record KeyEvent : Type 0 where
  pub wparam : WindowMessage
  pub vk_code : ℕ
  pub async_key_state : VirtualKey → ℕ

-- A mouse event: where the pointer is, and `mouseData`.
pub record MouseEvent : Type 0 where
  pub wparam : WindowMessage
  pub cur_pos : ℤ × ℤ
  pub mouse_data : ℕ

-- `hook_thread_main` sets the thread's locals before it installs the hooks; the flag is that of
-- `WinCapture::new`.
unfoldable pub installed : {Sender : Type 0} → Sender → HookState Sender
installed sender = record { sender = some sender; grabbed = some false; last_mouse_pos = none }

-- What happens to the hooks of the peers: a keyboard event, a mouse event, a connection that
-- `run_server` accepts and whose hooks are installed, the end of the session at a position from the
-- newest, whose hooks are removed. A peer's two hooks are installed and removed together.
pub data PeerEvent (Sender : Type 0) : Type 0 where
  typed : KeyEvent → PeerEvent Sender
  moved : MouseEvent → PeerEvent Sender
  connected : Sender → PeerEvent Sender
  disconnected : ℕ → PeerEvent Sender

-- The callbacks on the events. That of the mouse is that of a release build, where it does not panic.
abbrev pub key_callback : {Sender : Type 0} → KeyEvent → HookState Sender → Outcome Sender
key_callback e hook = kbd_hook_proc true e.wparam e.vk_code e.async_key_state hook

unfoldable pub mouse_callback : {Sender : Type 0} → MouseEvent → HookState Sender → Outcome Sender
mouse_callback e hook = elim (mouse_hook_proc false true e.wparam e.cur_pos e.mouse_data hook) [
  | some out ↦ out
  | none ↦ record { state = hook; offered = none; result = call_next }
]

unfoldable pub without {ℓ} : {A : Type ℓ} → ℕ → List A → List A
without i [] = []
without zero (x ∷ xs) = xs
without (suc i) (x ∷ xs) = x ∷ without i xs

module _ {Sender : Type 0} (chain : HookChain Sender) where
  -- The hooks after some events, and what became of each keyboard or mouse event.
  unfoldable pub run_peers :
      List (PeerEvent Sender) → List (HookState Sender) → List (HookState Sender) × List HookResult
  unfolding without
  run_peers [] hooks = (hooks, [])
  run_peers (typed e ∷ events) hooks =
      let (after, result) = chain (key_callback e) hooks in
      let (end, results) = run_peers events after in (end, result ∷ results)
  run_peers (moved e ∷ events) hooks =
      let (after, result) = chain (mouse_callback e) hooks in
      let (end, results) = run_peers events after in (end, result ∷ results)
  run_peers (connected sender ∷ events) hooks = run_peers events (installed sender ∷ hooks)
  run_peers (disconnected i ∷ events) hooks = run_peers events (without i hooks)
