-- ===== src/App/Smoke.antt =====
-- The two test commands of crates/dshare/src/main.rs: `test_inject` and `test_capture`. Times are in
-- milliseconds; the sleeps between the messages change nothing of what is injected.
pub mod Capture
pub mod Inject
pub mod Blocking
pub mod SelfTest
use dshare.Base.{
  ◌⊎◌, inl, inr, ℕ, zero, suc, ◌+◌, ◌*◌, Bool, true, false, Option, none, some, List, [], ◌∷◌, ◌++◌,
  ℤ, pos, negsuc, ltb, take, if◌then◌else◌, Result, ok, err,
}
use dshare.Protocol.{Message, KeyModifiers, mouse_move, mouse_button, key_event, left}
use dshare.Input.Backend.{
  Platform, InputCapture, NoCapture, default_capture, set_grabbed, grabbed_handle,
}
use dshare.Input.Windows.Hooks.{HookState, HookResult}
use dshare.App.Client.{InputInject}
use dshare.App.Server.Peers.{KeyEvent, MouseEvent, key_callback, mouse_callback}

-- What `timeout(500 ms, rx.recv())` gives: a message, the end of the channel, or nothing in time.
pub data Received : Type 0 where
  event : Message → Received
  channel_closed elapsed : Received

-- The `while` of `test_capture`, over its rounds: the time at which each begins, and what it
-- receives, if it gets so far. `none` if the loop has not ended with them, else the count.
unfoldable pub observe : (deadline : ℕ) → List (ℕ × Received) → (count : ℕ) → Option ℕ
observe deadline [] count = none
observe deadline ((now, event msg) ∷ rounds) count =
    let rest = observe deadline rounds (count + 1) in if ltb now deadline then rest else some count
observe deadline ((now, channel_closed) ∷ rounds) count = some count
observe deadline ((now, elapsed) ∷ rounds) count =
    let rest = observe deadline rounds count in if ltb now deadline then rest else some count

-- `test_capture(seconds, …)`, begun at the time `start`: the number of events seen.
unfoldable pub test_capture : (start seconds : ℕ) → List (ℕ × Received) → Option ℕ
unfolding observe
test_capture start seconds rounds = observe (start + 1000 * seconds) rounds 0

-- The state in which the hook thread of the command's WinCapture begins: the flag is what
-- `cap.set_grabbed(false)` has made it.
unfoldable pub watched : {Sender : Type 0} → InputCapture → Sender → HookState Sender
unfolding set_grabbed grabbed_handle
watched cap tx = record {
  sender = some tx;
  grabbed = some (grabbed_handle (set_grabbed false cap));
  last_mouse_pos = none;
}

-- What becomes of the keyboard and mouse events while it watches.
unfoldable pub watch_events :
    {Sender : Type 0} → List (KeyEvent ⊎ MouseEvent) → HookState Sender → List HookResult
watch_events [] hook = []
watch_events (inl e ∷ events) hook =
    let out = key_callback e hook in out.result ∷ watch_events events out.state
watch_events (inr e ∷ events) hook =
    let out = mouse_callback e hook in out.result ∷ watch_events events out.state

-- `for _ in 0..n`
unfoldable pub repeated {ℓ} : {A : Type ℓ} → ℕ → List A → List A
repeated zero xs = []
repeated (suc n) xs = xs ++ repeated n xs

-- The messages of the self-test: three times two to the right and two to the left.
unfoldable pub self_test_moves : List Message
unfolding repeated
self_test_moves = repeated 3 (mouse_move (pos 2) (pos 0) ∷ mouse_move (negsuc 1) (pos 0) ∷ [])

module _ {Device X : Type 0} (handle : InputInject Device X) where
  -- `let _ = inj.handle(…).await` for each message: an error changes nothing.
  unfoldable pub handle_ignoring : List Message → Device → Device
  handle_ignoring [] device = device
  handle_ignoring (msg ∷ msgs) device =
      let (_, device') = handle msg device in handle_ignoring msgs device'

  -- The task of the self-test: what it does to the backend that `default_inject` has made, if it has.
  -- It is not awaited: the program may end behind the first `ran` messages.
  unfoldable pub inject_task : {E : Type 0} → (ran : ℕ) → (made : Result Device E) → Option Device
  unfolding handle_ignoring self_test_moves
  inject_task ran (err e) = none
  inject_task ran (ok device) = some (handle_ignoring (take ran self_test_moves) device)

  -- The command as a whole, on a platform: without a capture backend it fails at once, and begins no
  -- self-test. The number of events that it reports, if it has ended, and the self-test's backend.
  unfoldable pub test_capture_on :
      {E : Type 0}
      → Platform
      → (self_test : Bool) (ran : ℕ) (made : Result Device E) (start seconds : ℕ)
      → List (ℕ × Received)
      → Option (Result ℕ NoCapture) × Option Device
  unfolding test_capture inject_task
  test_capture_on platform self_test ran made start seconds rounds =
      elim (default_capture platform) [
        | err e ↦ (some (err e), none)
        | ok cap ↦ (
          elim (test_capture start seconds rounds) [ none ↦ none | some n ↦ some (ok n) ],
          if self_test then inject_task ran made else none,
        )
      ]

-- `KeyModifiers::default()`
abbrev pub default_modifiers : KeyModifiers
default_modifiers = record { shift = false; ctrl = false; alt = false; meta = false }

-- Both halves of a stroke of the key with that evdev code.
abbrev pub stroke : ℕ → List Message
stroke code = key_event code true default_modifiers ∷ key_event code false default_modifiers ∷ []

-- The canned sequence: fifty moves, a click, and H, I and Enter.
unfoldable pub canned : List Message
unfolding repeated
canned =
    repeated 50 (mouse_move (pos 4) (pos 0) ∷ [])
    ++ (mouse_button left true ∷ mouse_button left false ∷ (stroke 35 ++ (stroke 23 ++ stroke 28)))

module _ {Device X : Type 0} (handle : InputInject Device X) where
  -- `inj.handle(…).await?` for each message: the first error ends it.
  unfoldable pub handle_each : List Message → Device → Result (Unit {0}) X × Device
  handle_each [] device = (ok tt, device)
  handle_each (msg ∷ msgs) device =
      let (r, device') = handle msg device in
      let rest = handle_each msgs device' in elim r [ ok _ ↦ rest | err e ↦ (err e, device') ]

  unfoldable pub test_inject : Device → Result (Unit {0}) X × Device
  unfolding handle_each canned
  test_inject device = handle_each canned device
