-- ===== src/Input/Windows/Thread.antt =====
-- WinCapture and its hook thread in crates/dshare-input/src/windows.rs: `new`, `run`, `drop` and
-- `hook_thread_main` as the steps of two threads, which share the thread's id and its message queue.
pub mod Invariant
pub mod Shutdown
pub mod Hang
use dshare.Base.{ℕ, Bool, true, false, ◌≡◌, ◌≢◌, Star}

-- Why the hook thread returned: a hook was not installed, or the pump read WM_QUIT.
pub data Ending : Type 0 where
  install_failed quit_read : Ending

-- Where `hook_thread_main` stands: before `spawn`, before it stores its id, before each
-- SetWindowsHookExW, in the message pump, before each UnhookWindowsHookEx behind it, returned.
pub data Phase : Type 0 where
  unspawned spawned published mouse_hooked pumping pump_left mouse_unhooked : Phase
  returned : Ending → Phase

-- Where the owner stands: `run` not yet called, parked in `run`, in `drop` before `join`, dropped.
pub data Owner : Type 0 where
  fresh parked joining dropped : Owner

pub record Capture : Type 0 where
  pub owner : Owner
  pub hook_thread_id : ℕ
  pub phase : Phase
  -- Whether WM_QUIT is in the hook thread's message queue, and whether Windows has the two hooks.
  pub quit_posted : Bool
  pub mouse_hook : Bool
  pub kbd_hook : Bool

-- `WinCapture::new`
unfoldable pub new_capture : Capture
new_capture = record {
  owner = fresh;
  hook_thread_id = 0;
  phase = unspawned;
  quit_posted = false;
  mouse_hook = false;
  kbd_hook = false;
}

-- The phases in which the thread can be sent a message: it has an id and has not returned.
abbrev pub is_reachable : Phase → Bool
is_reachable published = true
is_reachable mouse_hooked = true
is_reachable pumping = true
is_reachable pump_left = true
is_reachable mouse_unhooked = true
is_reachable _ = false

-- One step of either thread. `tid` is the id that Windows gives the hook thread. PostThreadMessageW
-- is sure to succeed for a thread that reads its message queue; to one that does not yet, or no
-- longer, it may fail, which `drop` ignores.
pub data Step (tid : ℕ) : Capture → Capture → Type 0 where
  run_spawns :
      (s : Capture) → s.owner ≡ fresh → Step tid s (record s { owner = parked; phase = spawned })
  drop_unrun : (s : Capture) → s.owner ≡ fresh → Step tid s (record s { owner = dropped })
  drop_without_id :
      (s : Capture)
      → s.owner ≡ parked
      → s.hook_thread_id ≡ 0
      → Step tid s (record s { owner = joining })
  drop_posts :
      (s : Capture)
      → s.owner ≡ parked
      → s.hook_thread_id ≢ 0
      → is_reachable s.phase ≡ true
      → Step tid s (record s { owner = joining; quit_posted = true })
  drop_post_fails :
      (s : Capture)
      → s.owner ≡ parked
      → s.hook_thread_id ≢ 0
      → s.phase ≢ pumping
      → Step tid s (record s { owner = joining })
  join_returns :
      (s : Capture) (e : Ending)
      → s.owner ≡ joining
      → s.phase ≡ returned e
      → Step tid s (record s { owner = dropped })
  publish :
      (s : Capture)
      → s.phase ≡ spawned
      → Step tid s (record s { phase = published; hook_thread_id = tid })
  set_mouse_hook :
      (s : Capture)
      → s.phase ≡ published
      → Step tid s (record s { phase = mouse_hooked; mouse_hook = true })
  set_mouse_hook_fails :
      (s : Capture)
      → s.phase ≡ published
      → Step tid s (record s { phase = returned install_failed })
  set_kbd_hook :
      (s : Capture)
      → s.phase ≡ mouse_hooked
      → Step tid s (record s { phase = pumping; kbd_hook = true })
  set_kbd_hook_fails :
      (s : Capture)
      → s.phase ≡ mouse_hooked
      → Step tid s (record s { phase = returned install_failed; mouse_hook = false })
  dispatch_message : (s : Capture) → s.phase ≡ pumping → Step tid s s
  get_quit :
      (s : Capture)
      → s.phase ≡ pumping
      → s.quit_posted ≡ true
      → Step tid s (record s { phase = pump_left; quit_posted = false })
  unhook_mouse :
      (s : Capture)
      → s.phase ≡ pump_left
      → Step tid s (record s { phase = mouse_unhooked; mouse_hook = false })
  unhook_kbd :
      (s : Capture)
      → s.phase ≡ mouse_unhooked
      → Step tid s (record s { phase = returned quit_read; kbd_hook = false })

abbrev pub Steps : ℕ → Capture → Capture → Type 0
Steps tid = Star (Step tid)
