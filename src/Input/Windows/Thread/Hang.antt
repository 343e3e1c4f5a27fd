-- ===== src/Input/Windows/Thread/Hang.antt =====
-- A WinCapture that is dropped without WM_QUIT in its thread's queue.
use dshare.Base.{
  here, next, ℕ, sym, ap, ◌∙◌, Bool, true, false, ◌≡◌, ◌≢◌, ◌⊎◌, inl, inr, refl, arith, Bool-cases,
}
use dshare.Input.Windows.Thread.{
  install_failed, quit_read, Phase, spawned, published, mouse_hooked, pumping, returned, parked,
  joining, dropped, Capture, new_capture, Step, run_spawns, drop_unrun, drop_without_id, drop_posts,
  drop_post_fails, join_returns, publish, set_mouse_hook, set_mouse_hook_fails, set_kbd_hook,
  set_kbd_hook_fails, dispatch_message, get_quit, unhook_mouse, unhook_kbd, Steps,
}
use dshare.Input.Windows.Thread.Invariant.{Steps-IsConsistent, fits}

-- The phases of a thread that is not told to stop.
abbrev can_hang : Phase → Bool
can_hang spawned = true
can_hang published = true
can_hang mouse_hooked = true
can_hang pumping = true
can_hang (returned install_failed) = true
can_hang _ = false

abbrev IsHanging : Capture → Type 0
IsHanging s =
    (s.quit_posted ≡ false)
    × (can_hang s.phase ≡ true)
    × ((s.owner ≡ joining) ⊎ ((s.owner ≡ dropped) × (s.phase ≡ returned install_failed)))

Step-IsHanging : {tid : ℕ} {s t : Capture} → Step tid s t → IsHanging s → IsHanging t
Step-IsHanging (run_spawns s o) h = absurd (ground arith)
Step-IsHanging (drop_unrun s o) h = absurd (ground arith)
Step-IsHanging (drop_without_id s o i) h = absurd (ground arith)
Step-IsHanging (drop_posts s o i r) h = absurd (ground arith)
Step-IsHanging (drop_post_fails s o i p) h = absurd (ground arith)
Step-IsHanging (join_returns s install_failed o p) h = (h.0, h.1, inr (refl, p))
Step-IsHanging (join_returns s quit_read o p) h = absurd (ground arith)
Step-IsHanging (publish s p) h = ground arith
Step-IsHanging (set_mouse_hook s p) h = ground arith
Step-IsHanging (set_mouse_hook_fails s p) h = ground arith
Step-IsHanging (set_kbd_hook s p) h = ground arith
Step-IsHanging (set_kbd_hook_fails s p) h = ground arith
Step-IsHanging (dispatch_message s p) h = h
Step-IsHanging (get_quit s p q) h = absurd (ground arith)
Step-IsHanging (unhook_mouse s p) h = absurd (ground arith)
Step-IsHanging (unhook_kbd s p) h = absurd (ground arith)

Steps-IsHanging : {tid : ℕ} {s t : Capture} → Steps tid s t → IsHanging s → IsHanging t
Steps-IsHanging here h = h
Steps-IsHanging (next r st) h = Step-IsHanging st (Steps-IsHanging r h)

parked_can_hang : (p : Phase) → fits parked p ≡ true → can_hang p ≡ true
parked_can_hang (returned install_failed) h = refl
parked_can_hang (returned quit_read) h = cc
parked_can_hang p h = ground arith

-- If `drop` has not posted WM_QUIT, because the thread has not stored its id yet or because the post
-- failed, then nothing that happens later lets the owner go, but that a hook is not installed.
pub unposted_hangs :
    {tid : ℕ} {s t : Capture}
    → tid ≢ 0
    → Steps tid new_capture s
    → s.owner ≡ parked
    → Steps tid (record s { owner = joining }) t
    → t.owner ≡ dropped
    → t.phase ≡ returned install_failed
unposted_hangs {s} nz r o later d =
    let v = Steps-IsConsistent nz r in
    let unposted : s.quit_posted ≡ false = elim (Bool-cases s.quit_posted) [
      | inl q ↦ absurd (((v.quitting q).1) o)
      | inr n ↦ n
    ] in
    let can = parked_can_hang s.phase (ap (λ o. fits o s.phase) (sym o) ∙ v.stage) in
    let (q, c, end) = Steps-IsHanging later (unposted, can, inl refl) in ground arith
