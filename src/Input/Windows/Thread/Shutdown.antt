-- ===== src/Input/Windows/Thread/Shutdown.antt =====
-- How a WinCapture comes to its end when WM_QUIT is in its thread's queue.
use dshare.Base.{
  here, next, ℕ, zero, suc, sym, ap, ◌∙◌, ◌+◌, ◌≤◌, ◌<◌, Bool, true, false, ◌≡◌, ◌≢◌, ◌⊎◌, inl, inr,
  refl, arith, if◌then◌else◌,
}
use dshare.Input.Windows.Thread.{
  Phase, unspawned, spawned, published, mouse_hooked, pumping, pump_left, mouse_unhooked, returned,
  joining, dropped, Capture, new_capture, Step, run_spawns, drop_unrun, drop_without_id, drop_posts,
  drop_post_fails, join_returns, publish, set_mouse_hook, set_mouse_hook_fails, set_kbd_hook,
  set_kbd_hook_fails, dispatch_message, get_quit, unhook_mouse, unhook_kbd, Steps,
}
use dshare.Input.Windows.Thread.Invariant.{
  IsConsistent, Step-IsConsistent, Steps-IsConsistent, fits,
}

-- Steps that are still to come when the owner waits: those of the thread, and the return of `join`.
abbrev pub phase_rank : Phase → ℕ
phase_rank unspawned = 8
phase_rank spawned = 7
phase_rank published = 6
phase_rank mouse_hooked = 5
phase_rank pumping = 4
phase_rank pump_left = 3
phase_rank mouse_unhooked = 2
phase_rank (returned e) = 1

abbrev pub rank : Capture → ℕ
rank s = elim s.owner [ dropped ↦ 0 | _ ↦ phase_rank s.phase ]

-- The pump hands a message on: the only step that leaves all as it was.
abbrev pub is_dispatch : {tid : ℕ} {s t : Capture} → Step tid s t → Bool
is_dispatch (dispatch_message s p) = true
is_dispatch _ = false

-- The steps that do something else.
abbrev pub busy : {tid : ℕ} {s t : Capture} → Steps tid s t → ℕ
busy here = 0
busy (next r st) = busy r + (if is_dispatch st then 0 else 1)

-- The owner waits, or has been let go.
abbrev IsLeaving : Capture → Type 0
IsLeaving s = (s.owner ≡ joining) ⊎ (s.owner ≡ dropped)

Step-IsLeaving :
    {tid : ℕ} {s t : Capture} (st : Step tid s t)
    → IsConsistent tid s
    → IsLeaving s
    → IsLeaving t × ((if is_dispatch st then 0 else 1) + rank t ≤ rank s)
Step-IsLeaving (run_spawns s o) v j = absurd (ground arith)
Step-IsLeaving (drop_unrun s o) v j = absurd (ground arith)
Step-IsLeaving (drop_without_id s o i) v j = absurd (ground arith)
Step-IsLeaving (drop_posts s o i r) v j = absurd (ground arith)
Step-IsLeaving (drop_post_fails s o i p) v j = absurd (ground arith)
Step-IsLeaving (join_returns s e o p) v j = (inr refl, ground arith)
Step-IsLeaving (publish s p) v j = (j, ground arith)
Step-IsLeaving (set_mouse_hook s p) v j = (j, ground arith)
Step-IsLeaving (set_mouse_hook_fails s p) v j = (j, ground arith)
Step-IsLeaving (set_kbd_hook s p) v j = (j, ground arith)
Step-IsLeaving (set_kbd_hook_fails s p) v j = (j, ground arith)
Step-IsLeaving (dispatch_message s p) v j = (j, omega arith)
Step-IsLeaving (get_quit s p q) v j = (j, ground arith)
Step-IsLeaving (unhook_mouse s p) v j = (j, ground arith)
Step-IsLeaving (unhook_kbd s p) v j = (j, ground arith)

Steps-IsLeaving :
    {tid : ℕ} {s t : Capture}
    → tid ≢ 0
    → (r : Steps tid s t) → IsConsistent tid s
    → IsLeaving s
    → IsConsistent tid t × IsLeaving t × (busy r + rank t ≤ rank s)
Steps-IsLeaving nz here v j = (v, j, omega arith)
Steps-IsLeaving nz (next r st) v j =
    let (v', j', less) = Steps-IsLeaving nz r v j in
    let (j'', step) = Step-IsLeaving st v' j' in (Step-IsConsistent nz st v', j'', omega arith)

joining_rank : (p : Phase) → fits joining p ≡ true → phase_rank p ≤ 7
joining_rank unspawned h = cc
joining_rank p h = ground arith

-- While the owner waits in `drop`, the two threads take at most seven steps together, not counting
-- the messages that the pump dispatches, whichever hooks fail and however the steps interleave.
pub shutdown_bounded :
    {tid : ℕ} {s t : Capture}
    → tid ≢ 0
    → Steps tid new_capture s
    → s.owner ≡ joining
    → (r : Steps tid s t) → busy r ≤ 7
shutdown_bounded {s} nz r0 j r =
    let v = Steps-IsConsistent nz r0 in
    let (v', j', less) = Steps-IsLeaving nz r v (inl j) in
    let few = joining_rank s.phase (ap (λ o. fits o s.phase) (sym j) ∙ v.stage) in ground arith

-- The thread is to stop: WM_QUIT waits for it, or it is behind the pump already.
abbrev pub IsStopping : Capture → Type 0
IsStopping s = (s.quit_posted ≡ true) ⊎ (phase_rank s.phase < 4)

-- Something is left to do for one of the threads, and it brings the end nearer.
progress :
    {tid : ℕ} {s : Capture} (p : Phase)
    → s.phase ≡ p
    → IsConsistent tid s
    → s.owner ≡ joining
    → IsStopping s
    → (t : Capture) × Step tid s t
      × (rank t < rank s)
      × ((t.owner ≡ dropped) ⊎ ((t.owner ≡ joining) × IsStopping t))
progress unspawned e v j q = absurd (ground (arith, v.quitting))
progress spawned e v j q = absurd (ground (arith, v.quitting))
progress published e v j q = (_, set_mouse_hook _ e, ground arith, inr (j, ground arith))
progress mouse_hooked e v j q = (_, set_kbd_hook _ e, ground arith, inr (j, ground arith))
progress pumping e v j q =
    (_, get_quit _ e (ground arith), ground arith, inr (j, inr (omega arith)))
progress pump_left e v j q = (_, unhook_mouse _ e, ground arith, inr (j, inr (omega arith)))
progress mouse_unhooked e v j q = (_, unhook_kbd _ e, ground arith, inr (j, inr (omega arith)))
progress (returned x) e v j q = (_, join_returns _ x j e, ground arith, inl refl)

finish :
    {tid : ℕ} {s0 : Capture} (n : ℕ) (s : Capture)
    → rank s < n
    → tid ≢ 0
    → Steps tid s0 s
    → IsConsistent tid s
    → s.owner ≡ joining
    → IsStopping s
    → (t : Capture) × Steps tid s0 t × (t.owner ≡ dropped)
finish zero s l nz r v j q = absurd (omega arith)
finish (suc n) s l nz r v j q =
    let (t, st, less, after) = progress s.phase refl v j q in
    elim after [
      | inl d ↦ (t, next r st, d)
      | inr (j', q') ↦ finish n t (omega arith) nz (next r st) (Step-IsConsistent nz st v) j' q'
    ]

-- From whatever state both threads have reached: while the owner waits and WM_QUIT has been posted,
-- they can go on until the owner is let go; no state on the way is stuck.
pub shutdown_ends :
    {tid : ℕ} {s : Capture}
    → tid ≢ 0
    → Steps tid new_capture s
    → s.owner ≡ joining
    → IsStopping s
    → (t : Capture) × Steps tid s t × (t.owner ≡ dropped)
shutdown_ends {s} nz r j q =
    finish (suc (rank s)) s (omega arith) nz here (Steps-IsConsistent nz r) j q
