-- ===== src/Input/Windows/Thread/Invariant.antt =====
-- What the two threads of a WinCapture agree on, after any steps of either.
use dshare.Base.{
  here, next, ℕ, Bool, true, false, ◌≡◌, ◌≢◌, ◌⊎◌, inl, inr, refl, sym, ap, ◌∙◌, arith,
  if◌then◌else◌,
}
use dshare.Input.Windows.Thread.{
  Ending, quit_read, Phase, unspawned, spawned, published, mouse_hooked, pumping, pump_left,
  mouse_unhooked, returned, Owner, fresh, parked, joining, dropped, Capture, new_capture, Step,
  run_spawns, drop_unrun, drop_without_id, drop_posts, drop_post_fails, join_returns, publish,
  set_mouse_hook, set_mouse_hook_fails, set_kbd_hook, set_kbd_hook_fails, dispatch_message,
  get_quit, unhook_mouse, unhook_kbd, Steps,
}

-- The phases in which Windows has the mouse hook, and the keyboard hook.
abbrev pub has_mouse : Phase → Bool
has_mouse mouse_hooked = true
has_mouse pumping = true
has_mouse pump_left = true
has_mouse _ = false

abbrev pub has_kbd : Phase → Bool
has_kbd pumping = true
has_kbd pump_left = true
has_kbd mouse_unhooked = true
has_kbd _ = false

-- The phases before the thread has stored its id.
abbrev pub is_unpublished : Phase → Bool
is_unpublished unspawned = true
is_unpublished spawned = true
is_unpublished _ = false

-- Which phases of the hook thread the owner can meet.
abbrev pub fits : Owner → Phase → Bool
fits fresh unspawned = true
fits fresh _ = false
fits parked unspawned = false
fits parked pump_left = false
fits parked mouse_unhooked = false
fits parked (returned quit_read) = false
fits parked _ = true
fits joining unspawned = false
fits joining _ = true
fits dropped unspawned = true
fits dropped (returned e) = true
fits dropped _ = false

pub record IsConsistent (tid : ℕ) (s : Capture) : Type 0 where
  pub mouse : s.mouse_hook ≡ has_mouse s.phase
  pub kbd : s.kbd_hook ≡ has_kbd s.phase
  pub id : s.hook_thread_id ≡ (if is_unpublished s.phase then 0 else tid)
  pub stage : fits s.owner s.phase ≡ true
  -- WM_QUIT comes from `drop`, to a thread that has an id.
  pub quitting :
      s.quit_posted ≡ true
      → (is_unpublished s.phase ≡ false) × (s.owner ≢ parked) × (s.owner ≢ fresh)

new_capture-IsConsistent : (tid : ℕ) → IsConsistent tid new_capture
unfolding new_capture
new_capture-IsConsistent tid = ground arith

pub Step-IsConsistent :
    {tid : ℕ} {s t : Capture} → tid ≢ 0 → Step tid s t → IsConsistent tid s → IsConsistent tid t
Step-IsConsistent nz (run_spawns s o) v = ground arith
Step-IsConsistent nz (drop_unrun s o) v = ground arith
Step-IsConsistent nz (drop_without_id s o i) v = ground arith
Step-IsConsistent nz (drop_posts s o i r) v = ground arith
Step-IsConsistent nz (drop_post_fails s o i p) v = ground arith
Step-IsConsistent nz (join_returns s e o p) v = ground arith
Step-IsConsistent nz (publish s p) v = ground arith
Step-IsConsistent nz (set_mouse_hook s p) v = ground arith
Step-IsConsistent nz (set_mouse_hook_fails s p) v = ground arith
Step-IsConsistent nz (set_kbd_hook s p) v = ground arith
Step-IsConsistent nz (set_kbd_hook_fails s p) v = ground arith
Step-IsConsistent nz (dispatch_message s p) v = v
Step-IsConsistent nz (get_quit s p q) v = ground arith
Step-IsConsistent nz (unhook_mouse s p) v = ground arith
Step-IsConsistent nz (unhook_kbd s p) v = ground arith

pub Steps-IsConsistent :
    {tid : ℕ} {s : Capture} → tid ≢ 0 → Steps tid new_capture s → IsConsistent tid s
Steps-IsConsistent {tid} nz here = new_capture-IsConsistent tid
Steps-IsConsistent nz (next r st) = Step-IsConsistent nz st (Steps-IsConsistent nz r)

-- A phase that the owner can meet when it is dropped.
returned_phase :
    (p : Phase)
    → fits dropped p ≡ true
    → (has_mouse p ≡ false)
      × (has_kbd p ≡ false)
      × ((p ≡ unspawned) ⊎ ((e : Ending) × (p ≡ returned e)))
returned_phase unspawned h = (refl, refl, inl refl)
returned_phase (returned e) h = (refl, refl, inr (e, refl))
returned_phase spawned h = cc
returned_phase published h = cc
returned_phase mouse_hooked h = cc
returned_phase pumping h = cc
returned_phase pump_left h = cc
returned_phase mouse_unhooked h = cc

-- No hook outlives its WinCapture: once it is dropped, Windows has neither of its hooks, and its
-- thread, if it was ever spawned, has returned.
pub dropped-released :
    {tid : ℕ} {s : Capture}
    → tid ≢ 0
    → Steps tid new_capture s
    → s.owner ≡ dropped
    → (s.mouse_hook ≡ false)
      × (s.kbd_hook ≡ false)
      × ((s.phase ≡ unspawned) ⊎ ((e : Ending) × (s.phase ≡ returned e)))
dropped-released {s} nz r d =
    let v = Steps-IsConsistent nz r in
    let (m, k, ended) = returned_phase s.phase (ap (λ o. fits o s.phase) (sym d) ∙ v.stage) in
    (v.mouse ∙ m, v.kbd ∙ k, ended)
