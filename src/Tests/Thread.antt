-- ===== src/Tests/Thread.antt =====
-- Two lives of a WinCapture: one whose thread is told to stop, and one that is dropped too early.
use dshare.Base.{here, next, ◌≤◌, true, false, ◌≡◌, ◌⊎◌, inl, refl, arith}
use dshare.Input.Windows.Thread.{
  Ending, install_failed, Phase, unspawned, spawned, published, mouse_hooked, pumping, returned,
  parked, joining, dropped, Capture, new_capture, run_spawns, drop_without_id, drop_posts,
  join_returns, publish, set_mouse_hook, set_mouse_hook_fails, set_kbd_hook, dispatch_message,
  Steps,
}
use dshare.Input.Windows.Thread.Invariant.{dropped-released}
use dshare.Input.Windows.Thread.Shutdown.{busy, shutdown_bounded, shutdown_ends}
use dshare.Input.Windows.Thread.Hang.{unposted_hangs}

abbrev starting : Capture
starting = record new_capture { owner = parked; phase = spawned }

abbrev told : Capture
told = record starting {
  phase = published;
  hook_thread_id = 7;
  owner = joining;
  quit_posted = true;
}

-- `drop` comes right after the thread has stored its id.
to_told : Steps 7 new_capture told
unfolding new_capture
to_told =
    next (next (next here (run_spawns new_capture refl)) (publish starting refl)) (
      drop_posts (record starting { phase = published; hook_thread_id = 7 }) refl (omega arith)
        refl)

abbrev at_pump : Capture
at_pump = record told { phase = pumping; mouse_hook = true; kbd_hook = true }

to_pump : Steps 7 told at_pump
to_pump =
    next
      (next (next here (set_mouse_hook told refl))
        (set_kbd_hook (record told { phase = mouse_hooked; mouse_hook = true }) refl))
      (dispatch_message at_pump refl)

shutdown_bounded_example : busy to_pump ≤ 7
shutdown_bounded_example = shutdown_bounded (omega arith) to_told refl to_pump

shutdown_ends_example : (t : Capture) × Steps 7 told t × (t.owner ≡ dropped)
shutdown_ends_example = shutdown_ends (omega arith) to_told refl (inl refl)

-- `drop` comes before, and the mouse hook is not installed.
abbrev failed : Capture
failed = record starting { phase = returned install_failed; hook_thread_id = 7; owner = joining }

to_failed : Steps 7 (record starting { owner = joining }) (record failed { owner = dropped })
to_failed =
    next
      (next (next here (publish (record starting { owner = joining }) refl))
        (set_mouse_hook_fails (record failed { phase = published }) refl))
      (join_returns failed install_failed refl refl)

to_starting : Steps 7 new_capture starting
unfolding new_capture
to_starting = next here (run_spawns new_capture refl)

unposted_hangs_example : ◌≡◌ {A = Phase} (returned install_failed) (returned install_failed)
unposted_hangs_example = unposted_hangs (omega arith) to_starting refl to_failed refl

to_dropped : Steps 7 new_capture (record failed { owner = dropped })
unfolding new_capture
to_dropped =
    next
      (next
        (next (next to_starting (drop_without_id starting refl refl))
          (publish (record starting { owner = joining }) refl))
        (set_mouse_hook_fails (record failed { phase = published }) refl))
      (join_returns failed install_failed refl refl)

dropped-released_example :
    (failed.mouse_hook ≡ false)
    × (failed.kbd_hook ≡ false)
    × ((failed.phase ≡ unspawned) ⊎ ((e : Ending) × (failed.phase ≡ returned e)))
unfolding new_capture
dropped-released_example = dropped-released (omega arith) to_dropped refl
