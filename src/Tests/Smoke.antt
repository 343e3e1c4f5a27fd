-- ===== src/Tests/Smoke.antt =====
-- The two test commands.
use dshare.Base.{
  ℕ, zero, suc, ◌+◌, ◌*◌, ◌≤◌, false, none, some, List, [], ◌∷◌, ◌++◌, ◌≡◌, ◌⊎◌, inl, inr, pos,
  refl, ok, err, All, arith,
}
use dshare.Protocol.{ping}
use dshare.App.Client.{InputInject}
use dshare.App.Client.Delivery.{inject_all}
use dshare.App.Server.Grab.{is_held}
use dshare.Input.Backend.{win_capture}
use dshare.Input.Windows.Inject.{Input}
use dshare.App.Smoke.SelfTest.{strayed}
use dshare.Input.Windows.Hooks.{
  wm_keydown, wm_mousemove, swallow, call_next, read_current_modifiers,
}
use dshare.App.Server.Peers.{KeyEvent, MouseEvent}
use dshare.Tests.Hooks.{chord, no_keys}
use dshare.App.Smoke.Blocking.{kept_back, test_capture_blocks}
use dshare.App.Smoke.{
  watched, watch_events, Received, event, channel_closed, elapsed, test_capture, canned,
  test_inject,
}
use dshare.App.Smoke.Capture.{events_in, EndsLoop, FirstEnd, test_capture_bounded}
use dshare.App.Smoke.Inject.{AllTaken, FailsAt, test_inject_stops}

-- One second: an event, a quiet half second, an event, a quiet half second, and the deadline.
abbrev one_second : List (ℕ × Received)
one_second =
    (1000, event (ping 1))
    ∷ (1010, elapsed)
    ∷ (1510, event (ping 2))
    ∷ (1600, elapsed)
    ∷ (2100, event (ping 3))
    ∷ []

counts_two : test_capture 1000 1 one_second ≡ some 2
unfolding test_capture
counts_two = refl

-- Without capture, as on Linux, the channel is closed and nothing is seen.
closed_at_once : test_capture 1000 10 ((1000, channel_closed) ∷ []) ≡ some 0
unfolding test_capture
closed_at_once = refl

test_capture_bounded_example :
    ((test_capture 1000 1 one_second ≡ none)
      × All (λ round. ¬ EndsLoop (1000 + 1000 * 1) round) one_second
      × (5 ≤ events_in one_second + 2 * 1 + 1))
    ⊎ ((f : FirstEnd (1000 + 1000 * 1) one_second) × (test_capture 1000 1 one_second
          ≡ some (events_in f.before)))
test_capture_bounded_example = test_capture_bounded 1000 1 one_second (omega arith)

-- A backend that counts, and one that fails at the third message.
abbrev counting : InputInject ℕ ℕ
counting msg n = (ok tt, n + 1)

abbrev third_fails : InputInject ℕ ℕ
third_fails msg (suc (suc zero)) = (err 7, 2)
third_fails msg n = (ok tt, n + 1)

sends_58 : test_inject counting 0 ≡ (ok tt, 58)
unfolding test_inject
sends_58 = refl

stops_at_third : test_inject third_fails 0 ≡ (err 7, 2)
unfolding test_inject
stops_at_third = refl

test_inject_stops_example :
    ((test_inject third_fails 0 ≡ (ok tt, inject_all third_fails 0 canned))
      × AllTaken third_fails canned 0
      × ((code : ℕ) → is_held code canned ≡ false))
    ⊎ ((f : FailsAt third_fails canned 0) × (test_inject third_fails 0
          ≡ (err f.error, inject_all third_fails 0 (f.done ++ (f.msg ∷ [])))))
test_inject_stops_example = test_inject_stops third_fails 0

-- The hotkey between two strokes of A and a move of the mouse: what follows it is kept back.
abbrev watching : List (KeyEvent ⊎ MouseEvent)
watching =
    inl (record { wparam = wm_keydown; vk_code = 0x41; async_key_state = no_keys })
    ∷ inl (record { wparam = wm_keydown; vk_code = 0x47; async_key_state = chord })
    ∷ inr (record { wparam = wm_mousemove; cur_pos = (pos 1, pos 2); mouse_data = 0 })
    ∷ []

test_capture_blocks_example :
    watch_events watching (watched {Sender = ℕ} (win_capture false) 7) ≡ kept_back 0 watching
test_capture_blocks_example = test_capture_blocks (win_capture false) 7 watching

keeps_back_two : kept_back 0 watching ≡ call_next ∷ swallow ∷ swallow ∷ []
unfolding read_current_modifiers
keeps_back_two = refl

strays_by_two : strayed 3 ≡ pos 2
strays_by_two = refl
