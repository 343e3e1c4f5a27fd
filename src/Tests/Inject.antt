-- ===== src/Tests/Inject.antt =====
-- The two inject backends.
use dshare.Base.{ℕ, ◌+◌, List, ◌++◌, Result, ok}
use dshare.Input.Linux.{EvdevCodes, InputEvent}

abbrev pub scan_of : ℕ → ℕ
scan_of vk = vk + 1

-- The values of <linux/input-event-codes.h>.
abbrev pub linux_codes : EvdevCodes
linux_codes = record {
  rel_x = 0;
  rel_y = 1;
  rel_wheel = 8;
  rel_hwheel = 6;
  btn_left = 0x110;
  btn_right = 0x111;
  btn_middle = 0x112;
  btn_side = 0x113;
  btn_extra = 0x114;
}

-- A device that is the list of all events emitted to it.
abbrev pub log_events : List InputEvent → List InputEvent → Result (Unit {0}) ℕ × List InputEvent
log_events es device = (ok tt, device ++ es)
