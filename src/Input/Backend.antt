-- ===== src/Input/Backend.antt =====
-- crates/dshare-input/src/lib.rs: the backend that a platform has, and LinuxCapture of
-- crates/dshare-input/src/linux.rs, whose `run` is not implemented.
use dshare.Base.{Bool, false, Option, none, some, Result, ok, err}

-- `cfg(windows)`, `cfg(target_os = "linux")`, and neither.
pub data Platform : Type 0 where
  windows linux other : Platform

-- The types behind `dyn InputCapture`, each with the value of its shared flag.
pub data InputCapture : Type 0 where
  win_capture linux_capture : (grabbed : Bool) → InputCapture

pub data RunError : Type 0 where
  not_implemented : RunError

-- `WinCapture::new` and `LinuxCapture::new`
abbrev pub new_capture_of : (Bool → InputCapture) → InputCapture
new_capture_of backend = backend false

unfoldable pub set_grabbed : Bool → InputCapture → InputCapture
set_grabbed grabbed (win_capture g) = win_capture grabbed
set_grabbed grabbed (linux_capture g) = linux_capture grabbed

unfoldable pub grabbed_handle : InputCapture → Bool
grabbed_handle (win_capture g) = g
grabbed_handle (linux_capture g) = g

-- The error with which `run` returns; that of Windows never does.
unfoldable pub run_error : InputCapture → Option RunError
run_error (win_capture g) = none
run_error (linux_capture g) = some not_implemented

-- `anyhow::bail!("no capture backend for this platform")`
pub data NoCapture : Type 0 where
  no_capture_backend : NoCapture

unfoldable pub default_capture : Platform → Result InputCapture NoCapture
default_capture windows = ok (new_capture_of win_capture)
default_capture linux = ok (new_capture_of linux_capture)
default_capture other = err no_capture_backend

-- The types behind `dyn InputInject`; `Device` is the virtual device of LinuxInject.
pub data InjectBackend (Device : Type 0) : Type 0 where
  win_inject : InjectBackend Device
  linux_inject : Device → InjectBackend Device

-- `made` is the outcome of `LinuxInject::new`; `WinInject::new` cannot fail.
-- `anyhow::bail!("no inject backend for this platform")`, or the error of the backend's `new`.
pub data InjectError (E : Type 0) : Type 0 where
  no_inject_backend : InjectError E
  new_failed : E → InjectError E

unfoldable pub default_inject :
    {Device E : Type 0}
    → Platform
    → (made : Result Device E) → Result (InjectBackend Device) (InjectError E)
default_inject windows made = ok win_inject
default_inject linux (ok device) = ok (linux_inject device)
default_inject linux (err e) = err (new_failed e)
default_inject other made = err no_inject_backend
