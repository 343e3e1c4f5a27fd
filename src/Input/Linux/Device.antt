-- ===== src/Input/Linux/Device.antt =====
-- `LinuxInject::new`: the device that it asks uinput for. The evdev crate's builder is an argument.
pub mod Registered
use dshare.Base.{ℕ, List, [], ◌∷◌, Result, ok, err, codes}
use dshare.Protocol.{Bytes}
use dshare.Input.Linux.{EvdevCodes, registered_keys}

-- VirtualDeviceBuilder, on a builder `B` for a `Device`.
pub record Uinput (B Device E : Type 0) : Type 0 where
  pub open_uinput : Result B E
  pub name : Bytes → B → B
  pub with_keys : List ℕ → B → Result B E
  pub with_relative_axes : List ℕ → B → Result B E
  pub build : B → Result Device E

-- The axes that `new` registers.
abbrev pub registered_axes : EvdevCodes → List ℕ
registered_axes codes = codes.rel_x ∷ codes.rel_y ∷ codes.rel_wheel ∷ codes.rel_hwheel ∷ []

-- `?`
infixl 5 ◌>>=◌
abbrev pub ◌>>=◌ {ℓ} : {A B : Type ℓ} {E : Type 0} → Result A E → (A → Result B E) → Result B E
ok a >>= f = f a
err e >>= f = err e

-- `opening` is the error of the first call with its advice.
unfoldable pub new_inject :
    {B Device E : Type 0} → EvdevCodes → (opening : E → E) → Uinput B Device E → Result Device E
new_inject evdev opening uinput = do
  b ← elim uinput.open_uinput [ ok b ↦ ok b | err e ↦ err (opening e) ]
  keyed ← uinput.with_keys registered_keys (uinput.name (codes "dshare virtual input") b)
  moving ← uinput.with_relative_axes (registered_axes evdev) keyed
  uinput.build moving
