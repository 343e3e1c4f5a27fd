-- ===== src/Clipboard.antt =====
-- crates/dshare-clipboard/src/lib.rs: the polling watcher and `apply`. The clipboard of the system
-- and `hash_str`, whose algorithm Rust does not specify, are arguments. A text is its UTF-8 bytes.
pub mod Tasks
pub mod Utf8
pub mod Sync
use dshare.Base.{
  ℕ, Bool, true, false, Option, none, some, List, [], ◌∷◌, ◌==◌, if◌then◌else◌, codes, not,
}
use dshare.Protocol.{Bytes, Message, clipboard_update}
use Utf8.{from_utf8}

pub record State : Type 0 where
  pub last_hash : ℕ

abbrev pub default_state : State
default_state = record { last_hash = 0 }

-- `inner.lock().get_text()`
pub data Reading : Type 0 where
  text : Bytes → Reading
  content_not_available read_failed : Reading

abbrev pub text_mime : Bytes
text_mime = codes "text/plain;charset=utf-8"

unfoldable pub starts_with : Bytes → Bytes → Bool
starts_with [] s = true
starts_with (p ∷ ps) [] = false
starts_with (p ∷ ps) (c ∷ cs) = if p == c then starts_with ps cs else false

module _ (hash_str : Bytes → ℕ) where
  -- One round of the watcher after its sleep: the new state, and the message to send.
  unfoldable pub poll : Reading → State → State × Option Message
  poll (text t) s =
      if s.last_hash == hash_str t
      then (s, none)
      else (record s { last_hash = hash_str t }, some (clipboard_update text_mime t))
  poll content_not_available s = (s, none)
  poll read_failed s = (s, none)

  -- The loop over the rounds: what each reads, and whether the receiver of a message is still
  -- there. The messages given to `send`, in order, and the state at the end.
  unfoldable pub watch : List (Reading × Bool) → State → State × List Message
  watch [] s = (s, [])
  watch ((reading, listening) ∷ rounds) s =
      let (s', msg) = poll reading s in
      let (end, msgs) = watch rounds s' in
      elim msg [ none ↦ (end, msgs) | some m ↦ if listening then (end, m ∷ msgs) else (s', m ∷ []) ]

  -- The new state, and the text that is given to `set_text`, whose failure is only logged.
  unfoldable pub apply : Message → State → State × Option Bytes
  apply (clipboard_update mime content) s =
      if not (starts_with (codes "text/") mime) then (s, none) else elim (from_utf8 content) [
        | none ↦ (s, none)
        | some t ↦ (record s { last_hash = hash_str t }, some t)
      ]
  apply _ s = (s, none)
