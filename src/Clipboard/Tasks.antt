-- ===== src/Clipboard/Tasks.antt =====
-- One Clipboard of crates/dshare-clipboard/src/lib.rs at work: the watcher's task and the task that
-- calls `apply`, as they interleave. Each hold of a lock is an action of its own, since the tasks
-- release `inner` before they take `state`, and the other way round.
pub mod Account
pub mod Bound
pub mod Echo
pub mod Crossing
pub mod Receiving
pub mod Sending
pub mod Delivery
use dshare.Base.{
  ℕ, ◌+◌, Bool, true, false, Option, none, some, List, [], ◌∷◌, ◌++◌, if◌then◌else◌, ◌>>=◌,
}
use dshare.Protocol.{Bytes, Message}
use dshare.Clipboard.{State, default_state, text, poll, apply}

-- Where the watcher's loop is: it sleeps, it has read a text, it awaits `send`, it has ended.
pub data Watcher : Type 0 where
  sleeping : Watcher
  holding : Bytes → Watcher
  sending : Message → Watcher
  ended : Watcher

-- Where `apply` is: not called, or between the locks of `state` and `inner`.
pub data Applier : Type 0 where
  waiting : Applier
  marked : Bytes → Applier

-- `clipboard` is the text that the system's clipboard has, if it has one.
pub record Machine : Type 0 where
  pub clipboard : Option Bytes
  pub state : State
  pub watcher : Watcher
  pub applier : Applier
  pub sent : List Message

-- `Clipboard::new` and `spawn_watcher`, while the system's clipboard has `clipboard`.
abbrev pub new_machine : Option Bytes → Machine
new_machine clipboard = record {
  clipboard = clipboard;
  state = default_state;
  watcher = sleeping;
  applier = waiting;
  sent = [];
}

-- `copy` is the user's. `read` is `get_text`, `unread` its failure; `compare` is the hold of `state`
-- behind it; `send` tells whether the receiver is still there. `arrive` is the first half of `apply`,
-- `write` its second, with whether `set_text` succeeds.
pub data Action : Type 0 where
  copy : Bytes → Action
  read unread compare : Action
  send : (listening : Bool) → Action
  arrive : Message → Action
  write : (succeeds : Bool) → Action

module _ (hash_str : Bytes → ℕ) where
  -- The machine after an action, if the action can come now.
  unfoldable pub act : Action → Machine → Option Machine
  act (copy t) m = some (record m { clipboard = some t })
  act read m = elim m.watcher [
    | sleeping ↦ elim m.clipboard [
      | none ↦ some m
      | some t ↦ some (record m { watcher = holding t })
    ]
    | _ ↦ none
  ]
  act unread m = elim m.watcher [ sleeping ↦ some m | _ ↦ none ]
  act compare m = elim m.watcher [
    | holding t ↦
        let (state, msg) = poll hash_str (text t) m.state in
        some (record m {
          state = state;
          watcher = elim msg [ none ↦ sleeping | some update ↦ sending update ];
        })
    | _ ↦ none
  ]
  act (send listening) m = elim m.watcher [
    | sending msg ↦ some (
        if listening
        then record m { watcher = sleeping; sent = m.sent ++ (msg ∷ []) }
        else record m { watcher = ended })
    | _ ↦ none
  ]
  act (arrive msg) m = elim m.applier [
    | waiting ↦
        let (state, written) = apply hash_str msg m.state in
        some (record m {
          state = state;
          applier = elim written [ none ↦ waiting | some t ↦ marked t ];
        })
    | _ ↦ none
  ]
  act (write succeeds) m = elim m.applier [
    | marked t ↦ some (
        if succeeds
        then record m { clipboard = some t; applier = waiting }
        else record m { applier = waiting })
    | _ ↦ none
  ]

  unfoldable pub run : List Action → Machine → Option Machine
  run [] m = some m
  run (a ∷ actions) m = act a m >>= λ n. run actions n
