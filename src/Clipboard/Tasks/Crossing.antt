-- ===== src/Clipboard/Tasks/Crossing.antt =====
-- Copies on two machines whose updates cross.
use dshare.Base.{ℕ, ◌≡◌, true, some, List, [], ◌∷◌, ◌++◌, ◌⊎◌}
use dshare.Protocol.{Bytes, Message}
use dshare.Clipboard.Tasks.{
  sleeping, holding, waiting, Machine, Action, copy, read, compare, arrive, write,
}
use dshare.Clipboard.Tasks.Echo.{update_of, round}

-- A text is copied and sent before the update with `other` arrives; then the watcher looks again.
abbrev pub crossing : (own other : Bytes) → List Action
crossing own other =
    copy own ∷ round ++ (arrive (update_of other) ∷ write true ∷ read ∷ compare ∷ [])

-- An action of the two tasks themselves: neither the user copies nor an update arrives.
abbrev pub IsOfTasks : Action → Type 0
IsOfTasks (copy t) = ⊥
IsOfTasks (arrive msg) = ⊥
IsOfTasks _ = Unit {0}

module _ (hash_str : Bytes → ℕ) where
  -- A machine that knows of the text `y` of its clipboard, its tasks idle or behind a reading of it.
  record IsQuiet (y : Bytes) (msgs : List Message) (m : Machine) : Type 0 where
    has : m.clipboard ≡ some y
    knows : m.state.last_hash ≡ hash_str y
    idle : m.applier ≡ waiting
    watches : (m.watcher ≡ sleeping) ⊎ (m.watcher ≡ holding y)
    has_sent : m.sent ≡ msgs
