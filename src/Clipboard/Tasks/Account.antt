-- ===== src/Clipboard/Tasks/Account.antt =====
-- What each action does to the messages that a watcher has sent and may still send.
use dshare.Base.{
  ℕ, ◌+◌, ◌*◌, ◌≤◌, ◌≡◌, refl, ◌⊎◌, inl, inr, Bool-cases, codes, Bool, true, false, Option, none,
  some, [], ◌∷◌, arith, length, length-append, ◌==◌, if◌then◌else◌, Option-cases,
}
use dshare.Protocol.{Bytes, Message, clipboard_update}
use dshare.Clipboard.Utf8.{from_utf8}
use dshare.Clipboard.{State, starts_with, poll, apply}
use dshare.Clipboard.Tasks.{
  Watcher, sleeping, holding, sending, ended, Applier, waiting, marked, Machine, Action, copy, read,
  unread, compare, send, arrive, write, act,
}

-- Both tasks are between the locks at once: `apply` begins while the watcher holds a text, or the
-- watcher reads while `apply` has yet to write.
abbrev pub overlap : Watcher → Applier → Action → ℕ
overlap (holding _) _ (arrive _) = 1
overlap _ (marked _) read = 1
overlap _ _ _ = 0

-- The user copies a text, or `apply` leaves the old one because `set_text` fails.
abbrev pub occasion : Action → ℕ
occasion (copy t) = 1
occasion (write false) = 1
occasion _ = 0

abbrev pub charge : Action → Machine → ℕ
charge a m = occasion a + 2 * overlap m.watcher m.applier a

-- The text that the clipboard has, or gets when `apply` goes on.
abbrev pub latest : Applier → Option Bytes → Option Bytes
latest waiting clipboard = clipboard
latest (marked t) clipboard = some t

module _ (hash_str : Bytes → ℕ) where
  -- One, if a text has another hash than the last.
  abbrev pub unsent : ℕ → Option Bytes → ℕ
  unsent last none = 0
  unsent last (some t) = if last == hash_str t then 0 else 1

  -- The messages that the watcher may still send without another copy.
  abbrev pub pending_of : Watcher → ℕ → Option Bytes → ℕ
  pending_of sleeping last now = unsent last now
  pending_of (holding t) last now = unsent last (some t) + unsent (hash_str t) now
  pending_of (sending _) last now = 1 + unsent last now
  pending_of ended last now = 0

  abbrev pub pending : Machine → ℕ
  pending m = pending_of m.watcher m.state.last_hash (latest m.applier m.clipboard)

  pub unsent-le : (last : ℕ) (now : Option Bytes) → unsent last now ≤ 1
  unsent-le last none = omega arith
  unsent-le last (some t) = ground arith

  pub unsent-same : (t : Bytes) → unsent (hash_str t) (some t) ≡ 0
  unsent-same t = ground arith

  -- Another text in the clipboard makes one more message at most.
  pending_of_changed :
      (w : Watcher) (last : ℕ) (now later : Option Bytes)
      → pending_of w last later ≤ pending_of w last now + 1
  pending_of_changed sleeping last now later = omega (arith, unsent-le last later)
  pending_of_changed (holding t) last now later = omega (arith, unsent-le (hash_str t) later)
  pending_of_changed (sending msg) last now later = omega (arith, unsent-le last later)
  pending_of_changed ended last now later = omega arith

  -- The account of an action.
  abbrev pub Accounts : Machine → ℕ → Machine → Type 0
  Accounts m cost n = length n.sent + pending n ≤ length m.sent + pending m + cost

  copy-Accounts : (t : Bytes) (m : Machine) → Accounts m 1 (record m { clipboard = some t })
  copy-Accounts t m = omega (
    arith,
    pending_of_changed m.watcher m.state.last_hash (latest m.applier m.clipboard)
        (latest m.applier (some t)),
  )

  read-Accounts : (m n : Machine) → act hash_str read m ≡ some n → Accounts m (charge read m) n
  unfolding act
  read-Accounts m n e = by_tasks m.watcher m.applier m.clipboard refl refl refl
    where
      by_tasks :
          (w : Watcher) (p : Applier) (c : Option Bytes)
          → m.watcher ≡ w
          → m.applier ≡ p
          → m.clipboard ≡ c
          → Accounts m (charge read m) n
      by_tasks sleeping p none hw hp hc = ground arith
      by_tasks sleeping waiting (some t) hw hp hc = ground (arith, unsent-same t)
      by_tasks sleeping (marked x) (some t) hw hp hc =
          ground (arith, unsent-le m.state.last_hash (some t), unsent-le (hash_str t) (some x))
      by_tasks (holding x) p c hw hp hc = ground arith
      by_tasks (sending x) p c hw hp hc = ground arith
      by_tasks ended p c hw hp hc = ground arith

  compare-Accounts : (m n : Machine) → act hash_str compare m ≡ some n → Accounts m 0 n
  unfolding act poll
  compare-Accounts m n e = by_watcher m.watcher refl
    where
      by_watcher : (w : Watcher) → m.watcher ≡ w → Accounts m 0 n
      by_watcher (holding t) hw = ground arith
      by_watcher sleeping hw = ground arith
      by_watcher (sending x) hw = ground arith
      by_watcher ended hw = ground arith

  unread-Accounts : (m n : Machine) → act hash_str unread m ≡ some n → Accounts m 0 n
  unfolding act
  unread-Accounts m n e = by_watcher m.watcher refl
    where
      by_watcher : (w : Watcher) → m.watcher ≡ w → Accounts m 0 n
      by_watcher sleeping hw = ground arith
      by_watcher (holding t) hw = ground arith
      by_watcher (sending x) hw = ground arith
      by_watcher ended hw = ground arith

  send-Accounts :
      (listening : Bool) (m n : Machine) → act hash_str (send listening) m ≡ some n → Accounts m 0 n
  unfolding act
  send-Accounts listening m n e = by_watcher m.watcher listening refl refl
    where
      by_watcher : (w : Watcher) (l : Bool) → m.watcher ≡ w → listening ≡ l → Accounts m 0 n
      by_watcher (sending msg) true hw hl = ground (arith, length-append m.sent (msg ∷ []))
      by_watcher (sending msg) false hw hl = ground arith
      by_watcher sleeping l hw hl = ground arith
      by_watcher (holding x) l hw hl = ground arith
      by_watcher ended l hw hl = ground arith

  -- `apply` marks the hash of the text that it is to write, or leaves the state alone.
  apply_marks :
      (msg : Message) (s : State)
      → ((t : Bytes) × (apply hash_str msg s ≡ (record { last_hash = hash_str t }, some t)))
        ⊎ (apply hash_str msg s ≡ (s, none))
  unfolding apply
  apply_marks (clipboard_update mime content) s =
      elim (Bool-cases (starts_with (codes "text/") mime)) [
        | inr e ↦ inr (ground arith)
        | inl e ↦ elim (Option-cases (from_utf8 content)) [
          | inl none_of_it ↦ inr (ground arith)
          | inr (t, valid) ↦ inl (t, ground arith)
        ]
      ]
  apply_marks _ s = inr refl

  arrive-Accounts :
      (msg : Message) (m n : Machine)
      → act hash_str (arrive msg) m ≡ some n
      → Accounts m (charge (arrive msg) m) n
  unfolding act
  arrive-Accounts msg m n e = by_tasks m.watcher m.applier refl refl (apply_marks msg m.state)
    where
      by_tasks :
          (w : Watcher) (p : Applier)
          → m.watcher ≡ w
          → m.applier ≡ p
          → ((t : Bytes) × (apply hash_str msg m.state
                ≡ (record { last_hash = hash_str t }, some t)))
            ⊎ (apply hash_str msg m.state ≡ (m.state, none))
          → Accounts m (charge (arrive msg) m) n
      by_tasks w (marked x) hw hp r = ground arith
      by_tasks w waiting hw hp (inr r) = ground arith
      by_tasks sleeping waiting hw hp (inl (t, r)) = ground (arith, unsent-same t)
      by_tasks (holding x) waiting hw hp (inl (t, r)) =
          ground (arith, unsent-le (hash_str t) (some x), unsent-le (hash_str x) (some t))
      by_tasks (sending x) waiting hw hp (inl (t, r)) = ground (arith, unsent-same t)
      by_tasks ended waiting hw hp (inl (t, r)) = ground arith

  write-Accounts :
      (succeeds : Bool) (m n : Machine)
      → act hash_str (write succeeds) m ≡ some n
      → Accounts m (charge (write succeeds) m) n
  unfolding act
  write-Accounts succeeds m n e = by_applier m.applier succeeds refl refl
    where
      by_applier :
          (p : Applier) (ok : Bool)
          → m.applier ≡ p
          → succeeds ≡ ok
          → Accounts m (charge (write succeeds) m) n
      by_applier waiting ok hp hs = ground arith
      by_applier (marked t) true hp hs = ground arith
      by_applier (marked t) false hp hs =
          ground (arith, pending_of_changed m.watcher m.state.last_hash (some t) m.clipboard)

  pub act-Accounts :
      (a : Action) (m n : Machine) → act hash_str a m ≡ some n → Accounts m (charge a m) n
  act-Accounts (copy t) m n e =
      let same : (record m { clipboard = some t } ≡ n) = unfold act in ground arith in
      ground (arith, copy-Accounts t m)
  act-Accounts read m n e = read-Accounts m n e
  act-Accounts unread m n e = ground (arith, unread-Accounts m n e)
  act-Accounts compare m n e = ground (arith, compare-Accounts m n e)
  act-Accounts (send listening) m n e = ground (arith, send-Accounts listening m n e)
  act-Accounts (arrive msg) m n e = arrive-Accounts msg m n e
  act-Accounts (write succeeds) m n e = write-Accounts succeeds m n e
