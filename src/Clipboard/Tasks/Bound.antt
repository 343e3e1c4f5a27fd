-- ===== src/Clipboard/Tasks/Bound.antt =====
-- How often one machine's watcher sends, however its tasks interleave.
use dshare.Base.{
  ℕ, ◌+◌, ◌*◌, ◌≤◌, ◌≡◌, inl, inr, Option, none, some, List, [], ◌∷◌, arith, length, Option-cases,
}
use dshare.Protocol.{Bytes}
use dshare.Clipboard.Tasks.{Machine, Action, new_machine, act, run}
use dshare.Clipboard.Tasks.Account.{overlap, occasion, Accounts, unsent-le, act-Accounts}

abbrev pub occasions : List Action → ℕ
occasions [] = 0
occasions (a ∷ actions) = occasion a + occasions actions

module _ (hash_str : Bytes → ℕ) where
  unfoldable pub overlaps : List Action → Machine → ℕ
  overlaps [] m = 0
  overlaps (a ∷ actions) m =
      overlap m.watcher m.applier a
      + elim (act hash_str a m) [ none ↦ 0 | some n ↦ overlaps actions n ]

  pub run-Accounts :
      (actions : List Action) (m n : Machine)
      → run hash_str actions m ≡ some n
      → Accounts hash_str m (occasions actions + 2 * overlaps actions m) n
  unfolding run overlaps
  run-Accounts [] m n e = ground arith
  run-Accounts (a ∷ actions) m n e = elim (Option-cases (act hash_str a m)) [
    | inl stuck ↦ absurd (ground arith)
    | inr (k, step) ↦
        let later = run-Accounts actions k n (rw step at e) in
        ground (arith, act-Accounts hash_str a m k step)
  ]

  -- However the watcher, `apply` and the user interleave, and whatever arrives: a new Clipboard sends
  -- at most one message more than there are copies by the user, failed writes of what was applied,
  -- and twice the times that the two tasks are between their locks at once.
  pub sent_bounded :
      (clipboard : Option Bytes) (actions : List Action) (n : Machine)
      → run hash_str actions (new_machine clipboard) ≡ some n
      → length n.sent ≤ 1 + occasions actions + 2 * overlaps actions (new_machine clipboard)
  sent_bounded clipboard actions n e =
      omega
        (arith, run-Accounts actions (new_machine clipboard) n e, unsent-le hash_str 0 clipboard)
