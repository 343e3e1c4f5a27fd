-- ===== src/Clipboard/Tasks/Receiving.antt =====
-- What a machine receives.
use dshare.Base.{
  ℕ, ◌≡◌, refl, ◌∙◌, inl, inr, true, some, List, [], ◌∷◌, ◌++◌, map, All, arith, Option-cases,
}
use dshare.Protocol.{Bytes, Message}
use dshare.Clipboard.Utf8.{well_formed, from_utf8}
use dshare.Clipboard.{State, starts_with, poll, apply}
use dshare.Clipboard.Tasks.{
  Machine, Action, copy, read, unread, compare, send, arrive, write, act, run,
}
use dshare.Clipboard.Tasks.Account.{latest, occasion}
use dshare.Clipboard.Tasks.Bound.{occasions}
use dshare.Clipboard.Tasks.Echo.{update_of}

-- The updates that arrive in a run, and the texts that are copied.
abbrev pub arrivals : List Action → List Message
arrivals [] = []
arrivals (arrive msg ∷ actions) = msg ∷ arrivals actions
arrivals (_ ∷ actions) = arrivals actions

-- What is copied is UTF-8, as every text of the clipboard.
abbrev pub IsText : Action → Type 0
IsText (copy t) = well_formed t ≡ true
IsText _ = Unit {0}

-- The last of some texts, behind `t`.
abbrev pub last_of : Bytes → List Bytes → Bytes
last_of t [] = t
last_of t (s ∷ texts) = last_of s texts

pub last_of-append : (t s : Bytes) (texts : List Bytes) → last_of t (texts ++ (s ∷ [])) ≡ s
last_of-append t s [] = refl
last_of-append t s (u ∷ texts) = last_of-append u s texts

module _ (hash_str : Bytes → ℕ) where
  receive_text :
      (t : Bytes) (s : State)
      → well_formed t ≡ true
      → apply hash_str (update_of t) s ≡ (record { last_hash = hash_str t }, some t)
  unfolding apply from_utf8 starts_with
  receive_text t s u = ground arith

  pub run-cons :
      (a : Action) (actions : List Action) (m n : Machine)
      → run hash_str (a ∷ actions) m ≡ some n
      → (k : Machine) × (act hash_str a m ≡ some k) × (run hash_str actions k ≡ some n)
  unfolding run
  run-cons a actions m n e = elim (Option-cases (act hash_str a m)) [
    | inl stuck ↦ absurd (ground arith)
    | inr (k, step) ↦ (k, step, rw (step, run) at e)
  ]

  -- An action that neither copies nor fails to write nor begins `apply` leaves the latest text.
  keeps_latest :
      (a : Action) (m k : Machine)
      → act hash_str a m ≡ some k
      → occasion a ≡ 0
      → arrivals (a ∷ []) ≡ []
      → latest k.applier k.clipboard ≡ latest m.applier m.clipboard
  unfolding act poll
  keeps_latest (copy t) m k e o i = absurd (omega arith)
  keeps_latest read m k e o i = ground arith
  keeps_latest unread m k e o i = ground arith
  keeps_latest compare m k e o i = ground arith
  keeps_latest (send listening) m k e o i = ground arith
  keeps_latest (arrive msg) m k e o i = absurd (ground arith)
  keeps_latest (write succeeds) m k e o i = ground arith

  receives_update :
      (t : Bytes) (m k : Machine)
      → act hash_str (arrive (update_of t)) m ≡ some k
      → well_formed t ≡ true
      → latest k.applier k.clipboard ≡ some t
  unfolding act
  receives_update t m k e u = ground (arith, receive_text t m.state u)

  -- Where only updates with texts arrive, nothing is copied and every write succeeds, the clipboard
  -- has, or gets when `apply` goes on, the last text that has arrived.
  pub receives :
      (actions : List Action) (m n : Machine) (t : Bytes) (texts : List Bytes)
      → latest m.applier m.clipboard ≡ some t
      → occasions actions ≡ 0
      → arrivals actions ≡ map update_of texts
      → All (λ x. well_formed x ≡ true) texts
      → run hash_str actions m ≡ some n
      → latest n.applier n.clipboard ≡ some (last_of t texts)
  unfolding run
  receives [] m n t [] l o a u e = ground (arith, l)
  receives [] m n t (x ∷ texts) l o a u e = absurd (ground arith)
  receives (arrive msg ∷ actions) m n t [] l o i u e = absurd (ground arith)
  receives (arrive msg ∷ actions) m n t (x ∷ texts) l o i (v, u) e =
      let (k, step, rest) = run-cons (arrive msg) actions m n e in
      let arrived : (act hash_str (arrive (update_of x)) m ≡ some k) = ground (arith, i, step) in
      receives actions k n x texts (receives_update x m k arrived v) (ground (arith, o))
        (ground (arith, i)) u rest
  receives (a ∷ actions) m n t texts l o i u e =
      let (k, step, rest) = run-cons a actions m n e in
      receives actions k n t texts (keeps_latest a m k step (omega (arith, o)) refl ∙ l)
        (omega (arith, o)) i u rest
