-- ===== src/App/Server/Peers/Lockout.antt =====
-- A grab while another peer connects: the hooks that are newer decide what the older ones see.
use dshare.Base.{
  ℕ, zero, suc, ◌-◌, ◌<◌, Bool, true, false, not, Option, some, ◌∙◌, List, [], ◌∷◌, ◌++◌, ◌≡◌, refl,
  ◌⊎◌, inl, inr, arith, All, Bool-cases, ltb, ◌==◌, ◌&&◌, if◌then◌else◌, length, ap,
}
use dshare.Input.Windows.Hooks.{HookState, Outcome, swallow}
use dshare.App.Server.Peers.{
  HookChain, IsHookChain, installed, PeerEvent, typed, moved, key_callback, mouse_callback,
  connected, disconnected, without, run_peers,
}
use dshare.App.Server.Peers.Callbacks.{
  HasFlag, IsCallback, IsCalm, key_callback-IsCallback, mouse_callback-IsCallback,
}

-- Through the events, the peer with `newer` peers before it stays connected, and so does one of
-- those at least.
abbrev pub stays_behind : {Sender : Type 0} → (newer : ℕ) → List (PeerEvent Sender) → Bool
stays_behind newer [] = ltb 0 newer
stays_behind newer (typed e ∷ events) = ltb 0 newer && stays_behind newer events
stays_behind newer (moved e ∷ events) = ltb 0 newer && stays_behind newer events
stays_behind newer (connected sender ∷ events) = ltb 0 newer && stays_behind (suc newer) events
stays_behind newer (disconnected i ∷ events) =
    let fewer = stays_behind (newer - 1) events in
    let same = stays_behind newer events in if ltb i newer then fewer else not (i == newer) && same

without-append :
    {A : Type 0} (i : ℕ) (xs ys : List A)
    → i < length xs
    → (without i (xs ++ ys) ≡ without i xs ++ ys) × (suc (length (without i xs)) ≡ length xs)
unfolding without
without-append i [] ys h = absurd (omega arith)
without-append zero (x ∷ xs) ys h = (refl, refl)
without-append (suc i) (x ∷ xs) ys h =
    let (e, l) = without-append i xs ys (omega arith) in (ap (λ t. x ∷ t) e, ap suc l)

without_behind :
    {A : Type 0} (i : ℕ) (xs : List A) (y : A) (ys : List A)
    → length xs < i
    → (rest : List A) × (without i (xs ++ y ∷ ys) ≡ xs ++ y ∷ rest)
unfolding without
without_behind zero xs y ys h = absurd (omega arith)
without_behind (suc i) [] y ys h = (without i ys, refl)
without_behind (suc i) (x ∷ xs) y ys h =
    let (rest, e) = without_behind i xs y ys (omega arith) in (rest, ap (λ t. x ∷ t) e)

All-without : {A : Type 0} (P : A → Type 0) (i : ℕ) (xs : List A) → All P xs → All P (without i xs)
unfolding without
All-without P i [] h = h
All-without P zero (x ∷ xs) h = h.1
All-without P (suc i) (x ∷ xs) h = (h.0, All-without P i xs h.1)

module _ {Sender : Type 0} (chain : HookChain Sender) (documented : IsHookChain chain) where
  -- The hooks of the peer with `sender` are grabbed, behind `n` newer ones.
  abbrev IsLocked : Option Sender → List (HookState Sender) → ℕ → Type 0
  IsLocked sender hooks n =
      (newer : List (HookState Sender)) × (old : HookState Sender) × (older : List
        (HookState Sender))
      × (hooks ≡ newer ++ old ∷ older)
      × (length newer ≡ n)
      × All HasFlag newer
      × (old.grabbed ≡ some true)
      × (old.sender ≡ sender)

  renamed-IsLocked :
      {tx ty : Option Sender} (hooks : List (HookState Sender)) (n : ℕ)
      → tx ≡ ty
      → IsLocked tx hooks n
      → IsLocked ty hooks n
  renamed-IsLocked hooks n same (newer, old, older, e, l, flags, g, s) =
      (newer, old, older, e, l, flags, g, s ∙ same)

  -- An event that is no hotkey, or one with a newer hook to take it, is swallowed.
  chain-IsLocked :
      (proc : HookState Sender → Outcome Sender) (Calm : Type 0) (newer : List (HookState Sender))
      (old : HookState Sender) (older : List (HookState Sender))
      → IsCallback proc Calm
      → All HasFlag newer
      → old.grabbed ≡ some true
      → (0 < length newer) ⊎ Calm
      → let out = chain proc (newer ++ old ∷ older) in
        (out.1 ≡ swallow) × IsLocked old.sender out.0 (length newer)
  chain-IsLocked proc Calm [] old older v flags g (inl l) = absurd (omega arith)
  chain-IsLocked proc Calm [] old older v flags g (inr n) =
      let (s, g', same) = v.controlled old g n in
      rw (documented.swallowed proc old older s)
        (refl, ([], (proc old).state, older, refl, refl, tt, g', same))
  chain-IsLocked proc Calm (hook ∷ newer) old older v ((b, h), flags) g c =
      elim (v.decides hook b h) [
        | inl (s, k) ↦
            rw (documented.swallowed proc hook (newer ++ old ∷ older) s)
              (refl, ((proc hook).state ∷ newer, old, older, refl, refl, (k, flags), g, refl))
        | inr (p, k, n) ↦
            let (s, (newer', old', older', e', l, flags', g', same)) =
              chain-IsLocked proc Calm newer old older v flags g (inr n) in
            rw (documented.passed_on proc hook (newer ++ old ∷ older) p) (
              s,
              (
                (proc hook).state ∷ newer',
                old',
                older',
                ap (λ t. (proc hook).state ∷ t) e',
                ap suc l,
                (k, flags'),
                g',
                same,
              ),
            )
      ]

  run_peers-IsLocked :
      (events : List (PeerEvent Sender)) (newer : List (HookState Sender)) (old : HookState Sender)
      (older : List (HookState Sender))
      → All HasFlag newer
      → old.grabbed ≡ some true
      → stays_behind (length newer) events ≡ true
      → let (after, results) = run_peers chain events (newer ++ old ∷ older) in
        All (λ r. r ≡ swallow) results × (n : ℕ) × (0 < n) × IsLocked old.sender after n
  unfolding run_peers installed without
  run_peers-IsLocked [] newer old older flags g h =
      (tt, length newer, ground arith, (newer, old, older, refl, refl, flags, g, refl))
  run_peers-IsLocked (typed e ∷ events) newer old older flags g h =
      let (s, (newer', old', older', e', l, flags', g', same)) =
        chain-IsLocked (key_callback e) (IsCalm e) newer old older (key_callback-IsCallback e) flags
          g (inl (ground arith)) in
      let (all, n, k, more) =
        run_peers-IsLocked events newer' old' older' flags' g' (ground (arith, l)) in
      ((s, rw e' all), n, k, rw e' (renamed-IsLocked _ n same more))
  run_peers-IsLocked (moved e ∷ events) newer old older flags g h =
      let (s, (newer', old', older', e', l, flags', g', same)) =
        chain-IsLocked (mouse_callback e) (Unit {0}) newer old older (mouse_callback-IsCallback e)
          flags g (inl (ground arith)) in
      let (all, n, k, more) =
        run_peers-IsLocked events newer' old' older' flags' g' (ground (arith, l)) in
      ((s, rw e' all), n, k, rw e' (renamed-IsLocked _ n same more))
  run_peers-IsLocked (connected sender ∷ events) newer old older flags g h =
      run_peers-IsLocked events (installed sender ∷ newer) old older ((false, refl), flags) g
        (ground arith)
  run_peers-IsLocked (disconnected i ∷ events) newer old older flags g h =
      elim (Bool-cases (ltb i (length newer))) [
        | inl b ↦
            let (e, l) = without-append i newer (old ∷ older) (ground arith) in
            rw (run_peers, e)
              (run_peers-IsLocked events (without i newer) old older
                (All-without HasFlag i newer flags) g (ground (arith, l)))
        | inr b ↦
            let (rest, e) = without_behind i newer old older (ground arith) in
            rw (run_peers, e) (run_peers-IsLocked events newer old rest flags g (ground arith))
      ]

  -- While a peer is controlled and peers whose hooks are newer are connected, and Windows calls hooks
  -- as documented, no keyboard or mouse event reaches the local machine and none, the hotkey included,
  -- ends that peer's grab, whatever peers come and go: as long as it stays connected and one that is
  -- newer does. Its hooks then are those with its sender.
  pub newer_peer_locks :
      (events : List (PeerEvent Sender)) (newer : List (HookState Sender)) (old : HookState Sender)
      (older : List (HookState Sender))
      → All HasFlag newer
      → old.grabbed ≡ some true
      → stays_behind (length newer) events ≡ true
      → let (after, results) = run_peers chain events (newer ++ old ∷ older) in
        All (λ r. r ≡ swallow) results
        × (newer' : List (HookState Sender)) × (old' : HookState Sender) × (older' : List
            (HookState Sender))
        × (after ≡ newer' ++ old' ∷ older')
        × (0 < length newer')
        × (old'.grabbed ≡ some true)
        × (old'.sender ≡ old.sender)
  newer_peer_locks events newer old older flags g h =
      let (all, n, l, (newer', old', older', e, k, flags', g', same)) =
        run_peers-IsLocked events newer old older flags g h in
      (all, newer', old', older', e, omega (arith, l, k), g', same)
