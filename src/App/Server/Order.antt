-- ===== src/App/Server/Order.antt =====
-- The order in which the peer gets what the hooks offered.
use mathlib.Core.List.{Sublist, sublist-append_left}
use mathlib.Core.List.Sublist
use mathlib.Core.Path.{subst}
use dshare.Base.{
  ◌≡◌, refl, sym, ap, ◌∙◌, inl, inr, Bool, true, false, Option, none, some, List, [], ◌∷◌, ◌++◌,
  All, arith, Option-cases, Bool-cases, append_assoc, append-nil,
}
use mathlib.Core.Option.{some-injective}
use dshare.Protocol.{Message}
use dshare.Input.Windows.Hooks.{Outcome, is_grabbed, mouse_hook_proc, kbd_hook_proc}
use dshare.App.Server.{
  System, Action, key, mouse, forward, enqueue, hooked, forward_next, step, run,
}
use dshare.App.Server.Grab.{is_toggle, step_grabbed, run-cons}

abbrev pub message_of : {Sender : Type 0} → Option (Sender × Message) → List Message
message_of none = []
message_of (some (tx, msg)) = msg ∷ []

-- The channel takes what is offered.
abbrev pub is_kept : Action → Bool
is_kept (key w vk_code async_key_state kept) = kept
is_kept (mouse w cur_pos mouse_data kept) = kept
is_kept forward = true

module _ {Sender : Type 0} where
  -- The message that an action offers to the channel, as a list, and those of a run.
  unfoldable pub offered : Bool → Action → System Sender → List Message
  offered checks (key w vk_code async_key_state kept) s =
      message_of (kbd_hook_proc true w vk_code async_key_state s.hook).offered
  offered checks (mouse w cur_pos mouse_data kept) s =
      elim (mouse_hook_proc checks true w cur_pos mouse_data s.hook) [
        | none ↦ []
        | some out ↦ message_of out.offered
      ]
  offered checks forward s = []

  unfoldable pub offered_by_run : Bool → List Action → System Sender → List Message
  offered_by_run checks [] s = []
  offered_by_run checks (a ∷ actions) s = elim (step checks a s) [
    | none ↦ offered checks a s
    | some t ↦ offered checks a s ++ offered_by_run checks actions t
  ]

  -- What has been sent, and behind it what waits in the channel.
  abbrev pub on_its_way : System Sender → List Message
  on_its_way s = s.sent ++ s.queue

  enqueue_kept :
      (o : Option (Sender × Message)) (queue : List Message)
      → enqueue true o queue ≡ queue ++ message_of o
  unfolding enqueue
  enqueue_kept none queue = sym (append-nil queue)
  enqueue_kept (some (tx, msg)) queue = refl

  enqueue-sublist :
      (kept : Bool) (o : Option (Sender × Message)) (queue : List Message)
      → Sublist (enqueue kept o queue) (queue ++ message_of o)
  unfolding enqueue
  enqueue-sublist true none queue = rw append-nil (Sublist.refl queue)
  enqueue-sublist true (some (tx, msg)) queue = Sublist.refl (queue ++ (msg ∷ []))
  enqueue-sublist false none queue = rw append-nil (Sublist.refl queue)
  enqueue-sublist false (some (tx, msg)) queue = sublist-append_left queue (msg ∷ [])

  hooked_kept :
      (out : Outcome Sender) (s : System Sender)
      → on_its_way (hooked true out s) ≡ on_its_way s ++ message_of out.offered
  unfolding hooked
  hooked_kept out s =
      ap (λ (q : List Message). s.sent ++ q) (enqueue_kept out.offered s.queue)
      ∙ sym (append_assoc s.sent s.queue (message_of out.offered))

  hooked-sublist :
      (kept : Bool) (out : Outcome Sender) (s : System Sender)
      → Sublist (on_its_way (hooked kept out s)) (on_its_way s ++ message_of out.offered)
  unfolding hooked
  hooked-sublist kept out s =
      rw append_assoc
        (Sublist.append (Sublist.refl s.sent) (enqueue-sublist kept out.offered s.queue))

  forward_kept :
      (queue : List Message) (s : System Sender)
      → s.queue ≡ queue
      → is_grabbed s.hook ≡ true
      → on_its_way (forward_next queue s) ≡ on_its_way s ++ []
  unfolding forward_next
  forward_kept [] s e g = sym (append-nil (on_its_way s))
  forward_kept (msg ∷ rest) s e g =
      ground (arith, append-nil (s.sent ++ s.queue), append_assoc s.sent (msg ∷ []) rest)

  forward-sublist :
      (queue : List Message) (s : System Sender)
      → s.queue ≡ queue
      → Sublist (on_its_way (forward_next queue s)) (on_its_way s ++ [])
  unfolding forward_next
  forward-sublist [] s e = rw append-nil (Sublist.refl (on_its_way s))
  forward-sublist (msg ∷ rest) s e = elim (Bool-cases (is_grabbed s.hook)) [
    | inl g ↦
        subst (λ l. Sublist l (on_its_way s ++ [])) (sym (forward_kept (msg ∷ rest) s e g))
          (Sublist.refl (on_its_way s ++ []))
    | inr g ↦
        rw (g, append-nil, e)
          (Sublist.append (Sublist.refl s.sent) (Sublist.cons msg (Sublist.refl rest)))
  ]

  -- One step loses nothing while the grab is on and the channel takes what is offered.
  step-on_its_way :
      (checks : Bool) (a : Action) (s t : System Sender)
      → is_grabbed s.hook ≡ true
      → is_kept a ≡ true
      → step checks a s ≡ some t
      → on_its_way t ≡ on_its_way s ++ offered checks a s
  unfolding step offered
  step-on_its_way checks (key w vk_code async_key_state kept) s t g k e =
      ground (arith, hooked_kept (kbd_hook_proc true w vk_code async_key_state s.hook) s)
  step-on_its_way checks (mouse w cur_pos mouse_data kept) s t g k e =
      elim (Option-cases (mouse_hook_proc checks true w cur_pos mouse_data s.hook)) [
        | inl n ↦ absurd (ground arith)
        | inr (out, o) ↦ ground (arith, hooked_kept out s)
      ]
  step-on_its_way checks forward s t g k e = ground (arith, forward_kept s.queue s refl g)

  step-sublist :
      (checks : Bool) (a : Action) (s t : System Sender)
      → step checks a s ≡ some t
      → Sublist (on_its_way t) (on_its_way s ++ offered checks a s)
  unfolding step offered
  step-sublist checks (key w vk_code async_key_state kept) s t e =
      subst
        (λ u. Sublist (on_its_way u) (
          on_its_way s ++ message_of (kbd_hook_proc true w vk_code async_key_state s.hook).offered))
        (some-injective _ _ e)
        (hooked-sublist kept (kbd_hook_proc true w vk_code async_key_state s.hook) s)
  step-sublist checks (mouse w cur_pos mouse_data kept) s t e =
      elim (Option-cases (mouse_hook_proc checks true w cur_pos mouse_data s.hook)) [
        | inl n ↦ absurd (ground arith)
        | inr (out, o) ↦
            let same : hooked kept out s ≡ t = ground arith in
            subst
              (λ u.
                Sublist (on_its_way u)
                  (on_its_way s ++ offered checks (mouse w cur_pos mouse_data kept) s))
              same (rw (o, offered) (hooked-sublist kept out s))
      ]
  step-sublist checks forward s t e =
      subst (λ u. Sublist (on_its_way u) (on_its_way s ++ [])) (some-injective _ _ e)
        (forward-sublist s.queue s refl)

  offered_by_run-cons :
      (checks : Bool) (a : Action) (actions : List Action) (s u : System Sender)
      → step checks a s ≡ some u
      → offered_by_run checks (a ∷ actions) s
        ≡ offered checks a s ++ offered_by_run checks actions u
  unfolding offered_by_run
  offered_by_run-cons checks a actions s u e = rw (e, offered_by_run)

  -- Whatever the flag does and the channel drops, the peer gets a part of what the hooks offered,
  -- in the order in which they offered it, and what waits in the channel comes after.
  pub run-sublist :
      (checks : Bool) (actions : List Action) (s t : System Sender)
      → run checks actions s ≡ some t
      → Sublist (on_its_way t) (on_its_way s ++ offered_by_run checks actions s)
  run-sublist checks [] s t e =
      unfold run offered_by_run in
      subst (λ u. Sublist (on_its_way u) (on_its_way s ++ [])) (some-injective _ _ e)
        (rw append-nil (Sublist.refl (on_its_way s)))
  run-sublist checks (a ∷ actions) s t e =
      let (u, first, rest) = run-cons checks a actions s t e in
      rw (offered_by_run-cons checks a actions s u first, ← append_assoc)
        (Sublist.trans (run-sublist checks actions u t rest) (
          Sublist.append (step-sublist checks a s u first)
            (Sublist.refl (offered_by_run checks actions u))))

  -- While the grab stays on and the channel takes everything, nothing is lost, reordered or made
  -- up: what has been sent and what waits in the channel is all that was there and was offered.
  pub run_grabbed :
      (checks : Bool) (actions : List Action) (s t : System Sender)
      → is_grabbed s.hook ≡ true
      → All (λ a. (is_toggle a ≡ false) × (is_kept a ≡ true)) actions
      → run checks actions s ≡ some t
      → on_its_way t ≡ on_its_way s ++ offered_by_run checks actions s
  run_grabbed checks [] s t g h e =
      unfold run offered_by_run in ground (arith, append-nil (on_its_way s))
  run_grabbed checks (a ∷ actions) s t g h e =
      let (u, first, rest) = run-cons checks a actions s t e in
      let same = step_grabbed checks a s u h.0.0 first in
      rw
        (
          offered_by_run-cons checks a actions s u first,
          ← append_assoc,
          ← step-on_its_way checks a s u g h.0.1 first,
        )
        (run_grabbed checks actions u t (ground arith) h.1 rest)
