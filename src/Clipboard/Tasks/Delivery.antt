-- ===== src/Clipboard/Tasks/Delivery.antt =====
-- From the clipboard of one machine to that of another.
use dshare.Base.{ℕ, ◌≤◌, ◌≡◌, refl, sym, ◌∙◌, true, some, List, [], ◌∷◌, map, All, arith, length}
use dshare.Protocol.{Bytes, Message}
use dshare.Clipboard.Utf8.{well_formed}
use dshare.Clipboard.Tasks.{sleeping, waiting, Machine, Action, run}
use dshare.Clipboard.Tasks.Account.{pending, unsent-same}
use dshare.Clipboard.Tasks.Bound.{occasions, overlaps, run-Accounts}
use dshare.Clipboard.Tasks.Echo.{IsAtRest, update_of}
use dshare.Clipboard.Tasks.Receiving.{arrivals, IsText, last_of, receives}
use dshare.Clipboard.Tasks.Sending.{IsSender, run-IsSender}

module _ (hash_str : Bytes → ℕ) where
  -- At rest with the text `t`, of which the watcher knows, and nothing sent yet.
  abbrev pub IsSettled : Bytes → Machine → Type 0
  IsSettled t m =
      IsAtRest m × (m.clipboard ≡ some t) × (m.state.last_hash ≡ hash_str t) × (m.sent ≡ [])

  settled-IsSender :
      (t : Bytes) (m : Machine) → well_formed t ≡ true → IsSettled t m → IsSender hash_str t m
  settled-IsSender t m u ((w, p), c, l, s) = record {
    texts = [];
    sends = rw (w, s) refl;
    remembers = l;
    undisturbed = p;
    are_texts = tt;
    has_text = rw c u;
  }

  -- A machine that only receives sends nothing.
  receiver_silent :
      (t : Bytes) (actions : List Action) (m n : Machine)
      → IsSettled t m
      → occasions actions ≡ 0
      → overlaps hash_str actions m ≡ 0
      → run hash_str actions m ≡ some n
      → n.sent ≡ []
  receiver_silent t actions m n ((w, p), c, l, s) o v e =
      let account = run-Accounts hash_str actions m n e in
      let begins : (pending hash_str m ≡ 0) = rw (w, p, c, l) (unsent-same hash_str t) in
      nothing n.sent (ground (arith, account, begins, s))
    where
      nothing : (msgs : List Message) → length msgs ≤ 0 → msgs ≡ []
      nothing [] h = refl
      nothing (x ∷ msgs) h = absurd (omega arith)

  -- Two machines begin at rest with one text, of which both watchers know already, and nothing sent.
  -- If then only the user of the one copies, nothing arrives there, and at the other no
  -- write fails and the tasks are not between their locks at once, then once the watcher has looked
  -- at the last text and all updates have arrived and been written, the clipboard of the other has a
  -- text of the same hash as the one's, and the other has sent nothing back.
  pub copies_arrive :
      (a a' b b' : Machine) (t s : Bytes) (copying receiving : List Action)
      → well_formed t ≡ true
      → IsSettled t a
      → All IsText copying
      → arrivals copying ≡ []
      → run hash_str copying a ≡ some a'
      → a'.watcher ≡ sleeping
      → a'.clipboard ≡ some s
      → a'.state.last_hash ≡ hash_str s
      → IsSettled t b
      → occasions receiving ≡ 0
      → overlaps hash_str receiving b ≡ 0
      → arrivals receiving ≡ a'.sent
      → run hash_str receiving b ≡ some b'
      → b'.applier ≡ waiting
      → (r : Bytes) × (b'.clipboard ≡ some r) × (hash_str r ≡ hash_str s) × (b'.sent ≡ [])
  copies_arrive a a' b b' t s copying receiving u sa texts i ea wa ca la sb o v j eb pb =
      let sender = run-IsSender hash_str copying t a a' texts i (settled-IsSender t a u sa) ea in
      let sent : (a'.sent ≡ map update_of sender.texts) = rw wa at sender.sends in
      let got =
        receives hash_str receiving b b' t sender.texts (rw (sb.0.1, sb.1) refl) o (j ∙ sent)
          sender.are_texts eb in
      (
        last_of t sender.texts,
        rw pb at got,
        sym sender.remembers ∙ la,
        receiver_silent t receiving b b' sb o v eb,
      )
