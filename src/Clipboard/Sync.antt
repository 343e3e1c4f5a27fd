-- ===== src/Clipboard/Sync.antt =====
-- What is broadcast, what is applied, and that neither causes the other again.
use dshare.Base.{
  ℕ, ◌≡◌, ◌≢◌, ◌↔◌, inl, inr, refl, Bool, true, false, none, some, List, [], ◌∷◌, ap, arith, ◌==◌,
  if◌then◌else◌, codes, Bool-cases,
}
use dshare.Protocol.{Bytes, Message, clipboard_update}
use dshare.Clipboard.Utf8.{well_formed, from_utf8}
use dshare.Clipboard.{
  State, Reading, text, content_not_available, read_failed, text_mime, starts_with, poll, watch,
  apply,
}

module _ (hash_str : Bytes → ℕ) where
  -- From one machine to another: when the watcher has broadcast a text, applying the message
  -- writes that very text there, and the other machine's next reading of it broadcasts nothing.
  poll-apply :
      (t : Bytes) (here there : State) (msg : Message)
      → well_formed t ≡ true
      → (poll hash_str (text t) here).1 ≡ some msg
      → ((apply hash_str msg there).1 ≡ some t)
        × (poll hash_str (text t) (apply hash_str msg there).0
            ≡ ((apply hash_str msg there).0, none))
  unfolding poll apply starts_with from_utf8
  poll-apply t here there msg u e = ground arith

  -- Only a text of a text/* type in UTF-8 is written, as it came; any other message leaves the
  -- clipboard and the state alone.
  pub apply-writes_iff :
      (msg : Message) (s : State) (t : Bytes)
      → ((apply hash_str msg s).1 ≡ some t) ↔ (
          (mime : Bytes) × (msg ≡ clipboard_update mime t)
          × (starts_with (codes "text/") mime ≡ true)
          × (well_formed t ≡ true))
  unfolding apply from_utf8
  apply-writes_iff msg s t = (there msg, λ h. ground arith)
    where
      there :
          (msg : Message)
          → (apply hash_str msg s).1 ≡ some t
          → (mime : Bytes) × (msg ≡ clipboard_update mime t)
            × (starts_with (codes "text/") mime ≡ true)
            × (well_formed t ≡ true)
      there (clipboard_update mime content) e = (mime, ground arith, ground arith, ground arith)
      there _ e = absurd (ground arith)

  -- When the write of an applied text fails, the clipboard still holds its old text, and the next
  -- reading broadcasts that as if it were new, unless the two texts have one hash.
  apply_failed_write_echoes :
      (s : State) (mime t old : Bytes)
      → starts_with (codes "text/") mime ≡ true
      → well_formed t ≡ true
      → hash_str t ≢ hash_str old
      → (poll hash_str (text old) (apply hash_str (clipboard_update mime t) s).0).1
        ≡ some (clipboard_update text_mime old)
  unfolding poll apply from_utf8
  apply_failed_write_echoes s mime t old m u h = ground arith

  -- Each message is an update in plain text whose hash differs from the one before it.
  abbrev pub Alternates : ℕ → List Message → Type 0
  Alternates last [] = Unit {0}
  Alternates last (clipboard_update mime content ∷ msgs) =
      (mime ≡ text_mime) × (last ≢ hash_str content) × Alternates (hash_str content) msgs
  Alternates last (_ ∷ msgs) = ⊥

  watch_silent :
      (t : Bytes) (listening : Bool) (rounds : List (Reading × Bool)) (s : State)
      → (s.last_hash == hash_str t) ≡ true
      → watch hash_str ((text t, listening) ∷ rounds) s ≡ watch hash_str rounds s
  unfolding watch
  watch_silent t listening rounds s e =
      let same : (poll hash_str (text t) s).0 ≡ s = unfold poll in rw e in
      let silent : (poll hash_str (text t) s).1 ≡ none = unfold poll in rw e in
      ground (arith, silent, ap (watch hash_str rounds) same)

  watch_unread :
      (listening : Bool) (rounds : List (Reading × Bool)) (s : State)
      → (watch hash_str ((content_not_available, listening) ∷ rounds) s ≡ watch hash_str rounds s)
        × (watch hash_str ((read_failed, listening) ∷ rounds) s ≡ watch hash_str rounds s)
  unfolding watch poll
  watch_unread listening rounds s = (refl, refl)

  watch_sends :
      (t : Bytes) (listening : Bool) (rounds : List (Reading × Bool)) (s : State)
      → (s.last_hash == hash_str t) ≡ false
      → (watch hash_str ((text t, listening) ∷ rounds) s).1
        ≡ clipboard_update text_mime t
          ∷ (if listening
              then (watch hash_str rounds (record { last_hash = hash_str t })).1
              else [])
  unfolding watch
  watch_sends t listening rounds s e =
      let next : (poll hash_str (text t) s).0 ≡ record { last_hash = hash_str t } =
        unfold poll in rw e in
      let says : (poll hash_str (text t) s).1 ≡ some (clipboard_update text_mime t) =
        unfold poll in rw e in
      ground (arith, says, ap (watch hash_str rounds) next)

  -- Over any rounds the watcher sends only updates, none with the hash of the one before it, and
  -- none first that has the hash of what was last sent or applied.
  pub watch-Alternates :
      (rounds : List (Reading × Bool)) (s : State)
      → Alternates s.last_hash (watch hash_str rounds s).1
  watch-Alternates [] s = unfold watch in tt
  watch-Alternates ((text t, listening) ∷ rounds) s =
      elim (Bool-cases (s.last_hash == hash_str t)) [
        | inl same ↦ rw (watch_silent t listening rounds s same) (watch-Alternates rounds s)
        | inr new ↦ rw (watch_sends t listening rounds s new) (
          refl,
          ground arith,
          still listening _ _ (watch-Alternates rounds (record { last_hash = hash_str t })),
        )
      ]
    where
      still :
          (listening : Bool) (n : ℕ) (msgs : List Message)
          → Alternates n msgs
          → Alternates n (if listening then msgs else [])
      still true n msgs a = a
      still false n msgs a = tt
  watch-Alternates ((content_not_available, listening) ∷ rounds) s =
      rw ((watch_unread listening rounds s).0) (watch-Alternates rounds s)
  watch-Alternates ((read_failed, listening) ∷ rounds) s =
      rw ((watch_unread listening rounds s).1) (watch-Alternates rounds s)
