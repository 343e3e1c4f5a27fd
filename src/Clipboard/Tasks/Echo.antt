-- ===== src/Clipboard/Tasks/Echo.antt =====
-- Runs of a clipboard's tasks in which they overlap, or a write fails.
use dshare.Base.{ℕ, ◌≡◌, ◌≢◌, true, false, some, List, [], ◌∷◌, ◌++◌, arith}
use dshare.Protocol.{Bytes, Message, clipboard_update}
use dshare.Clipboard.Utf8.{well_formed, from_utf8}
use dshare.Clipboard.{text_mime, starts_with, poll, apply}
use dshare.Clipboard.Tasks.{
  sleeping, waiting, Machine, Action, read, compare, send, arrive, write, act, run,
}

-- Nothing is under way.
abbrev pub IsAtRest : Machine → Type 0
IsAtRest m = (m.watcher ≡ sleeping) × (m.applier ≡ waiting)

abbrev pub update_of : Bytes → Message
update_of t = clipboard_update text_mime t

-- The next round of the watcher sends the text `t`.
abbrev pub round : List Action
round = read ∷ compare ∷ send true ∷ []

-- An update arrives between the watcher's reading and its comparison: the watcher sends the old
-- text, which nobody copied, and in its next round the text that has just arrived.
abbrev pub overlapped : Bytes → List Action
overlapped new = read ∷ arrive (update_of new) ∷ compare ∷ send true ∷ write true ∷ round

-- The text that has arrived is not written: the watcher sends the old one.
abbrev pub unwritten : Bytes → List Action
unwritten new = arrive (update_of new) ∷ write false ∷ round

module _ (hash_str : Bytes → ℕ) where
  overlap_echoes :
      (m : Machine) (old new : Bytes)
      → IsAtRest m
      → m.clipboard ≡ some old
      → m.state.last_hash ≡ hash_str old
      → well_formed new ≡ true
      → hash_str new ≢ hash_str old
      → run hash_str (overlapped new) m
        ≡ some (record m {
          clipboard = some new;
          state = record { last_hash = hash_str new };
          sent = m.sent ++ (update_of old ∷ []) ++ (update_of new ∷ []);
        })
  unfolding run act poll apply from_utf8 starts_with
  overlap_echoes m old new rest c l u h = ground arith

  failed_write_echoes :
      (m : Machine) (old new : Bytes)
      → IsAtRest m
      → m.clipboard ≡ some old
      → well_formed new ≡ true
      → hash_str new ≢ hash_str old
      → run hash_str (unwritten new) m
        ≡ some (record m {
          state = record { last_hash = hash_str old };
          sent = m.sent ++ (update_of old ∷ []);
        })
  unfolding run act poll apply from_utf8 starts_with
  failed_write_echoes m old new rest c u h = ground arith

  -- A machine at rest whose clipboard has a text that was sent or applied can send that text again,
  -- though nobody copies anything: if an update arrives between the watcher's reading and its
  -- comparison, upon which the text that arrived is sent back too, and if the write of an update
  -- fails. The texts are to have different hashes, and the one that arrives is valid UTF-8.
  pub echoes :
      (m : Machine) (old new : Bytes)
      → IsAtRest m
      → m.clipboard ≡ some old
      → m.state.last_hash ≡ hash_str old
      → well_formed new ≡ true
      → hash_str new ≢ hash_str old
      → (run hash_str (overlapped new) m
          ≡ some (record m {
            clipboard = some new;
            state = record { last_hash = hash_str new };
            sent = m.sent ++ (update_of old ∷ []) ++ (update_of new ∷ []);
          }))
        × (run hash_str (unwritten new) m
            ≡ some (record m {
              state = record { last_hash = hash_str old };
              sent = m.sent ++ (update_of old ∷ []);
            }))
  echoes m old new rest c l u h =
      (overlap_echoes m old new rest c l u h, failed_write_echoes m old new rest c u h)
