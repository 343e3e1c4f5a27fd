-- ===== src/Tests/Clipboard.antt =====
-- Clipboard texts.
use dshare.Base.{
  ℕ, ◌+◌, ◌*◌, ◌≤◌, List, ◌≡◌, ◌↔◌, refl, true, false, none, some, [], ◌∷◌, length, arith, codes,
}
use dshare.Protocol.{Bytes, clipboard_update}
use dshare.Clipboard.Utf8.{well_formed, from_utf8}
use dshare.Clipboard.{default_state, text, read_failed, starts_with, poll, watch, apply}
use dshare.Clipboard.Sync.{apply-writes_iff, Alternates, watch-Alternates}
use dshare.Clipboard.Tasks.{
  Machine, Action, holding, waiting, copy, read, compare, arrive, write, new_machine, act, run,
}
use dshare.Clipboard.Tasks.Bound.{occasions, overlaps, sent_bounded}
use dshare.Clipboard.Tasks.Delivery.{copies_arrive}
use dshare.Clipboard.Tasks.Echo.{round, overlapped, unwritten, update_of, echoes}

-- Two characters of two and four bytes; a surrogate and an overlong form.
euro_like : well_formed (0xC3 ∷ 0xA9 ∷ 0xF0 ∷ 0x9F ∷ 0x98 ∷ 0x80 ∷ []) ≡ true
unfolding well_formed
euro_like = refl

surrogate : well_formed (0xED ∷ 0xA0 ∷ 0x80 ∷ []) ≡ false
unfolding well_formed
surrogate = refl

overlong : well_formed (0xC0 ∷ 0x80 ∷ []) ≡ false
unfolding well_formed
overlong = refl

abbrev hi : Bytes
hi = codes "hi"

apply-writes_iff_example :
    ((apply length (clipboard_update (codes "image/png") hi) default_state).1 ≡ some hi) ↔ (
      (mime : Bytes) × (clipboard_update (codes "image/png") hi ≡ clipboard_update mime hi)
      × (starts_with (codes "text/") mime ≡ true)
      × (well_formed hi ≡ true))
apply-writes_iff_example =
    apply-writes_iff length (clipboard_update (codes "image/png") hi) default_state hi

watch-Alternates_example :
    Alternates length 0
      (watch length ((text hi, true) ∷ (read_failed, true) ∷ (text hi, true) ∷ []) default_state).1
watch-Alternates_example =
    watch-Alternates length ((text hi, true) ∷ (read_failed, true) ∷ (text hi, true) ∷ [])
      default_state

-- A machine that has sent "old".
abbrev settled : Machine
settled = record (new_machine (some (codes "old"))) { state = record { last_hash = 3 } }

echoes_example :
    (run length (overlapped hi) settled
      ≡ some (record settled {
        clipboard = some hi;
        state = record { last_hash = 2 };
        sent = update_of (codes "old") ∷ update_of hi ∷ [];
      }))
    × (run length (unwritten hi) settled
        ≡ some (record settled { sent = update_of (codes "old") ∷ [] }))
unfolding well_formed
echoes_example = echoes length settled (codes "old") hi (refl, refl) refl refl refl (omega arith)

-- Afterwards the watchers look again.
abbrev looking : List Action
looking = read ∷ compare ∷ read ∷ []

abbrev crossed_to : Bytes → ℕ → Bytes → Machine
crossed_to shown hash own = record {
  clipboard = some shown;
  state = record { last_hash = hash };
  watcher = holding shown;
  applier = waiting;
  sent = update_of own ∷ [];
}

-- A copy whose reading overlaps with an update that arrives: two messages, of four allowed.
abbrev busy : List Action
busy = copy (codes "old") ∷ overlapped hi

abbrev after_busy : Machine
after_busy = record (new_machine none) {
  clipboard = some hi;
  state = record { last_hash = 2 };
  sent = update_of (codes "old") ∷ update_of hi ∷ [];
}

sent_bounded_example : 2 ≤ 1 + occasions busy + 2 * overlaps length busy (new_machine none)
unfolding run act poll apply well_formed starts_with from_utf8
sent_bounded_example = sent_bounded length none busy after_busy refl

allows_four : 1 + occasions busy + 2 * overlaps length busy (new_machine none) ≡ 4
unfolding overlaps act poll apply well_formed starts_with from_utf8
allows_four = refl

-- "hi" is copied and sent, and at the other machine applied and looked at.
abbrev copying : List Action
copying = copy hi ∷ round

abbrev receiving : List Action
receiving = arrive (update_of hi) ∷ write true ∷ read ∷ compare ∷ []

abbrev copied : Machine
copied = record settled {
  clipboard = some hi;
  state = record { last_hash = 2 };
  sent = update_of hi ∷ [];
}

abbrev received : Machine
received = record settled { clipboard = some hi; state = record { last_hash = 2 } }

copies_arrive_example :
    (r : Bytes) × (received.clipboard ≡ some r) × (length r ≡ length hi) × (received.sent ≡ [])
unfolding run act poll apply well_formed starts_with from_utf8 overlaps
copies_arrive_example =
    copies_arrive length settled copied settled received (codes "old") hi copying receiving refl
      ((refl, refl), refl, refl, refl) (refl, (tt, (tt, (tt, tt)))) refl refl refl refl refl
      ((refl, refl), refl, refl, refl) refl refl refl refl refl
