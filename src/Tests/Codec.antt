-- ===== src/Tests/Codec.antt =====
-- A serializer that stands in for bincode: it knows some of the messages, and refuses the others.
use dshare.Base.{
  ℕ, zero, suc, Bool, true, false, none, some, [], ◌∷◌, ℤ, pos, negsuc, Result, ok, err, arith,
}
use dshare.Protocol.{
  Bytes, KeyModifiers, Message, hello, hello_ack, leave_screen, key_event, mouse_move, ping, pong,
}
use dshare.Protocol.Codec.{Bincode, IsFaithful}

abbrev of_bool : Bool → ℕ
of_bool false = 0
of_bool true = 1

abbrev to_bool : ℕ → Bool
to_bool zero = false
to_bool (suc n) = true

abbrev of_sign : ℤ → ℕ
of_sign (pos n) = 0
of_sign (negsuc n) = 1

abbrev magnitude : ℤ → ℕ
magnitude (pos n) = n
magnitude (negsuc n) = n

abbrev to_ℤ : ℕ → ℕ → ℤ
to_ℤ zero n = pos n
to_ℤ (suc s) n = negsuc n

abbrev pub no_modifiers : KeyModifiers
no_modifiers = record { shift = false; ctrl = false; alt = false; meta = false }

abbrev pub some_serialize : Message → Result Bytes ℕ
some_serialize leave_screen = ok (0 ∷ [])
some_serialize (ping n) = ok (1 ∷ n ∷ [])
some_serialize (pong n) = ok (2 ∷ n ∷ [])
some_serialize (key_event code pressed m) = ok (
    3
    ∷ code
    ∷ of_bool pressed
    ∷ of_bool m.shift
    ∷ of_bool m.ctrl
    ∷ of_bool m.alt
    ∷ of_bool m.meta
    ∷ [])
some_serialize (hello h) =
    ok (4 ∷ h.protocol_version ∷ h.peer_id ∷ h.screen.width ∷ h.screen.height ∷ h.hostname)
some_serialize (hello_ack true none) = ok (5 ∷ [])
some_serialize (mouse_move dx dy) =
    ok (6 ∷ of_sign dx ∷ magnitude dx ∷ of_sign dy ∷ magnitude dy ∷ [])
some_serialize _ = err 0

abbrev pub some_deserialize : Bytes → Result Message ℕ
some_deserialize (zero ∷ []) = ok leave_screen
some_deserialize (suc zero ∷ n ∷ []) = ok (ping n)
some_deserialize (suc (suc zero) ∷ n ∷ []) = ok (pong n)
some_deserialize (suc (suc (suc zero)) ∷ code ∷ pressed ∷ shift ∷ ctrl ∷ alt ∷ meta ∷ []) = ok (
    key_event code (to_bool pressed) (record {
      shift = to_bool shift;
      ctrl = to_bool ctrl;
      alt = to_bool alt;
      meta = to_bool meta;
    }))
some_deserialize (suc (suc (suc (suc zero))) ∷ version ∷ id ∷ width ∷ height ∷ name) = ok (
    hello (record {
      protocol_version = version;
      peer_id = id;
      hostname = name;
      screen = record { width = width; height = height };
    }))
some_deserialize (suc (suc (suc (suc (suc zero)))) ∷ []) = ok (hello_ack true none)
some_deserialize (suc (suc (suc (suc (suc (suc zero))))) ∷ a ∷ m ∷ b ∷ n ∷ []) =
    ok (mouse_move (to_ℤ a m) (to_ℤ b n))
some_deserialize _ = err 1

abbrev pub some_bincode : Bincode ℕ
some_bincode = record { serialize = some_serialize; deserialize = some_deserialize }

pub some_bincode-IsFaithful : IsFaithful some_bincode
some_bincode-IsFaithful leave_screen payload e = ground arith
some_bincode-IsFaithful (key_event code pressed m) payload e = ground arith
some_bincode-IsFaithful (hello_ack true none) payload e = ground arith
some_bincode-IsFaithful (hello_ack true (some r)) payload e = ground arith
some_bincode-IsFaithful (hello_ack false r) payload e = ground arith
some_bincode-IsFaithful (mouse_move dx dy) payload e = ground arith
some_bincode-IsFaithful _ payload e = ground arith
