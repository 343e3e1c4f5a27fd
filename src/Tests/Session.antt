-- ===== src/Tests/Session.antt =====
-- Two sessions at the ends of a connection.
use dshare.Base.{ℕ, ◌≡◌, ◌≢◌, ◌≤◌, refl, true, List, [], ◌∷◌, ◌++◌, err, length, arith, here, next}
use dshare.Protocol.{Message, ping, pong, ProtocolError}
use dshare.Protocol.Codec.{decode, encode, u32_bytes}
use dshare.Core.Session.Tasks.{
  Link, channel_size, receiving, sending, reading, spawned_link, Steps, offer, recv, send, arrive,
}
use dshare.Core.Session.Tasks.Order.{relayed_in_order}
use dshare.Core.Session.Tasks.Progress.{IsUp}
use dshare.Core.Session.Tasks.Completion.{relay_completes}
use dshare.Tests.Codec.{some_bincode, some_bincode-IsFaithful}

-- Two messages have been offered; the first is half way.
abbrev half_way : Link
half_way = record {
  senders = true;
  outbound = pong 1 ∷ [];
  writer = receiving;
  wire = 2 ∷ 1 ∷ 1 ∷ [];
  buffer = 0 ∷ 0 ∷ 0 ∷ [];
  reader = reading;
  inbound = [];
  receiver = true;
  offered = ping 1 ∷ pong 1 ∷ [];
  taken = [];
}

to_half_way : Steps some_bincode 4 spawned_link half_way
unfolding spawned_link encode u32_bytes
to_half_way =
    next
      (next
        (next
          (next
            (next here (
              offer spawned_link (ping 1) refl (λ h. ground arith) (λ h. ground arith)
                (omega arith)))
            (offer (record spawned_link { outbound = ping 1 ∷ []; offered = ping 1 ∷ [] }) (pong 1)
              refl (λ h. ground arith) (λ h. ground arith) (omega arith)))
          (recv (record half_way { outbound = ping 1 ∷ pong 1 ∷ []; wire = []; buffer = [] })
            (ping 1) (pong 1 ∷ []) refl refl))
        (send (record half_way { writer = sending (ping 1); wire = []; buffer = [] }) (ping 1)
          (0 ∷ 0 ∷ 0 ∷ 2 ∷ 1 ∷ 1 ∷ []) refl refl))
      (arrive (record half_way { wire = 0 ∷ 0 ∷ 0 ∷ 2 ∷ 1 ∷ 1 ∷ []; buffer = [] }) (0 ∷ 0 ∷ 0 ∷ [])
        (2 ∷ 1 ∷ 1 ∷ []) refl refl)

relayed_in_order_example :
    ((later : List Message) × (half_way.offered ≡ half_way.taken ++ (half_way.inbound ++ later)))
    × ((e : ProtocolError ℕ)
        → half_way.reader ≡ reading
        → (decode some_bincode half_way.buffer).0 ≢ err e)
    × (length half_way.outbound ≤ channel_size)
    × (length half_way.inbound ≤ 4)
relayed_in_order_example =
    relayed_in_order some_bincode 4 some_bincode-IsFaithful half_way to_half_way

relay_completes_example :
    (t : Link) × Steps some_bincode 4 half_way t
    × (t.offered ≡ ping 1 ∷ pong 1 ∷ [])
    × (t.taken ≡ ping 1 ∷ pong 1 ∷ [])
    × IsUp t
unfolding encode u32_bytes
relay_completes_example =
    relay_completes some_bincode 4 some_bincode-IsFaithful (omega arith) half_way to_half_way
      (record { writing = λ h. ground arith; reading_on = λ h. ground arith; received = refl })
      (refl, (refl, tt))
