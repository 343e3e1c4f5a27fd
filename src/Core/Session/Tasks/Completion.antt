-- ===== src/Core/Session/Tasks/Completion.antt =====
-- No message is stuck: while nothing fails, the tasks can go on until all have been received.
use dshare.Base.{ℕ, zero, suc, ◌<◌, ◌≡◌, inl, inr, refl, sym, ◌∙◌, arith, Star-trans, here, next}
use dshare.Protocol.Codec.{Bincode, IsFaithful}
use dshare.Core.Session.Tasks.{Link, spawned_link, Steps}
use dshare.Core.Session.Tasks.Order.{IsRelayed, spawned-IsRelayed, Step-IsRelayed, Steps-IsRelayed}
use dshare.Core.Session.Tasks.Progress.{IsUp, IsEncodable, left_over, progress}

module _ {E : Type 0} (bincode : Bincode E) (inbound_size : ℕ) where
  module _ (faithful : IsFaithful bincode) (roomy : 0 < inbound_size) where
    relay_all :
        (n : ℕ) (s : Link)
        → left_over s < n
        → IsRelayed bincode inbound_size s
        → IsUp s
        → IsEncodable bincode s.offered
        → (t : Link) × Steps bincode inbound_size s t
          × (t.offered ≡ s.offered)
          × (t.taken ≡ s.offered)
          × IsUp t
    relay_all zero s l v up good = absurd (omega arith)
    relay_all (suc n) s l v up good =
        elim (progress bincode inbound_size faithful roomy s v up good) [
          | inl done ↦ (s, here, refl, done, up)
          | inr (t, (st, up', same, less)) ↦
              let v' = Step-IsRelayed bincode inbound_size faithful st v in
              let (u, r, o, k, x) =
                relay_all n t (omega (arith, less)) v' up' (rw (sym same) at good) in
              (u, Star-trans (next here st) r, o ∙ same, k ∙ same, x)
        ]

    -- From whatever state has been reached, while no send has failed, the read task is in its loop and
    -- somebody receives: the tasks can go on until every message offered so far has been received,
    -- if `inbound` has room for one and the messages can be encoded.
    pub relay_completes :
        (s : Link)
        → Steps bincode inbound_size spawned_link s
        → IsUp s
        → IsEncodable bincode s.offered
        → (t : Link) × Steps bincode inbound_size s t
          × (t.offered ≡ s.offered)
          × (t.taken ≡ s.offered)
          × IsUp t
    relay_completes s r up good =
        let start = spawned-IsRelayed bincode inbound_size in
        relay_all (suc (left_over s)) s (omega arith)
          (Steps-IsRelayed bincode inbound_size faithful start r) up good
