-- ===== src/App/Smoke/Inject.antt =====
-- What `test_inject` has done to the backend when it returns.
use dshare.Base.{
  ℕ, false, List, [], ◌∷◌, ◌++◌, ◌≡◌, ◌⊎◌, inl, inr, refl, ap, ok, err, arith, Result-cases,
}
use dshare.Protocol.{Message}
use dshare.App.Client.{InputInject}
use dshare.App.Client.Delivery.{inject_all}
use dshare.App.Server.Grab.{held_from, is_held}
use dshare.App.Smoke.{canned, handle_each, test_inject}

module _ {Device X : Type 0} (handle : InputInject Device X) where
  -- The backend takes each of the messages without an error, one behind the other.
  abbrev pub AllTaken : List Message → Device → Type 0
  AllTaken [] device = Unit {0}
  AllTaken (msg ∷ msgs) device =
      let (r, device') = handle msg device in (r ≡ ok tt) × AllTaken msgs device'

  -- The first message of a run that fails: those before it are taken.
  pub record FailsAt (msgs : List Message) (device : Device) : Type 0 where
    pub done : List Message
    pub msg : Message
    pub later : List Message
    pub error : X
    pub split : msgs ≡ done ++ (msg ∷ later)
    pub taken : AllTaken done device
    pub fails : (handle msg (inject_all handle device done)).0 ≡ err error

  -- A run of messages ends with all of them taken, or behind the first that fails.
  handle_each_stops :
      (msgs : List Message) (device : Device)
      → ((handle_each handle msgs device ≡ (ok tt, inject_all handle device msgs))
          × AllTaken msgs device)
        ⊎ ((f : FailsAt msgs device) × (handle_each handle msgs device
              ≡ (err f.error, inject_all handle device (f.done ++ (f.msg ∷ [])))))
  unfolding handle_each
  handle_each_stops [] device = inl (refl, tt)
  handle_each_stops (m ∷ msgs) device = elim (Result-cases (handle m device).0) [
    | inr (e, r) ↦ inr (
      record { done = []; msg = m; later = msgs; error = e; split = refl; taken = tt; fails = r },
      rw (r, handle_each),
    )
    | inl (u, r) ↦ elim (handle_each_stops msgs (handle m device).1) [
      | inl (all, taken) ↦ inl (rw (r, handle_each) all, (r, taken))
      | inr (f, stopped) ↦ inr (
        record {
          done = m ∷ f.done;
          msg = f.msg;
          later = f.later;
          error = f.error;
          split = ap (λ (t : List Message). m ∷ t) f.split;
          taken = (r, f.taken);
          fails = f.fails;
        },
        rw (r, handle_each) stopped,
      )
    ]
  ]

-- The canned sequence releases every key that it presses.
canned-releases : (code : ℕ) → is_held code canned ≡ false
unfolding canned held_from
canned-releases code = ground arith

module _ {Device X : Type 0} (handle : InputInject Device X) where
  -- `test_inject` succeeds only if the backend took every message of the canned sequence without an
  -- error, and has then released every key that it pressed; or else it stops at the first message
  -- that fails, those before it taken, with its error, and the backend gets nothing behind it.
  pub test_inject_stops :
      (device : Device)
      → ((test_inject handle device ≡ (ok tt, inject_all handle device canned))
          × AllTaken handle canned device
          × ((code : ℕ) → is_held code canned ≡ false))
        ⊎ ((f : FailsAt handle canned device) × (test_inject handle device
              ≡ (err f.error, inject_all handle device (f.done ++ (f.msg ∷ [])))))
  unfolding test_inject
  test_inject_stops device = elim (handle_each_stops handle canned device) [
    | inl (all, taken) ↦ inl (all, taken, canned-releases)
    | inr stopped ↦ inr stopped
  ]
