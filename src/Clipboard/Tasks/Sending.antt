-- ===== src/Clipboard/Tasks/Sending.antt =====
-- What a machine sends to which nothing comes.
use mathlib.Core.Path.{subst}
use mathlib.Core.List.{map-append}
use dshare.Base.{
  ℕ, ◌≡◌, refl, sym, ap, inl, inr, Bool, true, false, Option, none, some, List, [], ◌∷◌, ◌++◌, map,
  All, All-append, arith, Bool-cases, ◌==◌,
}
use dshare.Protocol.{Bytes, Message}
use dshare.Clipboard.Utf8.{well_formed}
use dshare.Clipboard.{poll}
use dshare.Clipboard.Tasks.{
  Watcher, sleeping, holding, sending, ended, waiting, Machine, Action, copy, read, unread, compare,
  send, arrive, write, act, run,
}
use dshare.Clipboard.Tasks.Echo.{update_of}
use dshare.Clipboard.Tasks.Receiving.{arrivals, IsText, last_of, last_of-append, run-cons}

module _ (hash_str : Bytes → ℕ) where
  -- What the watcher has sent, and is about to send, are updates with these texts.
  abbrev pub SendsTexts : Watcher → List Message → List Bytes → Type 0
  SendsTexts sleeping sent texts = sent ≡ map update_of texts
  SendsTexts (holding x) sent texts = (sent ≡ map update_of texts) × (well_formed x ≡ true)
  SendsTexts (sending msg) sent texts = sent ++ (msg ∷ []) ≡ map update_of texts
  SendsTexts ended sent texts = Unit {0}

  abbrev pub IsTextual : Option Bytes → Type 0
  IsTextual none = Unit {0}
  IsTextual (some t) = well_formed t ≡ true

  -- A machine to which nothing comes, since it had the text `t`.
  pub record IsSender (t : Bytes) (m : Machine) : Type 0 where
    pub texts : List Bytes
    pub sends : SendsTexts m.watcher m.sent texts
    pub remembers : m.state.last_hash ≡ hash_str (last_of t texts)
    pub undisturbed : m.applier ≡ waiting
    pub are_texts : All (λ x. well_formed x ≡ true) texts
    pub has_text : IsTextual m.clipboard

  module _ (t : Bytes) (m : Machine) (v : IsSender t m) where
    -- The fields but the watcher and what it has sent stay.
    goes_on :
        (w : Watcher) (sent : List Message)
        → SendsTexts w sent v.texts
        → IsSender t (record m { watcher = w; sent = sent })
    goes_on w sent sends = record {
      texts = v.texts;
      sends = sends;
      remembers = v.remembers;
      undisturbed = v.undisturbed;
      are_texts = v.are_texts;
      has_text = v.has_text;
    }

    copy-IsSender :
        (x : Bytes) → well_formed x ≡ true → IsSender t (record m { clipboard = some x })
    copy-IsSender x u = record {
      texts = v.texts;
      sends = v.sends;
      remembers = v.remembers;
      undisturbed = v.undisturbed;
      are_texts = v.are_texts;
      has_text = u;
    }

    read-IsSender : (k : Machine) → act hash_str read m ≡ some k → IsSender t k
    unfolding act
    read-IsSender k e = by_watcher m.watcher m.clipboard refl refl
      where
        by_watcher :
            (w : Watcher) (c : Option Bytes) → m.watcher ≡ w → m.clipboard ≡ c → IsSender t k
        by_watcher sleeping none hw hc = subst (IsSender t) (ground (arith, e)) v
        by_watcher sleeping (some x) hw hc =
            subst (IsSender t) {x = record m { watcher = holding x }} (ground (arith, e))
              (goes_on (holding x) m.sent (rw hw at v.sends, rw hc at v.has_text))
        by_watcher w c hw hc = absurd (ground (arith, e))

    compare-IsSender : (k : Machine) → act hash_str compare m ≡ some k → IsSender t k
    unfolding act poll
    compare-IsSender k e = by_watcher m.watcher refl
      where
        by_watcher : (w : Watcher) → m.watcher ≡ w → IsSender t k
        by_watcher (holding x) hw =
            let (sends, u) : SendsTexts (holding x) m.sent v.texts = rw hw at v.sends in
            elim (Bool-cases (m.state.last_hash == hash_str x)) [
              | inl same ↦
                  subst (IsSender t) {x = record m { watcher = sleeping }} (ground (arith, e))
                    (goes_on sleeping m.sent sends)
              | inr new ↦
                  subst (IsSender t)
                    {x = record m {
                      watcher = sending (update_of x);
                      state = record { last_hash = hash_str x };
                    }}
                    (ground (arith, e))
                    (record {
                      texts = v.texts ++ (x ∷ []);
                      sends = rw (map-append update_of v.texts (x ∷ []), sends) refl;
                      remembers = ap hash_str (sym (last_of-append t x v.texts));
                      undisturbed = v.undisturbed;
                      are_texts = All-append _ v.texts (x ∷ []) v.are_texts (u, tt);
                      has_text = v.has_text;
                    })
            ]
        by_watcher w hw = absurd (ground (arith, e))

    send-IsSender :
        (listening : Bool) (k : Machine) → act hash_str (send listening) m ≡ some k → IsSender t k
    unfolding act
    send-IsSender listening k e = by_watcher m.watcher listening refl refl
      where
        by_watcher : (w : Watcher) (l : Bool) → m.watcher ≡ w → listening ≡ l → IsSender t k
        by_watcher (sending msg) true hw hl =
            subst (IsSender t) {x = record m { watcher = sleeping; sent = m.sent ++ (msg ∷ []) }}
              (ground (arith, e)) (goes_on sleeping (m.sent ++ (msg ∷ [])) (rw hw at v.sends))
        by_watcher (sending msg) false hw hl =
            subst (IsSender t) {x = record m { watcher = ended }} (ground (arith, e))
              (goes_on ended m.sent tt)
        by_watcher w l hw hl = absurd (ground (arith, e))

  -- Every action but an arrival keeps a sender one.
  act-IsSender :
      (a : Action) (t : Bytes) (m k : Machine)
      → IsText a
      → arrivals (a ∷ []) ≡ []
      → IsSender t m
      → act hash_str a m ≡ some k
      → IsSender t k
  act-IsSender (copy x) t m k u i v e =
      let same : (record m { clipboard = some x } ≡ k) = unfold act in ground (arith, e) in
      subst (IsSender t) same (copy-IsSender t m v x u)
  act-IsSender read t m k u i v e = read-IsSender t m v k e
  act-IsSender unread t m k u i v e =
      let same : (m ≡ k) = unfold act in ground (arith, e) in subst (IsSender t) same v
  act-IsSender compare t m k u i v e = compare-IsSender t m v k e
  act-IsSender (send listening) t m k u i v e = send-IsSender t m v listening k e
  act-IsSender (arrive msg) t m k u i v e = absurd (ground arith)
  act-IsSender (write succeeds) t m k u i v e =
      let idle = v.undisturbed in absurd (unfold act in ground (arith, e, idle))

  pub run-IsSender :
      (actions : List Action) (t : Bytes) (m n : Machine)
      → All IsText actions
      → arrivals actions ≡ []
      → IsSender t m
      → run hash_str actions m ≡ some n
      → IsSender t n
  run-IsSender [] t m n u i v e =
      let same : (m ≡ n) = unfold run in ground (arith, e) in subst (IsSender t) same v
  run-IsSender (arrive msg ∷ actions) t m n u i v e = absurd (ground arith)
  run-IsSender (a ∷ actions) t m n u i v e =
      let (k, step, rest) = run-cons hash_str a actions m n e in
      run-IsSender actions t k n u.1 i (act-IsSender a t m k u.0 refl v step) rest
