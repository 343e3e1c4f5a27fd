-- ===== src/App/Server/Merge.antt =====
-- The order in which `select!` takes from its two streams, the captured messages and the peer's
-- frames, which is up to the runtime.
use dshare.Base.{Bool, true, false, List, [], ◌∷◌, ◌++◌, ◌≡◌, refl, ap, All, arith, ok, err}
use dshare.Protocol.{Message}
use dshare.App.Server.{ServerEvent, captured, capture_ended, inbound, peer_closed, capture_loop}

-- Every way to put two lists together that keeps the order of each.
pub data Merge {ℓ} {A : Type ℓ} : List A → List A → List A → Type ℓ where
  neither : Merge [] [] []
  from_left : {x : A} {xs ys zs : List A} → Merge xs ys zs → Merge (x ∷ xs) ys (x ∷ zs)
  from_right : {y : A} {xs ys zs : List A} → Merge xs ys zs → Merge xs (y ∷ ys) (y ∷ zs)

-- What `source.next()` gives, and what it gives of a peer that sends well-formed frames and stays.
abbrev pub is_inbound : {E : Type 0} → ServerEvent E → Bool
is_inbound (inbound f) = true
is_inbound peer_closed = true
is_inbound _ = false

abbrev pub is_message : {E : Type 0} → ServerEvent E → Bool
is_message (inbound (ok m)) = true
is_message _ = false

module _ {E : Type 0} where
  -- The peer's frames decide only how long the server goes on: whatever they are and whenever they
  -- come, what is sent is an initial part of what would be sent without them.
  pub capture_loop-Merge :
      {cs ys zs : List (ServerEvent E)}
      → Merge cs ys zs
      → All (λ y. is_inbound y ≡ true) ys
      → (rest : List Message) × (capture_loop zs ++ rest ≡ capture_loop cs)
  unfolding capture_loop
  capture_loop-Merge neither h = ([], refl)
  capture_loop-Merge (from_left {x = captured msg true (ok u)} m) h =
      let (rest, e) = capture_loop-Merge m h in (rest, ap (λ (t : List Message). msg ∷ t) e)
  capture_loop-Merge (from_left {x = captured msg true (err e)} m) h = ([], refl)
  capture_loop-Merge (from_left {x = captured msg false sent} m) h = capture_loop-Merge m h
  capture_loop-Merge (from_left {x = capture_ended} m) h = ([], refl)
  capture_loop-Merge (from_left {x = inbound (ok i)} m) h = capture_loop-Merge m h
  capture_loop-Merge (from_left {x = inbound (err e)} m) h = ([], refl)
  capture_loop-Merge (from_left {x = peer_closed} m) h = ([], refl)
  capture_loop-Merge (from_right {y = inbound (ok i)} m) h = capture_loop-Merge m h.1
  capture_loop-Merge {cs} (from_right {y = inbound (err e)} m) h = (capture_loop cs, refl)
  capture_loop-Merge {cs} (from_right {y = peer_closed} m) h = (capture_loop cs, refl)
  capture_loop-Merge (from_right {y = captured msg g sent} m) h = absurd (ground arith)
  capture_loop-Merge (from_right {y = capture_ended} m) h = absurd (ground arith)

  -- Well-formed frames change nothing at all.
  capture_loop-Merge_messages :
      {cs ys zs : List (ServerEvent E)}
      → Merge cs ys zs
      → All (λ y. is_message y ≡ true) ys
      → capture_loop zs ≡ capture_loop cs
  unfolding capture_loop
  capture_loop-Merge_messages neither h = refl
  capture_loop-Merge_messages (from_left {x = captured msg true (ok u)} m) h =
      ap (λ (t : List Message). msg ∷ t) (capture_loop-Merge_messages m h)
  capture_loop-Merge_messages (from_left {x = captured msg true (err e)} m) h = refl
  capture_loop-Merge_messages (from_left {x = captured msg false sent} m) h =
      capture_loop-Merge_messages m h
  capture_loop-Merge_messages (from_left {x = capture_ended} m) h = refl
  capture_loop-Merge_messages (from_left {x = inbound (ok i)} m) h = capture_loop-Merge_messages m h
  capture_loop-Merge_messages (from_left {x = inbound (err e)} m) h = refl
  capture_loop-Merge_messages (from_left {x = peer_closed} m) h = refl
  capture_loop-Merge_messages (from_right {y = inbound (ok i)} m) h =
      capture_loop-Merge_messages m h.1
  capture_loop-Merge_messages (from_right {y = inbound (err e)} m) h = absurd (ground arith)
  capture_loop-Merge_messages (from_right {y = peer_closed} m) h = absurd (ground arith)
  capture_loop-Merge_messages (from_right {y = captured msg g sent} m) h = absurd (ground arith)
  capture_loop-Merge_messages (from_right {y = capture_ended} m) h = absurd (ground arith)
