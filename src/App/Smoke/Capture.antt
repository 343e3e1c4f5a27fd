-- ===== src/App/Smoke/Capture.antt =====
-- `test_capture` comes to its end.
use dshare.Base.{
  ℕ, suc, ◌+◌, ◌*◌, ◌-◌, ◌≤◌, ◌<◌, none, some, List, [], ◌∷◌, ◌++◌, ◌≡◌, refl, ap, ◌∙◌, All, ltb,
  length, arith, Bool-cases, ◌⊎◌, inl, inr,
}
use dshare.App.Smoke.{Received, event, channel_closed, elapsed, observe, test_capture}

-- The earliest time at which the next round can begin: a timeout that elapses takes 500 ms.
abbrev pub after : ℕ → Received → ℕ
after now elapsed = now + 500
after now _ = now

-- The clock never goes back, from `time` on, and tokio's timeout does not come early.
abbrev pub IsClock : (time : ℕ) → List (ℕ × Received) → Type 0
IsClock time [] = Unit {0}
IsClock time ((now, r) ∷ rounds) = (time ≤ now) × IsClock (after now r) rounds

abbrev pub events_in : List (ℕ × Received) → ℕ
events_in [] = 0
events_in ((now, event msg) ∷ rounds) = suc (events_in rounds)
events_in ((now, _) ∷ rounds) = events_in rounds

-- A round that goes on began before the deadline, and the later ones go on too.
observe-lt :
    (deadline count now : ℕ) (r : Received) (rounds : List (ℕ × Received))
    → observe deadline ((now, r) ∷ rounds) count ≡ none
    → now < deadline
unfolding observe
observe-lt deadline count now (event msg) rounds h = ground arith
observe-lt deadline count now channel_closed rounds h = cc
observe-lt deadline count now elapsed rounds h = ground arith

-- Rounds that have not ended the loop.
observe_rounds :
    (deadline time count : ℕ) (rounds : List (ℕ × Received))
    → IsClock time rounds
    → observe deadline rounds count ≡ none
    → 500 * length rounds ≤ 500 * events_in rounds + (deadline - time) + 500
unfolding observe
observe_rounds deadline time count [] c h = omega arith
observe_rounds deadline time count ((now, event msg) ∷ rounds) c h =
    ground (arith, observe_rounds deadline now (count + 1) rounds c.1)
observe_rounds deadline time count ((now, channel_closed) ∷ rounds) c h = cc
observe_rounds deadline time count ((now, elapsed) ∷ []) c h = ground arith
observe_rounds deadline time count ((now, elapsed) ∷ (now', r) ∷ rounds) c h =
    let began = observe-lt deadline count now elapsed ((now', r) ∷ rounds) h in
    let later : observe deadline ((now', r) ∷ rounds) count ≡ none = ground arith in
    let ih = observe_rounds deadline (now + 500) count ((now', r) ∷ rounds) c.1 later in
    let began' = observe-lt deadline count now' r rounds later in omega (arith, c.1.0)

-- A round ends the loop if it would begin at the deadline or later, or sees the channel closed.
abbrev pub EndsLoop : (deadline : ℕ) → ℕ × Received → Type 0
EndsLoop deadline (now, r) = (deadline ≤ now) ⊎ (r ≡ channel_closed)

-- The rounds before the first that ends the loop, and what comes with it.
pub record FirstEnd (deadline : ℕ) (rounds : List (ℕ × Received)) : Type 0 where
  pub before : List (ℕ × Received)
  pub last : ℕ × Received
  pub later : List (ℕ × Received)
  pub split : rounds ≡ before ++ (last ∷ later)
  pub go_on : All (λ round. ¬ EndsLoop deadline round) before
  pub ends : EndsLoop deadline last

EndsLoop-cases :
    (deadline now : ℕ) (r : Received) → EndsLoop deadline (now, r) ⊎ (¬ EndsLoop deadline (now, r))
EndsLoop-cases deadline now channel_closed = inl (inr refl)
EndsLoop-cases deadline now (event msg) = elim (Bool-cases (ltb now deadline)) [
  | inl on ↦ inr (λ h. ground (arith, on))
  | inr off ↦ inl (inl (ground arith))
]
EndsLoop-cases deadline now elapsed = elim (Bool-cases (ltb now deadline)) [
  | inl on ↦ inr (λ h. ground (arith, on))
  | inr off ↦ inl (inl (ground arith))
]

observe-EndsLoop :
    (deadline count now : ℕ) (r : Received) (rounds : List (ℕ × Received))
    → EndsLoop deadline (now, r)
    → observe deadline ((now, r) ∷ rounds) count ≡ some count
unfolding observe
observe-EndsLoop deadline count now (event msg) rounds h = ground arith
observe-EndsLoop deadline count now channel_closed rounds h = refl
observe-EndsLoop deadline count now elapsed rounds h = ground arith

observe_goes_on :
    (deadline count now : ℕ) (r : Received) (rounds : List (ℕ × Received))
    → ¬ EndsLoop deadline (now, r)
    → observe deadline ((now, r) ∷ rounds) count
      ≡ observe deadline rounds (count + events_in ((now, r) ∷ []))
unfolding observe
observe_goes_on deadline count now (event msg) rounds h = elim (Bool-cases (ltb now deadline)) [
  | inl on ↦ rw on refl
  | inr off ↦ absurd (h (inl (ground arith)))
]
observe_goes_on deadline count now channel_closed rounds h = absurd (h (inr refl))
observe_goes_on deadline count now elapsed rounds h = elim (Bool-cases (ltb now deadline)) [
  | inl on ↦ rw on (ap (observe deadline rounds) (omega arith))
  | inr off ↦ absurd (h (inl (ground arith)))
]

events_in-cons :
    (now : ℕ) (r : Received) (rounds : List (ℕ × Received))
    → events_in ((now, r) ∷ rounds) ≡ events_in ((now, r) ∷ []) + events_in rounds
events_in-cons now (event msg) rounds = omega arith
events_in-cons now channel_closed rounds = omega arith
events_in-cons now elapsed rounds = omega arith

-- The loop runs through rounds that do not end it, and comes to its end at the first that does, with
-- as many events as those before it saw.
observe_outcome :
    (deadline count : ℕ) (rounds : List (ℕ × Received))
    → ((observe deadline rounds count ≡ none) × All (λ round. ¬ EndsLoop deadline round) rounds)
      ⊎ ((f : FirstEnd deadline rounds) × (observe deadline rounds count
            ≡ some (count + events_in f.before)))
unfolding observe
observe_outcome deadline count [] = inl (refl, tt)
observe_outcome deadline count ((now, r) ∷ rounds) = elim (EndsLoop-cases deadline now r) [
  | inl h ↦ inr (
    record { before = []; last = (now, r); later = rounds; split = refl; go_on = tt; ends = h },
    observe-EndsLoop deadline count now r rounds h ∙ ap some (omega arith),
  )
  | inr h ↦
      let step = observe_goes_on deadline count now r rounds h in
      elim (observe_outcome deadline (count + events_in ((now, r) ∷ [])) rounds) [
        | inl (runs, go_on) ↦ inl (step ∙ runs, (h, go_on))
        | inr (f, found) ↦ inr (
          record {
            before = (now, r) ∷ f.before;
            last = f.last;
            later = f.later;
            split = ap (λ (t : List (ℕ × Received)). (now, r) ∷ t) f.split;
            go_on = (h, f.go_on);
            ends = f.ends;
          },
          step ∙ found ∙ ap some (omega (arith, events_in-cons now r f.before)),
        )
      ]
]

-- `test_capture` runs up to the first round that would begin at the deadline or later, or that sees
-- the channel closed, and reports as many events as the rounds before that one saw. So long as no
-- round ends it, the rounds that saw no event are at most two for each second that it was told to
-- watch, and one more, if the clock never goes back and no timeout comes early.
pub test_capture_bounded :
    (start seconds : ℕ) (rounds : List (ℕ × Received))
    → IsClock start rounds
    → ((test_capture start seconds rounds ≡ none)
        × All (λ round. ¬ EndsLoop (start + 1000 * seconds) round) rounds
        × (length rounds ≤ events_in rounds + 2 * seconds + 1))
      ⊎ ((f : FirstEnd (start + 1000 * seconds) rounds) × (test_capture start seconds rounds
            ≡ some (events_in f.before)))
unfolding test_capture
test_capture_bounded start seconds rounds c =
    elim (observe_outcome (start + 1000 * seconds) 0 rounds) [
      | inl (h, go_on) ↦
          inl (h, go_on, omega (arith, observe_rounds (start + 1000 * seconds) start 0 rounds c h))
      | inr (f, found) ↦ inr (f, found ∙ ap some (omega arith))
    ]
