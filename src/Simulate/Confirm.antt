-- ===== src/Simulate/Confirm.antt =====
-- packages/shared/src/simulate.ts, `verifySlip`: what a report that is accepted agrees on.
use crash_game.Prelude.{
  ℕ, suc, ◌≡◌, refl, ◌↔◌, String, Bool, true, Option, none, some, List, [], ◌∷◌, ==_iff, eq_iff,
  arith,
}
use mathlib.Core.Path.{subst}
use crash_game.Prelude.Action.{Result, ok, err}
use crash_game.Football.{Score}
use crash_game.Simulate.{Crypto, SimulateConfig, Selection, GoalEvent}
use crash_game.Simulate.Slip.{
  InvalidSlip, LegResult, SlipResult, assert_valid_slip, after_check, resolved, simulate_slip,
}
use crash_game.Simulate.Verify.{
  Reason, bool_eq, score_eq, event_eq, events_eq, option_eq, same_presence, leg_mismatch,
  first_reason, legs_mismatch, mismatch, verify_slip,
}

score_iff : (s t : Score) → (score_eq s t ≡ true) ↔ (s ≡ t)
score_iff s t = ground arith

event_iff : (e f : GoalEvent) → (event_eq e f ≡ true) ↔ (e ≡ f)
event_iff e f = ground arith

events_iff : (es fs : List GoalEvent) → (events_eq es fs ≡ true) ↔ (es ≡ fs)
unfolding events_eq
events_iff [] [] = (λ h. refl, λ h. refl)
events_iff [] (f ∷ fs) = (λ h. ground (arith, h), λ h. ground (arith, h))
events_iff (e ∷ es) [] = (λ h. ground (arith, h), λ h. ground (arith, h))
events_iff (e ∷ es) (f ∷ fs) = ground (arith, events_iff es fs, event_iff e f)

option_iff :
    {A : Type 0} (eq : A → A → Bool)
    → ((a b : A) → (eq a b ≡ true) ↔ (a ≡ b))
    → (o p : Option A) → (option_eq eq o p ≡ true) ↔ (o ≡ p)
option_iff eq h none none = (λ _. refl, λ _. refl)
option_iff eq h none (some b) = ground arith
option_iff eq h (some a) none = ground arith
option_iff eq h (some a) (some b) = ground (arith, h a b)

-- What two results of a leg share when the report is accepted.
abbrev pub SameLeg : LegResult → LegResult → Type 0
SameLeg mine theirs =
    (mine.won ≡ theirs.won)
    × (mine.score ≡ theirs.score)
    × (mine.timeline ≡ theirs.timeline)
    × (mine.half_time_score ≡ theirs.half_time_score)

-- Every recomputed leg is reported; the report may have more.
unfoldable pub CoversLegs : List LegResult → List LegResult → Type 0
CoversLegs [] reported = Unit
CoversLegs (mine ∷ legs) [] = ⊥
CoversLegs (mine ∷ legs) (theirs ∷ reported) = SameLeg mine theirs × CoversLegs legs reported

bool_iff : (a b : Bool) → (bool_eq a b ≡ true) ↔ (a ≡ b)
bool_iff a b = ground arith

presence : (a b : Option Score) → a ≡ b → same_presence a b ≡ true
presence a b h = ground (arith, h)

leg_mismatch-none :
    (i : ℕ) (mine theirs : LegResult) → (leg_mismatch i mine theirs ≡ none) ↔ SameLeg mine theirs
unfolding leg_mismatch
leg_mismatch-none i mine theirs = ground (
  arith,
  bool_iff mine.won theirs.won,
  presence mine.score theirs.score,
  option_iff score_eq score_iff mine.score theirs.score,
  option_iff events_eq events_iff mine.timeline theirs.timeline,
  option_iff score_eq score_iff mine.half_time_score theirs.half_time_score,
)

first_reason-none : (a b : Option Reason) → (first_reason a b ≡ none) ↔ ((a ≡ none) × (b ≡ none))
first_reason-none none b = (λ h. (refl, h), λ h. h.1)
first_reason-none (some r) b = (λ h. ground (arith, h), λ h. ground (arith, h))

legs_mismatch-none :
    (i : ℕ) (legs reported : List LegResult)
    → (legs_mismatch i legs reported ≡ none) ↔ CoversLegs legs reported
unfolding legs_mismatch CoversLegs
legs_mismatch-none i [] reported = (λ h. tt, λ h. refl)
legs_mismatch-none i (mine ∷ legs) [] = (λ h. ground (arith, h), λ h. elim h [ ])
legs_mismatch-none i (mine ∷ legs) (theirs ∷ reported) = (
  λ h.
      let both = (first_reason-none _ _).0 h in
      (
        (leg_mismatch-none i mine theirs).0 both.0,
        (legs_mismatch-none (suc i) legs reported).0 both.1,
      ),
  λ h.
      (first_reason-none _ _).1
        ((leg_mismatch-none i mine theirs).1 h.0, (legs_mismatch-none (suc i) legs reported).1 h.1),
)

-- The report of a slip, against its recomputation.
abbrev pub Confirms : Result InvalidSlip SlipResult → SlipResult → Type 0
Confirms (err e) reported = ⊥
Confirms (ok recomputed) reported =
    (recomputed.slip_won ≡ reported.slip_won)
    × (recomputed.payout_multiplier ≡ reported.payout_multiplier)
    × CoversLegs recomputed.legs reported.legs

mismatch-none :
    (r : Result InvalidSlip SlipResult) (reported : SlipResult)
    → (mismatch r reported ≡ none) ↔ Confirms r reported
unfolding mismatch
mismatch-none (err e) reported = (λ h. ground (arith, h), λ h. elim h [ ])
mismatch-none (ok r) reported = ground (
  arith,
  bool_iff r.slip_won reported.slip_won,
  ==_iff r.payout_multiplier reported.payout_multiplier,
  legs_mismatch-none 0 r.legs reported.legs,
)

-- A report is accepted exactly if the seed is the committed one and the slip can be simulated from
-- it with the same result: the same win or loss, the same payout, and for each leg the same win or
-- loss, score, timeline and half-time score.
pub verify_slip_iff :
    (c : Crypto) (seed : String) (reported : SlipResult) (sels : List Selection)
    (config : SimulateConfig)
    → (verify_slip c seed reported sels config ≡ none) ↔ (
        (c.sha256 seed ≡ reported.commit)
        × Confirms (simulate_slip c seed reported.nonce sels config) reported)
unfolding verify_slip
verify_slip_iff c seed reported sels config =
    let inner = mismatch-none (simulate_slip c seed reported.nonce sels config) reported in
    ground (arith, inner, eq_iff (c.sha256 seed) reported.commit)

covers_self : (legs : List LegResult) → CoversLegs legs legs
unfolding CoversLegs
covers_self [] = tt
covers_self (l ∷ legs) = ((refl, refl, refl, refl), covers_self legs)

after_check-ok :
    (o : Option InvalidSlip) (x r : SlipResult) → after_check o x ≡ ok r → (o ≡ none) × (x ≡ r)
after_check-ok none x r h = (refl, ground (arith, h))
after_check-ok (some e) x r h = ground (arith, h)

-- What `simulateSlip` returns for a slip is accepted by `verifySlip` with the same seed, selections
-- and configuration.
pub simulate_slip-verifies :
    (c : Crypto) (seed nonce : String) (sels : List Selection) (config : SimulateConfig)
    (r : SlipResult)
    → simulate_slip c seed nonce sels config ≡ ok r
    → verify_slip c seed r sels config ≡ none
unfolding simulate_slip resolved
simulate_slip-verifies c seed nonce sels config r h =
    let (passes, same) =
      after_check-ok (assert_valid_slip sels config) (resolved c seed nonce sels config) r h in
    subst (λ s. verify_slip c seed s sels config ≡ none) same
      ((verify_slip_iff c seed (resolved c seed nonce sels config) sels config).1
        (refl, rw passes (refl, refl, covers_self (resolved c seed nonce sels config).legs)))
