-- ===== src/Simulate/Valid.antt =====
-- packages/shared/src/simulate.ts, `assertValidSlip`: which slips pass.
use crash_game.Prelude.{
  ◌<◌, ◌≤◌, ◌≡◌, ◌≢◌, ◌↔◌, refl, inl, inr, Bool-cases, String, false, Option, none, some, List, [],
  ◌∷◌, length, any, leb, str_eq, eq_iff, if◌then◌else◌, arith,
}
use crash_game.Simulate.{SimulateConfig, Selection}
use crash_game.Simulate.Slip.{
  InvalidSlip, missing_event, missing_pick, odds_too_low, duplicate_event, bad_selection,
  duplicate_on, first_error, assert_valid_slip,
}

-- What the validation promises: every leg has an event, a pick and odds above 1, and an event that
-- is not among those given, nor on another leg.
unfoldable pub IsSlip : List String → List Selection → Type 0
IsSlip seen [] = Unit
IsSlip seen (s ∷ sels) =
    s.event_id ≢ ""
    × s.pick ≢ ""
    × 100 < s.odds
    × (any (str_eq s.event_id) seen ≡ false)
    × IsSlip (s.event_id ∷ seen) sels

-- The tests of one selection, when none fails.
passed :
    (s : Selection) (rest : Option InvalidSlip)
    → (if str_eq s.event_id ""
        then some missing_event
        else (if str_eq s.pick ""
            then some missing_pick
            else (if leb s.odds 100 then some (odds_too_low s.odds s.event_id) else rest)))
      ≡ none
    → s.event_id ≢ "" × s.pick ≢ "" × 100 < s.odds × (rest ≡ none)
passed s rest h = (
  ground (arith, h, eq_iff s.event_id ""),
  ground (arith, h, eq_iff s.pick ""),
  ground (arith, h),
  ground (arith, h),
)

fresh :
    (seen : List String) (s : Selection) (rest : Option InvalidSlip)
    → (if any (str_eq s.event_id) seen then some (duplicate_event s.event_id) else rest) ≡ none
    → (any (str_eq s.event_id) seen ≡ false) × (rest ≡ none)
fresh seen s rest h = elim (Bool-cases (any (str_eq s.event_id) seen)) [
  | inl again ↦ ground (arith, h, again)
  | inr new ↦ ground (arith, h, new)
]

checks-IsSlip :
    (seen : List String) (sels : List Selection)
    → bad_selection sels ≡ none
    → duplicate_on seen sels ≡ none
    → IsSlip seen sels
unfolding IsSlip bad_selection duplicate_on
checks-IsSlip seen [] hb hd = tt
checks-IsSlip seen (s ∷ sels) hb hd =
    let (event, pick, odds, good) = passed s (bad_selection sels) hb in
    let (new, apart) = fresh seen s (duplicate_on (s.event_id ∷ seen) sels) hd in
    (event, pick, odds, new, checks-IsSlip (s.event_id ∷ seen) sels good apart)

IsSlip-checks :
    (seen : List String) (sels : List Selection)
    → IsSlip seen sels
    → (bad_selection sels ≡ none) × (duplicate_on seen sels ≡ none)
unfolding IsSlip bad_selection duplicate_on
IsSlip-checks seen [] h = (refl, refl)
IsSlip-checks seen (s ∷ sels) h =
    let (event, pick, odds, new, rest) = h in
    let (good, apart) = IsSlip-checks (s.event_id ∷ seen) sels rest in
    (ground (arith, event, pick, odds, good, eq_iff s.event_id "", eq_iff s.pick ""), rw new apart)

-- A configuration and a number of legs that are in bounds.
abbrev pub InBounds : List Selection → SimulateConfig → Type 0
InBounds sels config =
    1 ≤ config.rtp × config.rtp ≤ 1000000 × 1 ≤ length sels × length sels ≤ config.max_legs

first_error-none : (a b : Option InvalidSlip) → (first_error a b ≡ none) ↔ ((a ≡ none) × (b ≡ none))
first_error-none none b = (λ h. (refl, h), λ h. h.1)
first_error-none (some e) b = (λ h. ground (arith, h), λ h. ground (arith, h))

-- A slip passes exactly if the RTP is above 0 and at most 1, it has at least one leg and not more
-- than the limit, and every leg has an event of its own, a pick and odds above 1.
pub assert_valid_slip_iff :
    (sels : List Selection) (config : SimulateConfig)
    → (assert_valid_slip sels config ≡ none) ↔ (InBounds sels config × IsSlip [] sels)
unfolding assert_valid_slip
assert_valid_slip_iff sels config = (
  λ h.
      let both = (first_error-none bad twice).0 (ground (arith, h)) in
      (
        (ground (arith, h), ground (arith, h), ground (arith, h), ground (arith, h)),
        checks-IsSlip [] sels both.0 both.1,
      ),
  λ h.
      let (low, high, some_leg, legs) = h.0 in
      let both = IsSlip-checks [] sels h.1 in
      ground (arith, low, high, some_leg, legs, (first_error-none bad twice).1 both),
)
  where
    bad : Option InvalidSlip
    bad = bad_selection sels

    twice : Option InvalidSlip
    twice = duplicate_on [] sels
