-- ===== src/Simulate/Draw.antt =====
-- The scoreline that is drawn after the leg was decided.
use crash_game.Prelude.{
  ℕ, zero, suc, get_elem?, ◌≢◌, ◌+◌, ◌*◌, ◌^◌, ◌<◌, ◌≡◌, refl, sym, inl, inr, String, Bool, true,
  false, ◌&&◌, Option, none, some, List, [], ◌∷◌, ◌++◌, All, All-append, ltb, arith, or_else,
  Bool-cases,
}
use mathlib.Core.Path.{subst}
use crash_game.Football.{Score, MarketOutcome, find_outcome, score_grid}
use crash_game.Simulate.{
  Crypto, Selection, Candidate, same_bool, row_candidates, candidates, total_weight, pick_candidate,
  draw_from, draw_for, draw_score, aux_uniform, default_goal_rates,
}

-- A candidate settles the outcome as the leg was decided, and can occur.
IsCandidate : MarketOutcome → Bool → Candidate → Type 0
IsCandidate o won c = (o.settles c.candidate_score ≡ won) × (0 < c.p)

same_bool-eq : (a b : Bool) → same_bool a b ≡ true → a ≡ b
same_bool-eq true b h = sym h
same_bool-eq false true h = h
same_bool-eq false false h = refl

eq-same_bool : (a b : Bool) → a ≡ b → same_bool a b ≡ true
eq-same_bool true b h = sym h
eq-same_bool false true h = h
eq-same_bool false false h = refl

append_empty : (xs ys : List Candidate) → xs ++ ys ≡ [] → (xs ≡ []) × (ys ≡ [])
append_empty [] ys h = (refl, h)
append_empty (x ∷ xs) ys h = absurd (cons_not_empty x (xs ++ ys) h)
  where
    cons_not_empty : (x : Candidate) (xs : List Candidate) → x ∷ xs ≢ []
    cons_not_empty x xs h = ground arith

module _ (o : MarketOutcome) (won : Bool) where
  row_candidates-All :
      (home away : ℕ) (row : List ℕ) → All (IsCandidate o won) (row_candidates o won home away row)
  unfolding row_candidates IsCandidate
  row_candidates-All home away [] = tt
  row_candidates-All home away (p ∷ row) =
      elim (Bool-cases
        (same_bool (o.settles (record { home = home; away = away })) won && ltb 0 p)) [
          | inl h ↦ rw h (
            (same_bool-eq _ won (ground (arith, h)), ground (arith, h)),
            row_candidates-All home (suc away) row,
          )
          | inr h ↦ rw h (row_candidates-All home (suc away) row)
        ]

  candidates-All :
      (home : ℕ) (grid : List (List ℕ)) → All (IsCandidate o won) (candidates o won home grid)
  unfolding candidates
  candidates-All home [] = tt
  candidates-All home (row ∷ grid) =
      All-append (IsCandidate o won) (row_candidates o won home 0 row) _
        (row_candidates-All home 0 row) (candidates-All (suc home) grid)

  -- Without a candidate no scoreline of the grid that can occur settles the outcome so.
  row_none :
      (home away : ℕ) (row : List ℕ)
      → row_candidates o won home away row ≡ []
      → (i p : ℕ) → get_elem? row i ≡ some p
      → 0 < p
      → o.settles (record { home = home; away = away + i }) ≢ won
  unfolding row_candidates
  row_none home away [] none_left i p at_i positive = ground arith
  row_none home away (q ∷ row) none_left zero p at_i positive = λ hits.
      let here : o.settles (record { home = home; away = away }) ≡ won =
        subst (λ n. o.settles (record { home = home; away = n }) ≡ won) (omega arith) hits in
      ground (arith, here, none_left, at_i, positive, eq-same_bool _ won here)
  row_none home away (q ∷ row) none_left (suc i) p at_i positive =
      subst (λ n. o.settles (record { home = home; away = n }) ≢ won) (omega arith)
        (row_none home (suc away) row (ground (arith, none_left)) i p at_i positive)

  grid_none :
      (home : ℕ) (grid : List (List ℕ))
      → candidates o won home grid ≡ []
      → (i away p : ℕ) (row : List ℕ) → get_elem? grid i ≡ some row
      → get_elem? row away ≡ some p
      → 0 < p
      → o.settles (record { home = home + i; away = away }) ≢ won
  unfolding candidates
  grid_none home [] none_left i away p row at_i at_away positive = ground arith
  grid_none home (r ∷ grid) none_left zero away p row at_i at_away positive =
      let (left, _) = append_empty (row_candidates o won home 0 r) _ none_left in
      let here : get_elem? r away ≡ some p = ground (arith, at_i, at_away) in
      subst (λ n. o.settles (record { home = n; away = away }) ≢ won) (omega arith)
        (subst (λ n. o.settles (record { home = home; away = n }) ≢ won) (omega arith)
          (row_none home 0 r left away p here positive))
  grid_none home (r ∷ grid) none_left (suc i) away p row at_i at_away positive =
      let (_, left) = append_empty (row_candidates o won home 0 r) _ none_left in
      subst (λ n. o.settles (record { home = n; away = away }) ≢ won) (omega arith)
        (grid_none (suc home) grid left i away p row at_i at_away positive)

pick_candidate-settles :
    (o : MarketOutcome) (won : Bool) (target acc : ℕ) (c : Candidate) (cs : List Candidate)
    → All (IsCandidate o won) (c ∷ cs)
    → o.settles (pick_candidate target acc c cs) ≡ won
unfolding pick_candidate IsCandidate
pick_candidate-settles o won target acc c [] h = h.0.0
pick_candidate-settles o won target acc c (d ∷ cs) h =
    elim (Bool-cases (ltb target ((acc + c.p) * 2 ^ 52))) [
      | inl here ↦ rw here h.0.0
      | inr later ↦ rw later (pick_candidate-settles o won target (acc + c.p) d cs h.1)
    ]

-- What a draw tells: a scoreline that settles the outcome as the leg was decided, or none, and none
-- only if the market is unknown or no scoreline of the grid that can occur is consistent.
pub data Narrated (grid : List (List ℕ)) (won : Bool)
    : Option MarketOutcome → Option Score → Type 0 where
  unknown_market : Narrated grid won none none
  nothing_consistent :
      {o : MarketOutcome}
      → ((home away p : ℕ) (row : List ℕ)
          → get_elem? grid home ≡ some row
          → get_elem? row away ≡ some p
          → 0 < p
          → o.settles (record { home = home; away = away }) ≢ won)
      → Narrated grid won (some o) none
  consistent :
      {o : MarketOutcome} {s : Score} → o.settles s ≡ won → Narrated grid won (some o) (some s)

weighs :
    (o : MarketOutcome) (won : Bool) (c : Candidate) (cs : List Candidate)
    → All (IsCandidate o won) (c ∷ cs)
    → ltb 0 (total_weight (c ∷ cs)) ≡ true
unfolding total_weight IsCandidate
weighs o won c cs h = ground (arith, h.0.1)

draw_from-Narrated :
    (o : MarketOutcome) (won : Bool) (grid : List (List ℕ)) (u : ℕ) (cs : List Candidate)
    → candidates o won 0 grid ≡ cs
    → All (IsCandidate o won) cs
    → Narrated grid won (some o) (draw_from u cs)
unfolding draw_from
draw_from-Narrated o won grid u [] e h =
    nothing_consistent (λ home away p row at_home at_away positive.
      subst (λ n. o.settles (record { home = n; away = away }) ≢ won) (omega arith)
        (grid_none o won 0 grid e home away p row at_home at_away positive))
draw_from-Narrated o won grid u (c ∷ cs) e h =
    rw (weighs o won c cs h)
      (consistent (pick_candidate-settles o won (u * total_weight (c ∷ cs)) 0 c cs h))

draw_for-Narrated :
    (u : ℕ) (grid : List (List ℕ)) (won : Bool) (o : Option MarketOutcome)
    → Narrated grid won o (draw_for u grid won o)
unfolding draw_for
draw_for-Narrated u grid won none = unknown_market
draw_for-Narrated u grid won (some o) =
    draw_from-Narrated o won grid u _ refl (candidates-All o won 0 grid)

-- The scoreline that is drawn agrees with the leg, for every market, pick, goal rates and seed: it
-- settles the picked outcome as won exactly if the leg won. There is none only if the index does
-- not know the outcome, or if no scoreline of a positive weight settles it as the leg was decided.
pub draw_score-Narrated :
    (c : Crypto) (seed nonce : String) (index : ℕ) (sel : Selection) (won : Bool)
    → Narrated
        (score_grid c.poisson_pmf (or_else sel.goal_rates default_goal_rates) 10)
        won
        (find_outcome sel.market sel.pick)
        (draw_score c seed nonce index sel won)
unfolding draw_score
draw_score-Narrated c seed nonce index sel won =
    draw_for-Narrated (aux_uniform c seed nonce index "score") _ won
      (find_outcome sel.market sel.pick)
