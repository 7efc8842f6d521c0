-- ===== src/Session/Streaks.antt =====
-- The statistics of a session against an account of what was played.
use crash_game.Prelude.{
  ℕ, suc, ◌≡◌, ◌⊎◌, inl, inr, refl, ap, ◌∙◌, String, Bool, true, false, Option, List, [], ◌∷◌,
  count, arith,
}
use crash_game.Prelude.Int.{ℤ, pos, ◌+ℤ◌, ◌-ℤ◌, int_laws}
use crash_game.Session.{SessionStats, zero_stats}
use crash_game.Session.Play.{
  count_bet, count_win, count_loss, stamp, longer_win, longer_loss, max, max_ℤ,
}

-- A bet that is placed, won or lost.
pub data Play : Type 0 where
  placed : (stake : ℤ) → Play
  won : (stake payout : ℤ) → (multiplier : ℕ) → Play
  lost : Play

abbrev pub is_placed : Play → Bool
is_placed (placed stake) = true
is_placed _ = false

abbrev pub is_won : Play → Bool
is_won (won stake payout multiplier) = true
is_won _ = false

abbrev pub is_lost : Play → Bool
is_lost lost = true
is_lost _ = false

abbrev pub stake_of : Play → ℤ
stake_of (placed stake) = stake
stake_of _ = pos 0

abbrev pub payout_of : Play → ℤ
payout_of (won stake payout multiplier) = payout
payout_of _ = pos 0

unfoldable pub sum : (Play → ℤ) → List Play → ℤ
sum f [] = pos 0
sum f (p ∷ ps) = sum f ps +ℤ f p

-- The wins since the last loss, and the losses since the last win; the newest play comes first.
unfoldable pub wins_in_row : List Play → ℕ
wins_in_row [] = 0
wins_in_row (placed stake ∷ ps) = wins_in_row ps
wins_in_row (won stake payout multiplier ∷ ps) = suc (wins_in_row ps)
wins_in_row (lost ∷ ps) = 0

unfoldable pub losses_in_row : List Play → ℕ
losses_in_row [] = 0
losses_in_row (placed stake ∷ ps) = losses_in_row ps
losses_in_row (won stake payout multiplier ∷ ps) = 0
losses_in_row (lost ∷ ps) = suc (losses_in_row ps)

-- The most wins in a row at any time.
unfoldable pub most_in_row : List Play → ℕ
unfolding wins_in_row
most_in_row [] = 0
most_in_row (p ∷ ps) = max (most_in_row ps) (wins_in_row (p ∷ ps))

-- What the statistics say of the plays.
pub record IsSummary (ps : List Play) (s : SessionStats) : Type 0 where
  pub bets : s.bets ≡ count is_placed ps
  pub wins : s.wins ≡ count is_won ps
  pub losses : s.losses ≡ count is_lost ps
  pub wagered : s.total_wagered ≡ sum stake_of ps
  pub paid : s.total_won ≡ sum payout_of ps
  pub profit : s.net_profit ≡ sum payout_of ps -ℤ sum stake_of ps
  pub streak : s.current_streak ≡ pos (wins_in_row ps) -ℤ pos (losses_in_row ps)
  pub best : s.best_streak ≡ pos (most_in_row ps)

pub zero-IsSummary : IsSummary [] zero_stats
unfolding sum wins_in_row losses_in_row most_in_row ◌-ℤ◌
zero-IsSummary = record {
  bets = refl;
  wins = refl;
  losses = refl;
  wagered = refl;
  paid = refl;
  profit = refl;
  streak = refl;
  best = refl;
}

pub stamp-IsSummary :
    (c : Option String) (ps : List Play) (s : SessionStats)
    → IsSummary ps s
    → IsSummary ps (stamp c s)
stamp-IsSummary c ps s h = record {
  bets = h.bets;
  wins = h.wins;
  losses = h.losses;
  wagered = h.wagered;
  paid = h.paid;
  profit = h.profit;
  streak = h.streak;
  best = h.best;
}

in_row : (ps : List Play) → (wins_in_row ps ≡ 0) ⊎ (losses_in_row ps ≡ 0)
unfolding wins_in_row losses_in_row
in_row [] = inl refl
in_row (placed stake ∷ ps) = in_row ps
in_row (won stake payout multiplier ∷ ps) = inr refl
in_row (lost ∷ ps) = inl refl

win_grows : (w l : ℕ) → (w ≡ 0) ⊎ (l ≡ 0) → longer_win (pos w -ℤ pos l) ≡ pos (suc w) -ℤ pos 0
unfolding ◌+ℤ◌ ◌-ℤ◌
win_grows w l h = ground (arith, h)

loss_grows : (w l : ℕ) → (w ≡ 0) ⊎ (l ≡ 0) → longer_loss (pos w -ℤ pos l) ≡ pos 0 -ℤ pos (suc l)
unfolding ◌+ℤ◌ ◌-ℤ◌
loss_grows w l h = ground (arith, h)

max_pos : (a b : ℕ) → max_ℤ (pos a) (pos b -ℤ pos 0) ≡ pos (max a b)
unfolding ◌-ℤ◌
max_pos a b = ground arith

pub count_bet-IsSummary :
    (stake : ℤ) (ps : List Play) (s : SessionStats)
    → IsSummary ps s
    → IsSummary (placed stake ∷ ps) (count_bet stake s)
unfolding sum wins_in_row losses_in_row most_in_row
count_bet-IsSummary stake ps s h = record {
  bets = omega (arith, h.bets);
  wins = omega (arith, h.wins);
  losses = omega (arith, h.losses);
  wagered = ap (λ n. n +ℤ stake) h.wagered;
  paid = h.paid ∙ zero_right (sum payout_of ps);
  profit = ap (λ n. n -ℤ stake) h.profit ∙ staked (sum payout_of ps) (sum stake_of ps) stake;
  streak = h.streak;
  best = h.best ∙ ap pos (at_most ps);
}
  where
    zero_right : (a : ℤ) → a ≡ a +ℤ pos 0
    zero_right a = omega int_laws

    staked : (a b c : ℤ) → (a -ℤ b) -ℤ c ≡ (a +ℤ pos 0) -ℤ (b +ℤ c)
    staked a b c = omega int_laws

    at_most : (qs : List Play) → most_in_row qs ≡ max (most_in_row qs) (wins_in_row qs)
    at_most [] = refl
    at_most (q ∷ qs) = ground arith

pub count_win-IsSummary :
    (stake payout : ℤ) (multiplier : ℕ) (ps : List Play) (s : SessionStats)
    → IsSummary ps s
    → IsSummary (won stake payout multiplier ∷ ps) (count_win stake payout multiplier s)
unfolding sum wins_in_row losses_in_row most_in_row
count_win-IsSummary stake payout multiplier ps s h = record {
  bets = omega (arith, h.bets);
  wins = omega (arith, h.wins);
  losses = omega (arith, h.losses);
  wagered = h.wagered ∙ zero_right (sum stake_of ps);
  paid = ap (λ n. n +ℤ payout) h.paid;
  profit = ap (λ n. n +ℤ payout) h.profit ∙ earned (sum payout_of ps) (sum stake_of ps) payout;
  streak = grown;
  best =
      ap (λ b. max_ℤ b (longer_win s.current_streak)) h.best
      ∙ ap (max_ℤ (pos (most_in_row ps))) grown
      ∙ max_pos (most_in_row ps) (suc (wins_in_row ps));
}
  where
    zero_right : (a : ℤ) → a ≡ a +ℤ pos 0
    zero_right a = omega int_laws

    earned : (a b c : ℤ) → (a -ℤ b) +ℤ c ≡ (a +ℤ c) -ℤ (b +ℤ pos 0)
    earned a b c = omega int_laws

    grown : longer_win s.current_streak ≡ pos (suc (wins_in_row ps)) -ℤ pos 0
    grown = ap longer_win h.streak ∙ win_grows (wins_in_row ps) (losses_in_row ps) (in_row ps)

pub count_loss-IsSummary :
    (ps : List Play) (s : SessionStats) → IsSummary ps s → IsSummary (lost ∷ ps) (count_loss s)
unfolding sum wins_in_row losses_in_row most_in_row
count_loss-IsSummary ps s h = record {
  bets = omega (arith, h.bets);
  wins = omega (arith, h.wins);
  losses = omega (arith, h.losses);
  wagered = h.wagered ∙ zero_right (sum stake_of ps);
  paid = h.paid ∙ zero_right (sum payout_of ps);
  profit = h.profit ∙ kept (sum payout_of ps) (sum stake_of ps);
  streak = ap longer_loss h.streak ∙ loss_grows (wins_in_row ps) (losses_in_row ps) (in_row ps);
  best = h.best ∙ ap pos (none_more (most_in_row ps));
}
  where
    zero_right : (a : ℤ) → a ≡ a +ℤ pos 0
    zero_right a = omega int_laws

    kept : (a b : ℤ) → a -ℤ b ≡ (a +ℤ pos 0) -ℤ (b +ℤ pos 0)
    kept a b = omega int_laws

    none_more : (n : ℕ) → n ≡ max n 0
    none_more n = ground arith
