-- ===== src/League/Paying.antt =====
-- A league that is settled or cancelled keeps the books balanced.
use crash_game.League.{is_entry}
use crash_game.Prelude.{
  ℕ, String, ltb, ◌+◌, ◌-◌, ◌*◌, ◌≤◌, ◌≡◌, eq_iff, All, refl, sym, ap, ◌∙◌, Bool, true, Option,
  none, some, List, [], ◌∷◌, map, length, filter, find, count, arith, Bool-cases, inl, inr,
}
use mathlib.Core.Path.{subst}
use crash_game.Prelude.Int.{ℤ, pos, ◌+ℤ◌, int_laws}
use crash_game.Prelude.Action.{ok}
use crash_game.Ledger.{Table}
use crash_game.Fantasy.{Live}
use crash_game.Fantasy.Leaderboard.{rank_by_points, split_pool}
use crash_game.Fantasy.Payouts.{payouts, payouts-IsDivision, total_paid}
use crash_game.Fantasy.Ranking.{split_pool-conserves}
use crash_game.League.{
  LeagueStatus, opened, settled, cancelled, is_open, League, Member, House, has_id, of_league,
  set_league,
}
use crash_game.League.Settle.{
  min_entrants, refund_all, entrant_of, ranked_of, set_results, closed_as, cancel_refunded,
  settle_credited, settle_ranked, settle_open, settle_found, by_join,
}
use crash_game.League.Accounts.{
  total, held, held_by, held_as, length-by_join, length-filter, count-set_results,
  entries-set_results, held-same,
}
use crash_game.League.Places.{rank_by_points-IsPlaced}
use crash_game.League.Conserved.{refund_all-total, credit_all-total, held-set_league}
use crash_game.League.Lawful.{IsLawful, updated-IsLawful}
use crash_game.League.Joining.{IsBalanced, unmoved}

held_as_open :
    (s : LeagueStatus) (l : League) (n : ℕ)
    → is_open s ≡ true
    → held_as s l n ≡ pos (l.entry_fee_minor * n)
held_as_open opened l n h = refl
held_as_open settled l n h = cc
held_as_open cancelled l n h = cc

found_id :
    (r : String) (ls : List League) (l : League) → find (has_id r) ls ≡ some l → l.league_id ≡ r
found_id r [] l h = cc
found_id r (x ∷ ls) l h = elim (Bool-cases (has_id r x)) [
  | inl here ↦ ground (arith, here, h, eq_iff x.league_id r)
  | inr there ↦ found_id r ls l (ground (arith, there, h))
]

-- What was held goes to the ledger, but for what is kept.
moved :
    (t t' h h' a kept paid : ℤ)
    → h' +ℤ a ≡ h +ℤ kept
    → t' ≡ t +ℤ paid
    → kept +ℤ paid ≡ a
    → t' +ℤ h' ≡ t +ℤ h
moved t t' h h' a kept paid books up all = grind (int_laws, books, up, all)

divided :
    (rake prize paid pool : ℕ) (dust : ℤ)
    → rake + prize ≡ pool
    → paid ≤ prize
    → dust ≡ pos (prize - paid)
    → (pos rake +ℤ dust) +ℤ pos paid ≡ pos pool
divided rake prize paid pool dust whole bound rest =
    ap (λ d. (pos rake +ℤ d) +ℤ pos paid) rest ∙ grind (int_laws, whole, bound)

zero_left : (n : ℕ) → 0 + n ≡ n
zero_left n = omega arith

split_fees :
    (fee n rake_bps : ℕ)
    → rake_bps ≤ 10000
    → (split_pool fee n rake_bps).rake_minor + (split_pool fee n rake_bps).prize_pool_minor
      ≡ fee * n
split_fees fee n rake_bps h = (split_pool-conserves fee n rake_bps h).0 ∙ unfold split_pool in refl

module _ (by_uuid : String → String → Bool) (r : String) (l : League) (live : Live) (house : House)
    (lawful : IsLawful house) where
  module _ (found : find (has_id r) house.leagues ≡ some l)
      (entering : is_open l.status ≡ true) where
    entries : List Member
    entries = by_join by_uuid (filter (of_league r) house.members)

    -- The league holds a fee for each entry.
    held_fees : held_by house.members l ≡ pos (l.entry_fee_minor * length entries)
    unfolding entries
    held_fees =
        held_as_open l.status l (count (of_league l.league_id) house.members) entering
        ∙ ap (λ id. pos (l.entry_fee_minor * count (of_league id) house.members))
            (found_id r house.leagues l found)
        ∙ ap (λ n. pos (l.entry_fee_minor * n))
            (sym (
              length-by_join by_uuid (filter (of_league r) house.members)
              ∙ length-filter r house.members))

    -- The leagues after one is closed.
    closed_books :
        (status : LeagueStatus) (pool : ℕ) (rake : ℤ)
        → held (set_league r (closed_as status pool rake house.now) house.leagues) house.members
            +ℤ pos (l.entry_fee_minor * length entries)
          ≡ held house.leagues house.members
            +ℤ held_by house.members (closed_as status pool rake house.now l)
    closed_books status pool rake =
        ap
          (λ a.
            held (set_league r (closed_as status pool rake house.now) house.leagues) house.members
            +ℤ a)
          (sym held_fees)
        ∙ held-set_league r (closed_as status pool rake house.now) house.leagues house.members l
            found

    with_table :
        (t : Table) (f : League → League) (ms : List Member)
        → ((q : String) → count (of_league q) ms ≡ count (of_league q) house.members)
        → ((q p : String) → count (is_entry q p) ms ≡ count (is_entry q p) house.members)
        → IsLawful (record house { leagues = set_league r f house.leagues })
        → IsLawful
            (record house { ledger = t; leagues = set_league r f house.leagues; members = ms })
    with_table t f ms same alike h = record {
      unique = h.unique;
      capped = h.capped;
      linked = λ q e. same q ∙ h.linked q e;
      keyed = λ q p. omega (arith, alike q p, h.keyed q p);
    }

    cancelled-IsBalanced :
        IsBalanced house
          (cancel_refunded r
            (length entries)
            house
            (refund_all r l.entry_fee_minor l.currency entries house.ledger)).1
    cancelled-IsBalanced =
        elim (refund_all-total r l.currency l.entry_fee_minor entries house.ledger) [
          | inl (e, t', thrown) ↦ rw thrown (unmoved house lawful)
          | inr (t', done, up) ↦ rw done (record {
            lawful =
                with_table t' (closed_as cancelled 0 (pos 0) house.now) house.members (λ q. refl)
                  (λ q p. refl) (updated-IsLawful r _ house (λ x. (refl, refl)) lawful);
            balanced =
                moved (total house.ledger) (total t') (held house.leagues house.members) _
                  (pos (l.entry_fee_minor * length entries)) (pos 0) _
                  (closed_books cancelled 0 (pos 0)) up (omega int_laws);
          })
        ]

    -- The end of a league that pays out, at any payouts that leave the rake of the fees.
    paid-IsBalanced :
        (ms : List Member) (pool : ℕ) (rake : ℤ) (paid : ℕ) (t' : Table)
        → ((q : String) → count (of_league q) ms ≡ count (of_league q) house.members)
        → ((q p : String) → count (is_entry q p) ms ≡ count (is_entry q p) house.members)
        → total t' ≡ total house.ledger +ℤ pos paid
        → rake +ℤ pos paid ≡ pos (l.entry_fee_minor * length entries)
        → IsBalanced house (settle_credited r (length entries) pool rake ms house (ok paid, t')).1
    paid-IsBalanced ms pool rake paid t' same alike up shares = record {
      lawful =
          with_table t' (closed_as settled pool rake house.now) ms same alike
            (updated-IsLawful r _ house (λ x. (refl, refl)) lawful);
      balanced =
          ap (λ h. total t' +ℤ h) (held-same _ ms house.members same)
          ∙ moved (total house.ledger) (total t') (held house.leagues house.members) _
              (pos (l.entry_fee_minor * length entries)) rake (pos paid)
              (closed_books settled pool rake) up shares;
    }

    capped :
        (ls : List League)
        → All (λ x. x.rake_bps ≤ 10000) ls
        → find (has_id r) ls ≡ some l
        → l.rake_bps ≤ 10000
    capped [] h f = cc
    capped (x ∷ ls) h f = elim (Bool-cases (has_id r x)) [
      | inl here ↦ ground (arith, here, f, h.0)
      | inr there ↦ capped ls h.1 (ground (arith, there, f))
    ]

    settled-IsBalanced : IsBalanced house (settle_ranked by_uuid r l entries live house).1
    settled-IsBalanced =
        let ranked = rank_by_points (map (entrant_of live) entries) in
        let split = split_pool l.entry_fee_minor (length entries) l.rake_bps in
        let p = payouts (map ranked_of ranked) split.prize_pool_minor l.payout_bps in
        let division =
          payouts-IsDivision (map ranked_of ranked) split.prize_pool_minor l.payout_bps
            (rank_by_points-IsPlaced (map (entrant_of live) entries)) in
        let (t', done, up) =
          credit_all-total r l.currency l.entry_fee_minor p.by_key 0 house.ledger in
        let rake = pos split.rake_minor +ℤ p.dust_minor in
        subst
          (λ x.
            IsBalanced house
              (settle_credited r (length entries) split.pool_minor rake
                (set_results r ranked p.by_key house.members) house x).1)
          (sym (done ∙ ap (λ n. (ok n, t')) (zero_left (total_paid p.by_key))))
          (paid-IsBalanced (set_results r ranked p.by_key house.members) split.pool_minor rake
            (total_paid p.by_key) t' (λ q. count-set_results q r ranked p.by_key house.members)
            (λ q x. entries-set_results q x r ranked p.by_key house.members) up
            (divided split.rake_minor split.prize_pool_minor (total_paid p.by_key)
              (l.entry_fee_minor * length entries) p.dust_minor
              (split_fees l.entry_fee_minor (length entries) l.rake_bps
                (capped house.leagues lawful.capped found))
              (omega (arith, division.0, division.1))
              (division.2 ∙ ap (λ n. pos (split.prize_pool_minor - n)) (sym division.0))))

  settle_open-IsBalanced :
      find (has_id r) house.leagues ≡ some l
      → is_open l.status ≡ true
      → IsBalanced house
          (settle_open by_uuid r l
            (by_join by_uuid (filter (of_league r) house.members))
            live
            house).1
  unfolding entries
  settle_open-IsBalanced found entering =
      elim (Bool-cases (ltb (length (entries found entering)) min_entrants)) [
        | inl few ↦ rw few (cancelled-IsBalanced found entering)
        | inr enough ↦ rw enough (settled-IsBalanced found entering)
      ]

pub settle-IsBalanced :
    (by_uuid : String → String → Bool) (r : String) (live : Live) (house : House)
    (o : Option League)
    → find (has_id r) house.leagues ≡ o
    → IsLawful house
    → IsBalanced house (settle_found by_uuid r live house o).1
settle-IsBalanced by_uuid r live house none found lawful = unmoved house lawful
settle-IsBalanced by_uuid r live house (some l) found lawful =
    elim (Bool-cases (is_open l.status)) [
      | inl entering ↦
          rw entering (settle_open-IsBalanced by_uuid r l live house lawful found entering)
      | inr closed ↦ rw closed (unmoved house lawful)
    ]
