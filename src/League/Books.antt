-- ===== src/League/Books.antt =====
-- The books of the leagues balance, whatever is called.
use crash_game.Prelude.{
  ℕ, String, ◌==◌, ◌+◌, ◌≤◌, ◌≡◌, refl, sym, ap, ◌∙◌, Bool, Option, none, some, List, [], ◌∷◌, ◌++◌,
  find, count, if◌then◌else◌, arith, Bool-cases, inl, inr,
}
use crash_game.Prelude.Int.{ℤ, pos, ◌+ℤ◌, int_laws}
use crash_game.Fantasy.{SquadPick, Live}
use crash_game.League.{
  LeagueStatus, opened, settled, cancelled, is_open, League, Member, House, LeagueTemplate, has_id,
  of_league, new_league, moved_deadline, upsert_league, ensure_leagues, join,
}
use crash_game.League.Settle.{settle}
use crash_game.League.Accounts.{total, held, held_by, held_as, assoc}
use crash_game.League.Conserved.{held-set_league}
use crash_game.League.Lawful.{IsLawful, updated-IsLawful, added-IsLawful, fresh_empty}
use crash_game.League.Joining.{IsBalanced, unmoved, join-IsBalanced}
use crash_game.League.Paying.{settle-IsBalanced}

-- A call of the repository that writes.
pub data LeagueCall : Type 0 where
  ensure_call : List LeagueTemplate → (gameweek deadline : ℕ) → LeagueCall
  join_call : (league_id player_id : String) → SquadPick → (now_ms : ℕ) → LeagueCall
  settle_call : (league_id : String) → Live → LeagueCall

unfoldable pub after_call : (String → String → Bool) → LeagueCall → House → House
unfolding ensure_leagues join settle
after_call by_uuid (ensure_call ts gameweek deadline) house =
    (ensure_leagues ts gameweek deadline 0 house).1
after_call by_uuid (join_call r p squad now_ms) house = (join r p squad now_ms house).1
after_call by_uuid (settle_call r live) house = (settle by_uuid r live house).1

unfoldable pub after_calls : (String → String → Bool) → List LeagueCall → House → House
unfolding after_call
after_calls by_uuid [] house = house
after_calls by_uuid (call ∷ calls) house = after_calls by_uuid calls (after_call by_uuid call house)

IsBalanced-trans : (a b c : House) → IsBalanced a b → IsBalanced b c → IsBalanced a c
IsBalanced-trans a b c h k = record { lawful = k.lawful; balanced = k.balanced ∙ h.balanced }

deadline_update :
    (deadline : ℕ) (l : League)
    → ((moved_deadline deadline l).league_id ≡ l.league_id)
      × ((moved_deadline deadline l).rake_bps ≡ l.rake_bps)
deadline_update deadline l = elim (Bool-cases (is_open l.status)) [
  | inl h ↦ rw h (refl, refl)
  | inr h ↦ rw h (refl, refl)
]

held_as_deadline :
    (deadline : ℕ) (s : LeagueStatus) (l : League) (n : ℕ)
    → held_as s (record l { deadline = deadline }) n ≡ held_as s l n
held_as_deadline deadline opened l n = refl
held_as_deadline deadline settled l n = refl
held_as_deadline deadline cancelled l n = refl

held_by_deadline :
    (deadline : ℕ) (ms : List Member) (l : League)
    → held_by ms (moved_deadline deadline l) ≡ held_by ms l
held_by_deadline deadline ms l = elim (Bool-cases (is_open l.status)) [
  | inl h ↦
      ap (λ b. held_by ms (if b then record l { deadline = deadline } else l)) h
      ∙ held_as_deadline deadline l.status l (count (of_league l.league_id) ms)
  | inr h ↦ ap (λ b. held_by ms (if b then record l { deadline = deadline } else l)) h
]

cancel : (a b d : ℤ) → a +ℤ d ≡ b +ℤ d → a ≡ b
cancel a b d h = grind (int_laws, h)

held-append :
    (ls : List League) (ms : List Member) (l : League)
    → held (ls ++ l ∷ []) ms ≡ held ls ms +ℤ held_by ms l
unfolding held
held-append [] ms l = zero_swap (held_by ms l)
  where
    zero_swap : (a : ℤ) → a +ℤ pos 0 ≡ pos 0 +ℤ a
    zero_swap a = omega int_laws
held-append (x ∷ ls) ms l =
    ap (λ h. held_by ms x +ℤ h) (held-append ls ms l)
    ∙ sym (assoc (held_by ms x) (held ls ms) (held_by ms l))

upsert-IsBalanced :
    (n : League) (house : House) (o : Option League)
    → find (has_id n.league_id) house.leagues ≡ o
    → n.rake_bps ≤ 10000
    → n.status ≡ opened
    → IsLawful house
    → IsBalanced house (record house { leagues = (upsert_league n house.leagues o).1 })
upsert-IsBalanced n house (some old) found rake new lawful = record {
  lawful =
      updated-IsLawful n.league_id (moved_deadline n.deadline) house (deadline_update n.deadline)
        lawful;
  balanced =
      ap (λ h. total house.ledger +ℤ h)
        (cancel _ _ (held_by house.members old) (
          held-set_league n.league_id (moved_deadline n.deadline) house.leagues house.members old
            found
          ∙ ap (λ h. held house.leagues house.members +ℤ h)
              (held_by_deadline n.deadline house.members old)));
}
upsert-IsBalanced n house none found rake new lawful = record {
  lawful = added-IsLawful n house rake found lawful;
  balanced =
      ap (λ h. total house.ledger +ℤ h)
        (held-append house.leagues house.members n
          ∙ ap (λ h. held house.leagues house.members +ℤ h) nothing_yet
          ∙ zero_right (held house.leagues house.members));
}
  where
    nothing_yet : held_by house.members n ≡ pos 0
    nothing_yet =
        ap (λ k. held_as n.status n k) (fresh_empty n house found lawful)
        ∙ ap (λ s. held_as s n 0) new
        ∙ ap pos (omega arith)

    zero_right : (a : ℤ) → a +ℤ pos 0 ≡ a
    zero_right a = omega int_laws

ensure-IsBalanced :
    (ts : List LeagueTemplate) (gameweek deadline created : ℕ) (house : House)
    → IsLawful house
    → IsBalanced house (ensure_leagues ts gameweek deadline created house).1
unfolding ensure_leagues
ensure-IsBalanced [] gameweek deadline created house lawful = unmoved house lawful
ensure-IsBalanced (t ∷ ts) gameweek deadline created house lawful =
    elim (Bool-cases (t.entry_fee_minor == 0)) [
      | inl free ↦ rw free (unmoved house lawful)
      | inr priced ↦ rw priced (
          let n = new_league t gameweek deadline in
          let (inserted, ls) =
            upsert_league n house.leagues (find (has_id n.league_id) house.leagues) in
          let first =
            upsert-IsBalanced n house (find (has_id n.league_id) house.leagues) refl (omega arith)
              refl lawful in
          IsBalanced-trans house (record house { leagues = ls }) _ first
            (ensure-IsBalanced ts gameweek deadline (if inserted then created + 1 else created)
              (record house { leagues = ls }) first.lawful))
    ]

after_call-IsBalanced :
    (by_uuid : String → String → Bool) (call : LeagueCall) (house : House)
    → IsLawful house
    → IsBalanced house (after_call by_uuid call house)
unfolding after_call join settle
after_call-IsBalanced by_uuid (ensure_call ts gameweek deadline) house lawful =
    ensure-IsBalanced ts gameweek deadline 0 house lawful
after_call-IsBalanced by_uuid (join_call r p squad now_ms) house lawful =
    join-IsBalanced r p squad now_ms house (find (has_id r) house.leagues) refl lawful
after_call-IsBalanced by_uuid (settle_call r live) house lawful =
    settle-IsBalanced by_uuid r live house (find (has_id r) house.leagues) refl lawful

-- Whatever leagues are created, joined, settled and cancelled, in whatever order: the sum of the
-- whole ledger and of what the leagues hold stays the same, where an open league holds the fees of
-- its members, a settled one its rake (with the rounding dust), and a cancelled one nothing. So the
-- fees of a league come back to players as payouts or refunds, but for the rake. Beside that no two
-- leagues come to share an id, no player to have two entries in a league, no rake to exceed the
-- whole, and every member's league exists.
pub after_calls-IsBalanced :
    (by_uuid : String → String → Bool) (calls : List LeagueCall) (house : House)
    → IsLawful house
    → IsBalanced house (after_calls by_uuid calls house)
unfolding after_calls
after_calls-IsBalanced by_uuid [] house lawful = unmoved house lawful
after_calls-IsBalanced by_uuid (call ∷ calls) house lawful =
    let first = after_call-IsBalanced by_uuid call house lawful in
    IsBalanced-trans house (after_call by_uuid call house) _ first
      (after_calls-IsBalanced by_uuid calls (after_call by_uuid call house) first.lawful)
