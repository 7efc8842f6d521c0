-- ===== src/League/Once.antt =====
-- A league is settled once: when it is closed, its row does not change again.
use crash_game.Prelude.{
  ℕ, String, ltb, ◌==◌, ◌+◌, ◌≡◌, eq_iff, refl, sym, ap, ◌∙◌, Bool, true, false, ◌&&◌, Option, none,
  some, or_else, str_eq, List, [], ◌∷◌, ◌++◌, length, filter, find, any, if◌then◌else◌, arith,
  Bool-cases, inl, inr,
}
use mathlib.Core.Path.{subst}
use crash_game.Prelude.Int.{ℤ, pos}
use crash_game.Prelude.Action.{Result, ok, err}
use crash_game.Ledger.{Table, LedgerError}
use crash_game.Fantasy.{SquadPick, Live}
use crash_game.League.{
  LeagueStatus, is_open, League, Member, House, LeagueTemplate, league_locked, has_id, of_league,
  is_entry, set_league, new_league, moved_deadline, upsert_league, ensure_leagues, new_member,
  join_debited, join_found, join,
}
use crash_game.League.Settle.{
  min_entrants, already_final, closed_as, cancel_refunded, settle_credited, settle_found, settle,
  by_join,
}
use crash_game.League.Books.{
  LeagueCall, ensure_call, join_call, settle_call, after_call, after_calls,
}

-- The row of the league, which is closed.
abbrev pub IsClosed : String → League → House → Type 0
IsClosed r l house = (find (has_id r) house.leagues ≡ some l) × (is_open l.status ≡ false)

-- An update that keeps the id, and a closed league as it is.
abbrev IsGentle : (League → League) → Type 0
IsGentle f = (x : League) → ((f x).league_id ≡ x.league_id) × (is_open x.status ≡ false → f x ≡ x)

find-gentle :
    (r s : String) (f : League → League) (ls : List League) (l : League)
    → IsGentle f
    → find (has_id r) ls ≡ some l
    → is_open l.status ≡ false
    → find (has_id r) (set_league s f ls) ≡ some l
unfolding set_league
find-gentle r s f [] l gentle h shut = cc
find-gentle r s f (x ∷ ls) l gentle h shut = elim (Bool-cases (has_id s x)) [
  | inr there ↦ rw there (ground (arith, h, find-gentle r s f ls l gentle, shut))
  | inl here ↦ rw here (elim (Bool-cases (has_id r x)) [
    | inl own ↦
        let same : x ≡ l = ground (arith, h, own) in
        let kept : f x ≡ x = (gentle x).1 (ap (λ y. is_open y.status) same ∙ shut) in
        subst (λ y. find (has_id r) (y ∷ ls) ≡ some l) (sym kept) h
    | inr other ↦
        subst (λ id. (if str_eq id r then some (f x) else find (has_id r) ls) ≡ some l)
          (sym (gentle x).0) (rw other (ground (arith, h, other)))
  ])
]

find-apart :
    (r s : String) (f : League → League) (ls : List League)
    → ((x : League) → (f x).league_id ≡ x.league_id)
    → str_eq s r ≡ false
    → find (has_id r) (set_league s f ls) ≡ find (has_id r) ls
unfolding set_league
find-apart r s f [] keeps apart = refl
find-apart r s f (x ∷ ls) keeps apart = ground (
  arith,
  keeps x,
  apart,
  find-apart r s f ls keeps apart,
  eq_iff x.league_id s,
  eq_iff x.league_id r,
  eq_iff (f x).league_id r,
  eq_iff s r,
)

find-append :
    (r : String) (ls : List League) (n l : League)
    → find (has_id r) ls ≡ some l
    → find (has_id r) (ls ++ n ∷ []) ≡ some l
find-append r [] n l h = cc
find-append r (x ∷ ls) n l h = ground (arith, find-append r ls n l)

deadline-IsGentle : (deadline : ℕ) → IsGentle (moved_deadline deadline)
deadline-IsGentle deadline x = elim (Bool-cases (is_open x.status)) [
  | inl h ↦ rw h (refl, λ e. cc)
  | inr h ↦ rw h (refl, λ e. refl)
]

upsert_closed :
    (r : String) (l n : League) (ls : List League) (o : Option League)
    → find (has_id r) ls ≡ some l
    → is_open l.status ≡ false
    → find (has_id r) (upsert_league n ls o).1 ≡ some l
upsert_closed r l n ls (some old) h shut =
    find-gentle r n.league_id (moved_deadline n.deadline) ls l (deadline-IsGentle n.deadline) h shut
upsert_closed r l n ls none h shut = find-append r ls n l h

module _ (r : String) (l : League) where
  ensure-IsClosed :
      (ts : List LeagueTemplate) (gameweek deadline created : ℕ) (house : House)
      → IsClosed r l house
      → IsClosed r l (ensure_leagues ts gameweek deadline created house).1
  unfolding ensure_leagues
  ensure-IsClosed [] gameweek deadline created house h = h
  ensure-IsClosed (t ∷ ts) gameweek deadline created house h =
      elim (Bool-cases (t.entry_fee_minor == 0)) [
        | inl free ↦ rw free h
        | inr priced ↦ rw priced (
            let n = new_league t gameweek deadline in
            let (inserted, ls) =
              upsert_league n house.leagues (find (has_id n.league_id) house.leagues) in
            ensure-IsClosed ts gameweek deadline (if inserted then created + 1 else created)
              (record house { leagues = ls })
              (
                upsert_closed r l n house.leagues (find (has_id n.league_id) house.leagues) h.0 h.1,
                h.1,
              ))
      ]

  joined_leagues :
      (m : Member) (house : House) (x : Result LedgerError ℤ × Table)
      → (join_debited m house x).1.leagues ≡ house.leagues
  joined_leagues m house (ok b, t) = refl
  joined_leagues m house (err e, t) = refl

  join_leagues :
      (s p : String) (squad : SquadPick) (now_ms : ℕ) (house : House) (o : Option League)
      → (join_found s p squad now_ms house o).1.leagues ≡ house.leagues
  join_leagues s p squad now_ms house none = refl
  join_leagues s p squad now_ms house (some k) =
      elim (Bool-cases (is_open k.status && ltb now_ms k.deadline)) [
        | inr shut ↦ rw shut refl
        | inl entering ↦ elim (Bool-cases (any (is_entry s p) house.members)) [
          | inl again ↦ rw (entering, again) refl
          | inr new ↦ rw (entering, new) (joined_leagues (new_member s p squad house.now) house _)
        ]
      ]

  closed_apart :
      (s : String) (k : League) (status : LeagueStatus) (pool : ℕ) (rake : ℤ) (house : House)
      → IsClosed r l house
      → find (has_id s) house.leagues ≡ some k
      → is_open k.status ≡ true
      → find (has_id r) (set_league s (closed_as status pool rake house.now) house.leagues) ≡ some l
  closed_apart s k status pool rake house h found entering =
      find-apart r s (closed_as status pool rake house.now) house.leagues (λ x. refl)
        (elim (Bool-cases (str_eq s r)) [
          | inr apart ↦ apart
          | inl same ↦
              let alike : find (has_id s) house.leagues ≡ some l =
                subst (λ q. find (has_id q) house.leagues ≡ some l) (sym ((eq_iff s r).0 same))
                  h.0 in
              ground (arith, alike, found, entering, h.1)
        ])
      ∙ h.0

  cancelled-IsClosed :
      (s : String) (k : League) (n : ℕ) (house : House) (x : Result LedgerError (Unit {0}) × Table)
      → IsClosed r l house
      → find (has_id s) house.leagues ≡ some k
      → is_open k.status ≡ true
      → IsClosed r l (cancel_refunded s n house x).1
  cancelled-IsClosed s k n house (err e, t) h found entering = h
  cancelled-IsClosed s k n house (ok u, t) h found entering =
      (closed_apart s k LeagueStatus.cancelled 0 (pos 0) house h found entering, h.1)

  settled-IsClosed :
      (s : String) (k : League) (n pool : ℕ) (rake : ℤ) (ms : List Member) (house : House)
      (x : Result LedgerError ℕ × Table)
      → IsClosed r l house
      → find (has_id s) house.leagues ≡ some k
      → is_open k.status ≡ true
      → IsClosed r l (settle_credited s n pool rake ms house x).1
  settled-IsClosed s k n pool rake ms house (err e, t) h found entering = h
  settled-IsClosed s k n pool rake ms house (ok paid, t) h found entering =
      (closed_apart s k LeagueStatus.settled pool rake house h found entering, h.1)

  module _ (by_uuid : String → String → Bool) where
    settle-IsClosed :
        (s : String) (live : Live) (house : House) (o : Option League)
        → find (has_id s) house.leagues ≡ o
        → IsClosed r l house
        → IsClosed r l (settle_found by_uuid s live house o).1
    settle-IsClosed s live house none found h = h
    settle-IsClosed s live house (some k) found h = elim (Bool-cases (is_open k.status)) [
      | inr shut ↦ rw shut h
      | inl entering ↦
          elim (Bool-cases
            (ltb (length (by_join by_uuid (filter (of_league s) house.members))) min_entrants)) [
              | inl few ↦ rw (entering, few) (cancelled-IsClosed s k _ house _ h found entering)
              | inr enough ↦
                  rw (entering, enough) (settled-IsClosed s k _ _ _ _ house _ h found entering)
            ]
    ]

    after_call-IsClosed :
        (call : LeagueCall) (house : House)
        → IsClosed r l house
        → IsClosed r l (after_call by_uuid call house)
    unfolding after_call join settle
    after_call-IsClosed (ensure_call ts gameweek deadline) house h =
        ensure-IsClosed ts gameweek deadline 0 house h
    after_call-IsClosed (join_call s p squad now_ms) house h = (
      ap (find (has_id r)) (join_leagues s p squad now_ms house (find (has_id s) house.leagues))
          ∙ h.0,
      h.1,
    )
    after_call-IsClosed (settle_call s live) house h =
        settle-IsClosed s live house (find (has_id s) house.leagues) refl h

    after_calls-IsClosed :
        (calls : List LeagueCall) (house : House)
        → IsClosed r l house
        → IsClosed r l (after_calls by_uuid calls house)
    unfolding after_calls
    after_calls-IsClosed [] house h = h
    after_calls-IsClosed (call ∷ calls) house h =
        after_calls-IsClosed calls (after_call by_uuid call house)
          (after_call-IsClosed call house h)

    -- Once a league is settled or cancelled, and whatever is called after it: its row stays as it
    -- is, settling it again changes nothing and returns 'already-final' with the recorded pool and
    -- rake, and nobody can join it.
    pub settle_once :
        (house : House)
        → IsClosed r l house
        → (calls : List LeagueCall) (live : Live) (p : String) (squad : SquadPick) (now_ms : ℕ)
        → let later = after_calls by_uuid calls house in
          (settle by_uuid r live later ≡ (
            ok (record {
              league_id = r;
              status = already_final;
              entrants = 0;
              pool_minor = or_else l.pool_minor 0;
              rake_minor = or_else l.rake_minor (pos 0);
              paid_minor = 0;
            }),
            later,
          ))
          × (join r p squad now_ms later ≡ (err (league_locked r), later))
          × (find (has_id r) later.leagues ≡ some l)
    unfolding settle join
    settle_once house h calls live p squad now_ms =
        let later = after_calls by_uuid calls house in
        let kept = after_calls-IsClosed calls house h in
        (
          ap (settle_found by_uuid r live later) kept.0 ∙ rw kept.1 refl,
          ap (join_found r p squad now_ms later) kept.0 ∙ rw kept.1 refl,
          kept.0,
        )
