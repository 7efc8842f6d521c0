-- ===== src/League/Lawful.antt =====
-- What the tables of the leagues guarantee, kept by every method: the primary key of the leagues,
-- of the members, the limit of the rake, and that a member's league exists.
use crash_game.Prelude.{
  String, ◌+◌, ◌≤◌, ◌≡◌, refl, sym, ap, ◌∙◌, true, false, none, some, List, [], ◌∷◌, ◌++◌, find,
  any, count, str_eq, eq_iff, if◌then◌else◌, arith, Bool-cases, inl, inr, All, All-append,
}
use mathlib.Core.Path.{subst}
use crash_game.League.{League, Member, House, has_id, of_league, is_entry, set_league}
use crash_game.League.Conserved.{IsUnique, count-append}

pub record IsLawful (house : House) : Type 0 where
  pub unique : IsUnique house.leagues
  pub capped : All (λ l. l.rake_bps ≤ 10000) house.leagues
  pub linked :
      (r : String) → any (has_id r) house.leagues ≡ false → count (of_league r) house.members ≡ 0
  pub keyed : (r p : String) → count (is_entry r p) house.members ≤ 1

-- An update that leaves the id and the rake of a league.
abbrev pub IsUpdate : (League → League) → Type 0
IsUpdate f = (l : League) → ((f l).league_id ≡ l.league_id) × ((f l).rake_bps ≡ l.rake_bps)

any-set_league :
    (q r : String) (f : League → League) (ls : List League)
    → IsUpdate f
    → any (has_id q) (set_league r f ls) ≡ any (has_id q) ls
unfolding set_league
any-set_league q r f [] keeps = refl
any-set_league q r f (l ∷ ls) keeps = elim (Bool-cases (has_id r l)) [
  | inl here ↦ rw here (ap (λ id. if str_eq id q then true else any (has_id q) ls) (keeps l).0)
  | inr there ↦ rw there (ap (λ b. if has_id q l then true else b) (any-set_league q r f ls keeps))
]

set_league-IsUnique :
    (r : String) (f : League → League) (ls : List League)
    → IsUpdate f
    → IsUnique ls
    → IsUnique (set_league r f ls)
unfolding IsUnique set_league
set_league-IsUnique r f [] keeps u = tt
set_league-IsUnique r f (l ∷ ls) keeps u = elim (Bool-cases (has_id r l)) [
  | inl here ↦ rw here (subst (λ id. any (has_id id) ls ≡ false) (sym (keeps l).0) u.0, u.1)
  | inr there ↦
      rw there (any-set_league l.league_id r f ls keeps ∙ u.0, set_league-IsUnique r f ls keeps u.1)
]

set_league-capped :
    (r : String) (f : League → League) (ls : List League)
    → IsUpdate f
    → All (λ l. l.rake_bps ≤ 10000) ls
    → All (λ l. l.rake_bps ≤ 10000) (set_league r f ls)
unfolding set_league
set_league-capped r f [] keeps c = tt
set_league-capped r f (l ∷ ls) keeps c = elim (Bool-cases (has_id r l)) [
  | inl here ↦ rw here (omega (arith, c.0, (keeps l).1), c.1)
  | inr there ↦ rw there (c.0, set_league-capped r f ls keeps c.1)
]

pub updated-IsLawful :
    (r : String) (f : League → League) (house : House)
    → IsUpdate f
    → IsLawful house
    → IsLawful (record house { leagues = set_league r f house.leagues })
updated-IsLawful r f house keeps h = record {
  unique = set_league-IsUnique r f house.leagues keeps h.unique;
  capped = set_league-capped r f house.leagues keeps h.capped;
  linked = λ q e. h.linked q (sym (any-set_league q r f house.leagues keeps) ∙ e);
  keyed = h.keyed;
}

any-append :
    (q : String) (ls : List League) (n : League)
    → any (has_id q) (ls ++ n ∷ []) ≡ (if any (has_id q) ls then true else has_id q n)
any-append q [] n = ground arith
any-append q (l ∷ ls) n = ground (arith, any-append q ls n)

append-IsUnique :
    (ls : List League) (n : League)
    → IsUnique ls
    → any (has_id n.league_id) ls ≡ false
    → IsUnique (ls ++ n ∷ [])
unfolding IsUnique
append-IsUnique [] n u fresh = (refl, tt)
append-IsUnique (l ∷ ls) n u fresh = (
  ground (
    arith,
    any-append l.league_id ls n,
    u.0,
    fresh,
    eq_iff n.league_id l.league_id,
    eq_iff l.league_id n.league_id,
  ),
  append-IsUnique ls n u.1 (ground (arith, fresh)),
)

any-find : (q : String) (ls : List League) → find (has_id q) ls ≡ none → any (has_id q) ls ≡ false
any-find q [] h = refl
any-find q (l ∷ ls) h = ground (arith, h, any-find q ls)

pub added-IsLawful :
    (n : League) (house : House)
    → n.rake_bps ≤ 10000
    → find (has_id n.league_id) house.leagues ≡ none
    → IsLawful house
    → IsLawful (record house { leagues = house.leagues ++ n ∷ [] })
added-IsLawful n house cap fresh h = record {
  unique = append-IsUnique house.leagues n h.unique (any-find n.league_id house.leagues fresh);
  capped = All-append (λ l. l.rake_bps ≤ 10000) house.leagues (n ∷ []) h.capped (cap, tt);
  linked = λ q e. h.linked q (ground (arith, e, any-append q house.leagues n));
  keyed = h.keyed;
}

-- A fresh league has no members, and holds nothing.
pub fresh_empty :
    (n : League) (house : House)
    → find (has_id n.league_id) house.leagues ≡ none
    → IsLawful house
    → count (of_league n.league_id) house.members ≡ 0
fresh_empty n house fresh h = h.linked n.league_id (any-find n.league_id house.leagues fresh)

find-any :
    (q : String) (ls : List League) (l : League)
    → find (has_id q) ls ≡ some l
    → any (has_id q) ls ≡ true
find-any q [] l h = cc
find-any q (x ∷ ls) l h = ground (arith, h, find-any q ls l)

entries-append :
    (q p : String) (ms : List Member) (m : Member)
    → count (is_entry q p) (ms ++ m ∷ [])
      ≡ count (is_entry q p) ms + (if is_entry q p m then 1 else 0)
entries-append q p [] m = omega arith
entries-append q p (x ∷ ms) m = omega (arith, entries-append q p ms m)

entries-none :
    (q p : String) (ms : List Member) → any (is_entry q p) ms ≡ false → count (is_entry q p) ms ≡ 0
entries-none q p [] h = refl
entries-none q p (x ∷ ms) h = ground (arith, h, entries-none q p ms)

-- Under the key of a member who is new there is no row yet.
entry_same :
    (q p r : String) (m : Member) (ms : List Member)
    → m.league_id ≡ r
    → any (is_entry r m.player_id) ms ≡ false
    → is_entry q p m ≡ true
    → count (is_entry q p) ms ≡ 0
entry_same q p r m ms own new same =
    let league : r ≡ q = sym own ∙ (eq_iff m.league_id q).0 (ground (arith, same)) in
    let player : m.player_id ≡ p = (eq_iff m.player_id p).0 (ground (arith, same)) in
    entries-none q p ms (
      subst (λ x. any (is_entry x p) ms ≡ false) league
        (subst (λ x. any (is_entry r x) ms ≡ false) player new))

pub joined-IsLawful :
    (r : String) (l : League) (m : Member) (house : House)
    → m.league_id ≡ r
    → find (has_id r) house.leagues ≡ some l
    → any (is_entry r m.player_id) house.members ≡ false
    → IsLawful house
    → IsLawful (record house { members = house.members ++ m ∷ [] })
joined-IsLawful r l m house own found new h = record {
  keyed = λ q p. elim (Bool-cases (is_entry q p m)) [
    | inl same ↦ ground (
      arith,
      entries-append q p house.members m,
      entry_same q p r m house.members own new same,
      same,
    )
    | inr other ↦ ground (arith, entries-append q p house.members m, other, h.keyed q p)
  ];
  unique = h.unique;
  capped = h.capped;
  linked = λ q e.
      count-append q house.members m
      ∙ ground (
        arith,
        h.linked q e,
        own,
        e,
        find-any r house.leagues l found,
        eq_iff m.league_id q,
        ap (λ x. any (has_id x) house.leagues) own,
      );
}
