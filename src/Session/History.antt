-- ===== src/Session/History.antt =====
-- The history of a session is the newest part of all that was appended.
use crash_game.Prelude.{
  ℕ, zero, suc, ◌≤◌, String, ◌≡◌, refl, sym, ap, ◌∙◌, true, none, or_else, List, [], ◌∷◌, take,
  str_eq, eq_iff, if◌then◌else◌, arith, Bool-cases, inl, inr,
}
use crash_game.Prelude.Action.{ok, err, bind_ok, gets, pure, ◌>>=◌}
use crash_game.Prelude.Dict.{lookup, insert, lookup-insert}
use crash_game.Session.{HistoryEntry, Store, ensure_online, store_offline}
use crash_game.Session.Play.{history_limit, append_history, get_history, min}

-- Entries of some sessions, the newest first.
unfoldable pub append_all : List (String × HistoryEntry) → Store → Store
unfolding append_history
append_all [] s = s
append_all ((id, entry) ∷ entries) s = (append_history id entry (append_all entries s)).1

-- The entries of one session among them
unfoldable pub entries_of : String → List (String × HistoryEntry) → List HistoryEntry
entries_of id [] = []
entries_of id ((j, entry) ∷ entries) =
    let rest = entries_of id entries in if str_eq j id then entry ∷ rest else rest

-- What an entry leaves in the store.
appended : String → HistoryEntry → Store → Store
appended id entry s = record s {
  histories =
      insert id (take history_limit (entry ∷ or_else (lookup id s.histories) [])) s.histories;
}

append_history_lem :
    (id : String) (entry : HistoryEntry) (s : Store)
    → s.online ≡ true
    → (append_history id entry s).1 ≡ appended id entry s
unfolding append_history appended
append_history_lem id entry s on = ap (λ b. if b then appended id entry s else s) on

online_after :
    (entries : List (String × HistoryEntry)) (s : Store)
    → s.online ≡ true
    → (append_all entries s).online ≡ true
unfolding append_all appended
online_after [] s on = on
online_after ((id, entry) ∷ entries) s on =
    ap (λ t. t.online)
      (append_history_lem id entry (append_all entries s) (online_after entries s on))
    ∙ online_after entries s on

take-take : {A : Type 0} (m n : ℕ) (xs : List A) → m ≤ n → take m (take n xs) ≡ take m xs
take-take zero n xs h = refl
take-take (suc m) zero xs h = absurd (omega arith)
take-take (suc m) (suc n) [] h = refl
take-take (suc m) (suc n) (x ∷ xs) h = ap (λ ys. x ∷ ys) (take-take m n xs (omega arith))

take-cons : {A : Type 0} (n : ℕ) (x : A) (xs : List A) → take n (x ∷ take n xs) ≡ take n (x ∷ xs)
take-cons zero x xs = refl
take-cons (suc n) x xs = ap (λ ys. x ∷ ys) (take-take n (suc n) xs (omega arith))

kept : String → Store → List HistoryEntry
kept id s = or_else (lookup id s.histories) []

kept-appended :
    (id j : String) (entry : HistoryEntry) (s : Store)
    → kept id (appended j entry s)
      ≡ (if str_eq j id then take history_limit (entry ∷ kept j s) else kept id s)
unfolding kept appended
kept-appended id j entry s = elim (Bool-cases (str_eq j id)) [
  | inl same ↦ ap (λ o. or_else o []) (lookup-insert j id _ s.histories) ∙ rw same refl
  | inr other ↦ ap (λ o. or_else o []) (lookup-insert j id _ s.histories) ∙ rw other refl
]

kept_after :
    (limit : ℕ) (id : String) (entries : List (String × HistoryEntry)) (s : Store)
    → limit ≡ history_limit
    → s.online ≡ true
    → kept id s ≡ []
    → kept id (append_all entries s) ≡ take limit (entries_of id entries)
unfolding append_all entries_of
kept_after zero id entries s full on fresh = absurd (omega (arith, full))
kept_after (suc n) id [] s full on fresh = fresh
kept_after (suc n) id ((j, entry) ∷ entries) s full on fresh =
    ap (kept id) (append_history_lem j entry (append_all entries s) (online_after entries s on))
    ∙ kept-appended id j entry (append_all entries s)
    ∙ elim (Bool-cases (str_eq j id)) [
      | inl same ↦ rw same (
          ap (λ k. take history_limit (entry ∷ kept k (append_all entries s)))
            ((eq_iff j id).0 same)
          ∙ ap (λ xs. take history_limit (entry ∷ xs))
              (kept_after (suc n) id entries s full on fresh)
          ∙ ap (λ k. take k (entry ∷ take (suc n) (entries_of id entries))) (sym full)
          ∙ take-cons (suc n) entry (entries_of id entries))
      | inr other ↦ rw other (kept_after (suc n) id entries s full on fresh)
    ]

min-le : (a b : ℕ) → min a b ≤ b
min-le a b = ground arith

read_online :
    (id : String) (limit : ℕ) (s : Store)
    → s.online ≡ true
    → get_history id limit s ≡ (ok (take (min limit history_limit) (kept id s)), s)
unfolding get_history kept
read_online id limit s on =
    bind_ok ensure_online
      (λ _. gets (λ t. lookup id t.histories) >>= λ list.
        pure (take (min limit history_limit) (or_else list [])))
      {s' = s} (ap (λ b. (if b then ok tt else err store_offline, s)) on)

-- However entries of all sessions are appended one after another, while the store is online: what
-- `getHistory` returns for a session that had none is the newest of its own entries, the newest
-- first, as many as are asked for and at most the limit.
pub get_history_lem :
    (id : String) (limit : ℕ) (entries : List (String × HistoryEntry)) (s : Store)
    → s.online ≡ true
    → lookup id s.histories ≡ none
    → let later = append_all entries s in
      get_history id limit later
      ≡ (ok (take (min limit history_limit) (entries_of id entries)), later)
unfolding kept
get_history_lem id limit entries s on fresh =
    read_online id limit (append_all entries s) (online_after entries s on)
    ∙ ap (λ xs. (ok (take (min limit history_limit) xs), append_all entries s))
        (kept_after history_limit id entries s refl on (ap (λ o. or_else o []) fresh))
    ∙ ap (λ xs. (ok xs, append_all entries s))
        (take-take (min limit history_limit) history_limit (entries_of id entries)
          (min-le limit history_limit))
