-- ===== src/Session/RateLimit.antt =====
-- How many bets a session may place in a minute.
use crash_game.Prelude.{
  ℕ, ◌+◌, ◌≤◌, ◌<◌, String, ◌≡◌, refl, ap, ◌∙◌, Bool, true, false, none, some, List, [], ◌∷◌,
  str_eq, str_eq_refl, eq_iff, leb, if◌then◌else◌, arith, Bool-cases, inl, inr, ◌⊎◌, All,
}
use crash_game.Prelude.Action.{Result, ok, err}
use crash_game.Prelude.Dict.{lookup, lookup-insert}
use crash_game.Session
use crash_game.Session.{BucketEntry, Store}
use crash_game.Session.Play.{bets_per_minute, check_rate_limit, max}

abbrev pub granted_of : Result Session.StoreError Bool → ℕ
granted_of (ok true) = 1
granted_of (ok false) = 0
granted_of (err e) = 0

-- Requests of sessions at given times, and how many of a session's are granted.
unfoldable pub granted : String → List (String × ℕ) → Store → ℕ
unfolding check_rate_limit
granted id [] s = 0
granted id ((j, now) ∷ requests) s =
    let (answer, s') = check_rate_limit j (record s { now = now }) in
    (if str_eq j id then granted_of answer else 0) + granted id requests s'

-- The requests of the session come before its bucket is reset.
abbrev pub IsBefore : String → ℕ → List (String × ℕ) → Type 0
IsBefore id reset_at requests = All (λ r. str_eq r.0 id ≡ true → r.1 < reset_at) requests

bucket_lem :
    (id : String) (requests : List (String × ℕ)) (s : Store) (entry : BucketEntry)
    → lookup id s.rate_buckets ≡ some entry
    → IsBefore id entry.reset_at requests
    → granted id requests s + entry.count ≤ max entry.count bets_per_minute
unfolding granted check_rate_limit
bucket_lem id [] s entry found h = ground arith
bucket_lem id ((j, now) ∷ requests) s entry found h = elim (Bool-cases (str_eq j id)) [
  | inl same ↦
      let bucket : BucketEntry = record entry { count = entry.count + 1 } in
      let here : lookup j s.rate_buckets ≡ some entry =
        ap (λ k. lookup k s.rate_buckets) ((eq_iff j id).0 same) ∙ found in
      let early : leb entry.reset_at now ≡ false = ground (arith, h.0 same) in
      rw (same, here, early)
        (counted entry (granted id requests _) (
          bucket_lem id requests _ bucket (lookup-insert j id bucket s.rate_buckets ∙ rw same refl)
            h.1))
  | inr other ↦ rw other (
      skipped entry (granted id requests _)
        (bucket_lem id requests _ entry (lookup-insert j id _ s.rate_buckets ∙ rw other found) h.1))
]
  where
    skipped :
        (e : BucketEntry) (g : ℕ)
        → g + e.count ≤ max e.count bets_per_minute
        → 0 + g + e.count ≤ max e.count bets_per_minute
    skipped e g b = omega (arith, b)

    counted :
        (e : BucketEntry) (g : ℕ)
        → g + (e.count + 1) ≤ max (e.count + 1) bets_per_minute
        → granted_of (ok (leb (e.count + 1) bets_per_minute)) + g + e.count
          ≤ max e.count bets_per_minute
    counted e g b = ground (arith, b)

-- The session has no bucket, or one that is to be reset at this time.
abbrev pub IsDue : String → ℕ → Store → Type 0
IsDue id now s =
    (lookup id s.rate_buckets ≡ none)
    ⊎ ((entry : BucketEntry) × (lookup id s.rate_buckets ≡ some entry) × (entry.reset_at ≤ now))

one_more : (g : ℕ) → g + 1 ≤ 40 → 1 + g ≤ 40
one_more g b = omega (arith, b)

-- Within a minute from the request that opens a session's bucket, the first one or one over a bucket
-- that is past its time, however often the session asks and whatever the other sessions do, at most
-- `BETS_PER_MINUTE` of its requests are granted.
pub granted-le :
    (id : String) (now : ℕ) (requests : List (String × ℕ)) (s : Store)
    → IsDue id now s
    → IsBefore id (now + 60000) requests
    → granted id ((id, now) ∷ requests) s ≤ bets_per_minute
unfolding granted check_rate_limit
granted-le id now requests s (inl fresh) h =
    let bucket : BucketEntry = record { count = 1; reset_at = now + 60000 } in
    rw (str_eq_refl id, fresh)
      (one_more _ (
        bucket_lem id requests _ bucket
          (lookup-insert id id bucket s.rate_buckets ∙ rw (str_eq_refl id) refl) h))
granted-le id now requests s (inr (entry, there, stale)) h =
    let bucket : BucketEntry = record { count = 1; reset_at = now + 60000 } in
    let late : leb entry.reset_at now ≡ true = ground (arith, stale) in
    rw (str_eq_refl id, there, late)
      (one_more _ (
        bucket_lem id requests _ bucket
          (lookup-insert id id bucket s.rate_buckets ∙ rw (str_eq_refl id) refl) h))
