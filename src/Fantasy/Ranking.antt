-- ===== src/Fantasy/Ranking.antt =====
-- The ranks of the leaderboard and the split of the pool.
use crash_game.Prelude.{
  ℕ, suc, ◌+◌, ◌*◌, ◌≤◌, ◌≡◌, refl, sym, ap, ◌∙◌, true, false, List, [], ◌∷◌, All, count,
  if◌then◌else◌, arith, Bool-cases, inl, inr,
}
use native.Mathlib.Nat.{mul-le-mul_left}
use crash_game.Prelude.Int.{ℤ, ltb_ℤ, eq_of_parts}
use crash_game.Fantasy.Leaderboard.{
  Entrant, insert_entrant, sort_entrants, same_points, rank_on, rank_sorted, rank_by_points,
  split_pool,
}

-- How many entries have strictly more points.
abbrev pub better : ℤ → List Entrant → ℕ
better p entries = count (λ e. ltb_ℤ p e.entrant_points) entries

-- Entries in order, from an upper bound of their points on.
IsRanked : ℤ → List Entrant → Type 0
IsRanked before [] = Unit
IsRanked before (e ∷ es) = (ltb_ℤ before e.entrant_points ≡ false) × IsRanked e.entrant_points es

better-insert :
    (p : ℤ) (e : Entrant) (es : List Entrant) → better p (insert_entrant e es) ≡ better p (e ∷ es)
unfolding insert_entrant
better-insert p e [] = refl
better-insert p e (x ∷ es) = ground (arith, better-insert p e es)

better-sort : (p : ℤ) (es : List Entrant) → better p (sort_entrants es) ≡ better p es
unfolding sort_entrants
better-sort p [] = refl
better-sort p (e ∷ es) = better-insert p e (sort_entrants es) ∙ ground (arith, better-sort p es)

insert-IsRanked :
    (before : ℤ) (e : Entrant) (es : List Entrant)
    → ltb_ℤ before e.entrant_points ≡ false
    → IsRanked before es
    → IsRanked before (insert_entrant e es)
unfolding IsRanked insert_entrant
insert-IsRanked before e [] h r = (h, tt)
insert-IsRanked before e (x ∷ es) h r =
    elim (Bool-cases (ltb_ℤ e.entrant_points x.entrant_points)) [
      | inl lower ↦
          rw lower (r.0, insert-IsRanked x.entrant_points e es (ground (arith, lower)) r.1)
      | inr higher ↦ rw higher (h, (higher, r.1))
    ]

weaken : (p : ℤ) (e : Entrant) (es : List Entrant) → IsRanked p (e ∷ es) → IsRanked p es
unfolding IsRanked
weaken p e [] r = tt
weaken p e (x ∷ es) r = (ground (arith, r.0, r.1.0), r.1.1)

IsSorted : List Entrant → Type 0
IsSorted [] = Unit
IsSorted (e ∷ es) = IsRanked e.entrant_points es

insert-IsSorted : (e : Entrant) (es : List Entrant) → IsSorted es → IsSorted (insert_entrant e es)
unfolding IsSorted IsRanked insert_entrant
insert-IsSorted e [] h = tt
insert-IsSorted e (x ∷ es) h = elim (Bool-cases (ltb_ℤ e.entrant_points x.entrant_points)) [
  | inl lower ↦ rw lower (insert-IsRanked x.entrant_points e es (ground (arith, lower)) h)
  | inr higher ↦ rw higher (higher, h)
]

sort-IsSorted : (es : List Entrant) → IsSorted (sort_entrants es)
unfolding IsSorted sort_entrants
sort-IsSorted [] = tt
sort-IsSorted (e ∷ es) = insert-IsSorted e (sort_entrants es) (sort-IsSorted es)

-- Nothing further down is better than what stands above it.
none_better : (p : ℤ) (es : List Entrant) → IsRanked p es → better p es ≡ 0
unfolding IsRanked
none_better p [] r = refl
none_better p (e ∷ es) r = ground (arith, r.0, none_better p es (weaken p e es r))

equal_points : (a b : ℤ) → same_points a b ≡ true → a ≡ b
equal_points a b h = eq_of_parts a b (ground (arith, h))

lower_points : (a b : ℤ) → same_points a b ≡ false → ltb_ℤ b a ≡ false → ltb_ℤ a b ≡ true
lower_points a b h g = ground (arith, h, g)

-- The rank that is given to the next entry.
next_rank :
    (above : ℤ → ℕ) (idx : ℕ) (before : ℤ) (rank : ℕ) (p : ℤ)
    → ((q : ℤ) → ltb_ℤ q before ≡ true → above q ≡ idx)
    → rank ≡ suc (above before)
    → ltb_ℤ before p ≡ false
    → (if same_points p before then rank else suc idx) ≡ suc (above p)
next_rank above idx before rank p full given ordered = elim (Bool-cases (same_points p before)) [
  | inl same ↦ rw same (given ∙ ap (λ q. suc (above q)) (sym (equal_points p before same)))
  | inr other ↦ rw other (ap suc (sym (full p (lower_points p before other ordered))))
]

rank_on_lem :
    (total above : ℤ → ℕ) (idx : ℕ) (before : ℤ) (rank : ℕ) (es : List Entrant)
    → ((p : ℤ) → total p ≡ above p + better p es)
    → ((p : ℤ) → ltb_ℤ p before ≡ true → above p ≡ idx)
    → rank ≡ suc (above before)
    → IsRanked before es
    → All (λ x. x.1 ≡ suc (total x.0.entrant_points)) (rank_on idx before rank es)
unfolding rank_on IsRanked
rank_on_lem total above idx before rank [] parts full given r = tt
rank_on_lem total above idx before rank (e ∷ es) parts full given r =
    let rest = none_better e.entrant_points es r.1 in
    let placed = next_rank above idx before rank e.entrant_points full given r.0 in
    let above' : ℤ → ℕ = (λ p. above p + (if ltb_ℤ p e.entrant_points then 1 else 0)) in
    (
      placed ∙ ground (arith, parts e.entrant_points, rest),
      rank_on_lem total above' (suc idx) e.entrant_points _ es (λ p. ground (arith, parts p))
          (λ p h. ground (arith, h, full p (ground (arith, h, r.0)))) (placed ∙ ground arith) r.1,
    )

sorted_ranks :
    (total : ℤ → ℕ) (es : List Entrant)
    → IsSorted es
    → ((p : ℤ) → total p ≡ better p es)
    → All (λ x. x.1 ≡ suc (total x.0.entrant_points)) (rank_sorted es)
unfolding rank_sorted IsSorted
sorted_ranks total [] h parts = tt
sorted_ranks total (e ∷ es) h parts = (
  ground (arith, parts e.entrant_points, none_better e.entrant_points es h),
  rank_on_lem total (λ p. if ltb_ℤ p e.entrant_points then 1 else 0) 1 e.entrant_points 1 es
      (λ p. parts p) (λ p below. ground (arith, below)) (ground arith) h,
)

-- The rank of every entry of the leaderboard is one more than the number of entries with strictly
-- more points: ties share a rank, and the next rank leaves their places out.
pub rank_by_points_lem :
    (entries : List Entrant)
    → All (λ x. x.1 ≡ suc (better x.0.entrant_points entries)) (rank_by_points entries)
unfolding rank_by_points
rank_by_points_lem entries =
    sorted_ranks (λ p. better p entries) (sort_entrants entries) (sort-IsSorted entries)
      (λ p. sym (better-sort p entries))

-- The pool is divided without a remainder into the rake and the prizes, for every fee, number of
-- entrants and rake of at most 10000 basis points; the rake is at most its share of the pool.
pub split_pool-conserves :
    (fee entrants rake_bps : ℕ)
    → rake_bps ≤ 10000
    → let s = split_pool fee entrants rake_bps in
      (s.rake_minor + s.prize_pool_minor ≡ s.pool_minor)
      × (s.rake_minor * 10000 ≤ s.pool_minor * rake_bps)
unfolding split_pool
split_pool-conserves fee entrants rake_bps h =
    let bound = mul-le-mul_left (fee * entrants) h in (omega (arith, bound), omega arith)
