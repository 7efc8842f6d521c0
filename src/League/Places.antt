-- ===== src/League/Places.antt =====
-- The leaderboard's ranks make groups as the payouts take them: each rank is one more than the
-- number of entries before its group.
use crash_game.Prelude.{
  ℕ, suc, String, ◌+◌, ◌≤◌, ◌<◌, ◌≡◌, refl, sym, true, false, List, [], ◌∷◌, map, length,
  length-append, ◌==◌, arith, Bool-cases, inl, inr,
}
use crash_game.Prelude.Int.{ℤ}
use crash_game.Fantasy.Leaderboard.{
  Entrant, same_points, rank_on, rank_sorted, rank_by_points, sort_entrants,
}
use crash_game.Fantasy.Payouts.{Ranked, Group, add_to_group, group_by_rank, IsPlaced}
use crash_game.League.Settle.{ranked_of}

-- Groups from a number of entries on, after a group of rank `prev`: `rank` is the last group's, and
-- there are `n` entries in all.
Fills : (c prev : ℕ) → List Group → (rank n : ℕ) → Type 0
Fills c prev [] rank n = (rank ≡ prev) × (c ≡ n)
Fills c prev ((k, keys) ∷ gs) rank n =
    (k ≡ suc c) × (0 < length keys) × Fills (c + length keys) k gs rank n

Fills-IsPlaced :
    (c prev : ℕ) (gs : List Group) (rank n : ℕ) → Fills c prev gs rank n → IsPlaced c gs
unfolding Fills IsPlaced
Fills-IsPlaced c prev [] rank n h = tt
Fills-IsPlaced c prev ((k, keys) ∷ gs) rank n h =
    (h.0, Fills-IsPlaced (c + length keys) k gs rank n h.2)

Fills-bounds :
    (c prev : ℕ) (gs : List Group) (rank n : ℕ)
    → prev ≤ c
    → Fills c prev gs rank n
    → (c ≤ n) × (prev ≤ rank) × (rank ≤ n)
unfolding Fills
Fills-bounds c prev [] rank n p h = omega arith
Fills-bounds c prev ((k, keys) ∷ gs) rank n p h =
    omega (arith, Fills-bounds (c + length keys) k gs rank n (omega arith) h.2)

add_same :
    (c prev : ℕ) (gs : List Group) (rank n : ℕ) (x : Ranked) (k : ℕ) (keys : List String)
    → Fills c prev ((k, keys) ∷ gs) rank n
    → x.rank ≡ rank
    → Fills c prev (add_to_group x ((k, keys) ∷ gs)) rank (suc n)
unfolding Fills add_to_group
add_same c prev [] rank n x k keys h same = rw (hit) (
  h.0,
  omega (arith, length-append keys (x.key ∷ [])),
  (h.2.0, omega (arith, length-append keys (x.key ∷ []), h.2.1)),
)
  where
    hit : (k == x.rank) ≡ true
    hit = ground (arith, h.2.0, same)
add_same c prev ((j, js) ∷ gs) rank n x k keys h same =
    rw miss (h.0, h.1, add_same (c + length keys) k gs rank n x j js h.2 same)
  where
    above : j ≤ rank
    above =
        let b =
          Fills-bounds (c + length keys + length js) j gs rank n (omega (arith, h.2.0, h.2.1))
            h.2.2 in
        b.1

    miss : (k == x.rank) ≡ false
    miss = ground (arith, above, same, h.0, h.1, h.2.0)

add_new :
    (c prev : ℕ) (gs : List Group) (rank n : ℕ) (x : Ranked)
    → Fills c prev gs rank n
    → x.rank ≡ suc n
    → Fills c prev (add_to_group x gs) (suc n) (suc n)
unfolding Fills add_to_group
add_new c prev [] rank n x h new = (omega (arith, h.1), omega arith, (sym new, omega (arith, h.1)))
add_new c prev ((k, keys) ∷ gs) rank n x h new =
    let b = Fills-bounds (c + length keys) k gs rank n (omega (arith, h.0, h.1)) h.2 in
    let miss : (k == x.rank) ≡ false = ground (arith, b, new, h.0, h.1) in
    rw miss (h.0, h.1, add_new (c + length keys) k gs rank n x h.2 new)

add_to_last :
    (gs : List Group) (rank n : ℕ) (x : Ranked)
    → Fills 0 0 gs rank n
    → 0 < n
    → x.rank ≡ rank
    → Fills 0 0 (add_to_group x gs) rank (suc n)
unfolding Fills
add_to_last [] rank n x h some_entry same = absurd (omega (arith, h.1))
add_to_last ((k, keys) ∷ gs) rank n x h some_entry same = add_same 0 0 gs rank n x k keys h same

grouped :
    (idx : ℕ) (before : ℤ) (rank : ℕ) (es : List Entrant) (gs : List Group)
    → 0 < idx
    → Fills 0 0 gs rank idx
    → IsPlaced 0 (group_by_rank gs (map ranked_of (rank_on idx before rank es)))
unfolding rank_on group_by_rank
grouped idx before rank [] gs some_entry h = Fills-IsPlaced 0 0 gs rank idx h
grouped idx before rank (e ∷ es) gs some_entry h =
    elim (Bool-cases (same_points e.entrant_points before)) [
      | inl same ↦ rw same (
          grouped (suc idx) e.entrant_points rank es (add_to_group (ranked_of (e, rank)) gs)
            (omega arith) (add_to_last gs rank idx (ranked_of (e, rank)) h some_entry refl))
      | inr other ↦ rw other (
          grouped (suc idx) e.entrant_points (suc idx) es (add_to_group (ranked_of (e, suc idx)) gs)
            (omega arith) (add_new 0 0 gs rank idx (ranked_of (e, suc idx)) h refl))
    ]

first-Fills : (e : Entrant) → Fills 0 0 (add_to_group (ranked_of (e, 1)) []) 1 1
unfolding Fills add_to_group
first-Fills e = (refl, omega arith, (refl, refl))

sorted_places : (es : List Entrant) → IsPlaced 0 (group_by_rank [] (map ranked_of (rank_sorted es)))
unfolding rank_sorted group_by_rank
sorted_places [] = unfold IsPlaced in tt
sorted_places (e ∷ es) =
    grouped 1 e.entrant_points 1 es (add_to_group (ranked_of (e, 1)) []) (omega arith)
      (first-Fills e)

pub rank_by_points-IsPlaced :
    (es : List Entrant) → IsPlaced 0 (group_by_rank [] (map ranked_of (rank_by_points es)))
unfolding rank_by_points
rank_by_points-IsPlaced es = sorted_places (sort_entrants es)
