-- ===== src/Fantasy/Payouts.antt =====
-- packages/shared/src/fantasy.ts: `payouts`, the division of the prizes over the ranks.
use crash_game.Prelude.{
  ℕ, zero, suc, ◌+◌, ◌-◌, ◌*◌, ◌/◌, ◌≤◌, ◌≡◌, refl, sym, ap, ◌∙◌, String, ◌||◌, List, [], ◌∷◌, ◌++◌,
  length, take, ◌==◌, if◌then◌else◌, arith, Bool-cases, inl, inr,
}
use native.Mathlib.Nat.{div-mul-le_self, mul-le-mul_left, le_of_mul-le-mul_left}
use crash_game.Prelude.Int.{ℤ, pos, sub_ℕ}

unfoldable pub sum : List ℕ → ℕ
sum [] = 0
sum (n ∷ ns) = n + sum ns

abbrev pub drop : ℕ → List ℕ → List ℕ
drop zero ns = ns
drop (suc n) [] = []
drop (suc n) (x ∷ ns) = drop n ns

-- An entry of `ranked`.
pub record Ranked : Type 0 where
  pub key : String
  pub rank : ℕ

-- A rank with the keys that hold it, in the order of the map.
abbrev pub Group : Type 0
Group = ℕ × List String

-- The body of the loop that fills `groups`
unfoldable pub add_to_group : Ranked → List Group → List Group
add_to_group r [] = (r.rank, r.key ∷ []) ∷ []
add_to_group r ((rank, keys) ∷ groups) =
    let rest = add_to_group r groups in
    if rank == r.rank then (rank, keys ++ r.key ∷ []) ∷ groups else (rank, keys) ∷ rest

unfoldable pub group_by_rank : List Group → List Ranked → List Group
unfolding add_to_group
group_by_rank groups [] = groups
group_by_rank groups (r ∷ ranked) = group_by_rank (add_to_group r groups) ranked

-- The shares of the places that a group occupies: the loop on `p`, which stops at the paid places
abbrev pub group_share : List ℕ → Group → ℕ
group_share shares (rank, keys) = sum (take (length keys) (drop (rank - 1) shares))

-- The payout of each key of a group; a group without a share gets none.
abbrev pub each_of : ℕ → ℕ → List ℕ → Group → ℕ
each_of prize total shares (rank, keys) =
    prize * group_share shares (rank, keys) / (total * length keys)

abbrev pub pay_keys : ℕ → List String → List (String × ℕ)
pay_keys amount [] = []
pay_keys amount (k ∷ keys) = (k, amount) ∷ pay_keys amount keys

-- The loop on the groups: the entries of `byKey` in the order in which they are set, and `paid`
unfoldable pub pay_groups : ℕ → ℕ → List ℕ → List Group → List (String × ℕ) × ℕ
unfolding sum
pay_groups prize total shares [] = ([], 0)
pay_groups prize total shares (g ∷ groups) =
    let (entries, paid) = pay_groups prize total shares groups in
    if group_share shares g == 0 then (entries, paid) else (
      pay_keys (each_of prize total shares g) g.1 ++ entries,
      length g.1 * each_of prize total shares g + paid,
    )

pub record Payouts : Type 0 where
  pub by_key : List (String × ℕ)
  pub paid : ℕ
  pub dust_minor : ℤ

abbrev pub paid_shares : List Ranked → List ℕ → List ℕ
paid_shares ranked payout_bps = take (length ranked) payout_bps

abbrev pub settled_payouts : ℕ → List (String × ℕ) × ℕ → Payouts
settled_payouts prize (entries, paid) = record {
  by_key = entries;
  paid = paid;
  dust_minor = sub_ℕ prize paid;
}

-- `payouts`; with no places, or no shares, the whole pool is left over.
unfoldable pub payouts : List Ranked → ℕ → List ℕ → Payouts
unfolding pay_groups group_by_rank sum
payouts ranked prize payout_bps =
    let shares = paid_shares ranked payout_bps in
    if length shares == 0 || sum shares == 0
    then record { by_key = []; paid = 0; dust_minor = pos prize }
    else settled_payouts prize (pay_groups prize (sum shares) shares (group_by_rank [] ranked))

-- Groups in standard competition ranking from a number of places on: each rank is one more than the
-- number of entries before it.
unfoldable pub IsPlaced : ℕ → List Group → Type 0
IsPlaced before [] = Unit
IsPlaced before ((rank, keys) ∷ groups) =
    (rank ≡ suc before) × IsPlaced (before + length keys) groups

drop-nil : (n : ℕ) → drop n [] ≡ []
drop-nil zero = refl
drop-nil (suc n) = refl

drop-drop : (n m : ℕ) (ns : List ℕ) → drop n (drop m ns) ≡ drop (m + n) ns
drop-drop n zero ns = ap (λ k. drop k ns) (omega arith)
drop-drop n (suc m) [] = drop-nil n ∙ sym (drop-nil (suc m + n)) ∙ ap (λ k. drop k []) (omega arith)
drop-drop n (suc m) (x ∷ ns) = drop-drop n m ns ∙ ap (λ k. drop k (x ∷ ns)) shifted
  where
    shifted : suc (m + n) ≡ suc m + n
    shifted = omega arith

take-drop : (n : ℕ) (ns : List ℕ) → sum (take n ns) + sum (drop n ns) ≡ sum ns
unfolding sum
take-drop zero ns = omega arith
take-drop (suc n) [] = refl
take-drop (suc n) (x ∷ ns) = omega (arith, take-drop n ns)

-- What the groups from a place on share out: the first one and the others.
shares_split :
    (shares : List ℕ) (before rank : ℕ) (keys : List String)
    → rank ≡ suc before
    → group_share shares (rank, keys) + sum (drop (before + length keys) shares)
      ≡ sum (drop before shares)
shares_split shares before rank keys h =
    let at_place : rank - 1 ≡ before = omega (arith, h) in
    ap (λ k. sum (take (length keys) (drop k shares)) + sum (drop (before + length keys) shares))
      at_place
    ∙ ap (λ ns. sum (take (length keys) (drop before shares)) + sum ns)
        (sym (drop-drop (length keys) before shares))
    ∙ take-drop (length keys) (drop before shares)

-- A group is paid at most its part of the prizes.
group_paid :
    (prize total : ℕ) (shares : List ℕ) (g : Group)
    → total * (length g.1 * each_of prize total shares g) ≤ prize * group_share shares g
group_paid prize total shares g =
    omega (arith, div-mul-le_self (prize * group_share shares g) (total * length g.1))

paid_next :
    (prize total : ℕ) (shares : List ℕ) (g : Group) (groups : List Group)
    → (pay_groups prize total shares (g ∷ groups)).1
      ≤ length g.1 * each_of prize total shares g + (pay_groups prize total shares groups).1
unfolding pay_groups
paid_next prize total shares g groups = elim (Bool-cases (group_share shares g == 0)) [
  | inl unpaid ↦ rw unpaid (omega arith)
  | inr other ↦ rw other (omega arith)
]

-- What the groups are paid, against what is left of the shares.
pay_groups-le :
    (prize total : ℕ) (shares : List ℕ) (before : ℕ) (groups : List Group)
    → IsPlaced before groups
    → total * (pay_groups prize total shares groups).1 ≤ prize * sum (drop before shares)
unfolding IsPlaced
pay_groups-le prize total shares before [] h = unfold pay_groups in omega arith
pay_groups-le prize total shares before ((rank, keys) ∷ groups) h = omega (
  arith,
  mul-le-mul_left total (paid_next prize total shares (rank, keys) groups),
  group_paid prize total shares (rank, keys),
  pay_groups-le prize total shares (before + length keys) groups h.1,
  ap (λ n. prize * n) (shares_split shares before rank keys h.0),
)

-- The sum of the entries.
unfoldable pub total_paid : List (String × ℕ) → ℕ
total_paid [] = 0
total_paid ((k, amount) ∷ entries) = amount + total_paid entries

pay_keys-total :
    (amount : ℕ) (keys : List String) (entries : List (String × ℕ))
    → total_paid (pay_keys amount keys ++ entries) ≡ length keys * amount + total_paid entries
unfolding total_paid
pay_keys-total amount [] entries = omega arith
pay_keys-total amount (k ∷ keys) entries = omega (arith, pay_keys-total amount keys entries)

pay_groups-total :
    (prize total : ℕ) (shares : List ℕ) (groups : List Group)
    → total_paid (pay_groups prize total shares groups).0 ≡ (pay_groups prize total shares groups).1
unfolding pay_groups
pay_groups-total prize total shares [] = unfold total_paid in refl
pay_groups-total prize total shares (g ∷ groups) = elim (Bool-cases (group_share shares g == 0)) [
  | inl unpaid ↦ rw unpaid (pay_groups-total prize total shares groups)
  | inr other ↦ rw other (
      pay_keys-total (each_of prize total shares g) g.1 (pay_groups prize total shares groups).0
      ∙ ap (λ n. length g.1 * each_of prize total shares g + n)
          (pay_groups-total prize total shares groups))
]

-- A division of the prizes that pays out what it says, and not more than there is.
abbrev pub IsDivision : ℕ → Payouts → Type 0
IsDivision prize p =
    (total_paid p.by_key ≡ p.paid) × (p.paid ≤ prize) × (p.dust_minor ≡ pos (prize - p.paid))

left_over : (prize paid : ℕ) → paid ≤ prize → sub_ℕ prize paid ≡ pos (prize - paid)
left_over prize paid h = ground (arith, h)

-- For a leaderboard in standard competition ranking, whatever the prize pool and the shares: the
-- payouts add up to what is paid, that is never more than the pool, and the dust is the rest.
pub payouts-IsDivision :
    (ranked : List Ranked) (prize : ℕ) (payout_bps : List ℕ)
    → IsPlaced 0 (group_by_rank [] ranked)
    → IsDivision prize (payouts ranked prize payout_bps)
unfolding payouts
payouts-IsDivision ranked prize payout_bps h =
    let shares = paid_shares ranked payout_bps in
    let groups = group_by_rank [] ranked in
    elim (Bool-cases (length shares == 0 || sum shares == 0)) [
      | inl nothing ↦ rw nothing (unfold total_paid in (refl, omega arith, ground arith))
      | inr some_share ↦
          let bound : (pay_groups prize (sum shares) shares groups).1 ≤ prize =
            le_of_mul-le-mul_left {k = sum shares}
              (omega (arith, pay_groups-le prize (sum shares) shares 0 groups h))
              (ground (arith, some_share)) in
          rw some_share
            (pay_groups-total prize (sum shares) shares groups, bound, left_over prize _ bound)
    ]
