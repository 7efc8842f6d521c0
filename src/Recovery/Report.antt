-- ===== src/Recovery/Report.antt =====
-- What the report of a recovery run counts.
use crash_game.Prelude.{
  ℕ, suc, ◌+◌, ◌≡◌, refl, ap, ◌∙◌, take, filter, String, Option, List, [], ◌∷◌, length, arith,
  Bool-cases, inl, inr, any, str_eq, if◌then◌else◌,
}
use crash_game.Prelude.Int.{pos, ◌+ℤ◌, sub_ℕ}
use crash_game.BetState.{pending, rollback_pending, settling}
use crash_game.BetLog.{list_by_state, has_state, order_by_created}
use crash_game.Prelude.Action.{ok, pure, bind_ok}
use crash_game.World.{BetRow, World, Method}
use crash_game.WalletClient.{WalletClient}
use crash_game.Recovery.{
  Verdict, failed, Count, counted, rollback_row, settling_row, pending_row, pending_sweep,
  rollback_sweep, settling_sweep, RecoveryReport, found_only, settling_phase, rollback_phase,
  adjusted, run_recovery,
}
use crash_game.Recovery.Total.{pending_row-Total, rollback_row-Total, settling_row-Total}

-- The rows that a bucket has counted.
abbrev pub handled : Count → ℕ
handled c = c.resolved_count + c.failed_count + c.skipped_count

handled-counted : (v : Verdict) (c : Count) → handled (counted v c) ≡ suc (handled c)
handled-counted v c = ground arith

found-counted : (v : Verdict) (c : Count) → (counted v c).found ≡ c.found
found-counted v c = ground arith

-- The third sweep, whatever the clients answer, returns, and counts every row once: the counters of
-- the bucket go up by the number of rows, and `found` stays.
pub settling_sweep-counts :
    (client_for : String → Option WalletClient) (rows : List BetRow) (c : Count) (w : World)
    → (c' : Count) × (w' : World) × (settling_sweep client_for rows c w ≡ (ok c', w'))
      × (handled c' ≡ handled c + length rows)
      × (c'.found ≡ c.found)
unfolding settling_sweep
settling_sweep-counts client_for [] c w = (c, w, refl, omega arith, refl)
settling_sweep-counts client_for (row ∷ rows) c w =
    let (v, w1, step) = settling_row-Total (client_for row.operator_id) row w in
    let (c', w', done, sum, same) = settling_sweep-counts client_for rows (counted v c) w1 in
    (
      c',
      w',
      bind_ok (settling_row (client_for row.operator_id) row)
            (λ v. settling_sweep client_for rows (counted v c)) step
          ∙ done,
      omega (arith, sum, handled-counted v c),
      same ∙ found-counted v c,
    )

-- Every row of the first sweep is moved or counted as failed.
pending_sweep-counts :
    (rows : List BetRow) (moved_ids : List String) (c : Count) (w : World)
    → (ids : List String) × (c' : Count) × (w' : World) × (pending_sweep rows moved_ids c w
        ≡ (ok (ids, c'), w'))
      × (handled c' + length ids ≡ handled c + length moved_ids + length rows)
      × (c'.found ≡ c.found)
unfolding pending_sweep
pending_sweep-counts [] moved_ids c w = (moved_ids, c, w, refl, omega arith, refl)
pending_sweep-counts (row ∷ rows) moved_ids c w =
    let (b, w1, step) = pending_row-Total row w in
    let (ids, c', w', done, sum, same) =
      pending_sweep-counts rows (if b then row.bet_id ∷ moved_ids else moved_ids)
        (if b then c else counted failed c) w1 in
    (
      ids,
      c',
      w',
      bind_ok (pending_row row)
            (λ has_moved.
              pending_sweep rows (if has_moved then row.bet_id ∷ moved_ids else moved_ids)
                (if has_moved then c else counted failed c))
            step
          ∙ done,
      ground (arith, sum),
      ground (arith, same),
    )

-- Every row of the second sweep is counted in one of the two buckets.
rollback_sweep-counts :
    (client_for : String → Option WalletClient) (ids : List String) (rows : List BetRow)
    (p r : Count) (w : World)
    → (p' r' : Count) × (w' : World) × (rollback_sweep client_for ids rows (p, r) w
        ≡ (ok (p', r'), w'))
      × (handled p' + handled r' ≡ handled p + handled r + length rows)
      × (p'.found ≡ p.found)
unfolding rollback_sweep
rollback_sweep-counts client_for ids [] p r w = (p, r, w, refl, omega arith, refl)
rollback_sweep-counts client_for ids (row ∷ rows) p r w =
    let (v, w1, step) = rollback_row-Total (client_for row.operator_id) row w in
    let next : Verdict → Method (Count × Count) = (λ v.
      rollback_sweep client_for ids rows
        (if any (str_eq row.bet_id) ids then (counted v p, r) else (p, counted v r))) in
    elim (Bool-cases (any (str_eq row.bet_id) ids)) [
      | inl own ↦
          let (p', r', w', done, sum, same) =
            rollback_sweep-counts client_for ids rows (counted v p) r w1 in
          (
            p',
            r',
            w',
            bind_ok (rollback_row (client_for row.operator_id) row) next step ∙ rw own done,
            omega (arith, sum, handled-counted v p),
            same ∙ found-counted v p,
          )
      | inr other ↦
          let (p', r', w', done, sum, same) =
            rollback_sweep-counts client_for ids rows p (counted v r) w1 in
          (
            p',
            r',
            w',
            bind_ok (rollback_row (client_for row.operator_id) row) next step ∙ rw other done,
            omega (arith, sum, handled-counted v r),
            same,
          )
    ]

-- A report whose buckets add up.
abbrev pub AddsUp : RecoveryReport → Type 0
AddsUp report =
    (report.settling_count.found ≡ pos (handled report.settling_count))
    × (report.pending_count.found +ℤ report.rollback_pending_count.found
        ≡ pos (handled report.pending_count + handled report.rollback_pending_count))

all_found : (n : ℕ) (c : Count) → handled c ≡ 0 + 0 + 0 + n → pos n ≡ pos (handled c)
all_found n c h = ground (arith, h)

settling_phase-counts :
    (client_for : String → Option WalletClient) (n : ℕ) (p r : Count) (w : World)
    → p.found +ℤ r.found ≡ pos (handled p + handled r)
    → (report : RecoveryReport) × (w' : World) × (settling_phase client_for n p r w
        ≡ (ok report, w'))
      × AddsUp report
unfolding list_by_state settling_phase
settling_phase-counts client_for n p r w two =
    let rows = take n (order_by_created (filter (has_state settling) w.rows)) in
    let (s, w', done, sum, same) =
      settling_sweep-counts client_for rows (found_only (length rows)) w in
    (
      record { pending_count = p; rollback_pending_count = r; settling_count = s },
      w',
      bind_ok (settling_sweep client_for rows (found_only (length rows)))
          (λ s. pure (record { pending_count = p; rollback_pending_count = r; settling_count = s }))
          done,
      (same ∙ all_found (length rows) s sum, two),
    )

sums :
    (m listed moved p r : ℕ)
    → p + r + moved ≡ m + listed
    → pos m +ℤ sub_ℕ listed moved ≡ pos (p + r)
unfolding ◌+ℤ◌
sums m listed moved p r h = ground (arith, h)

rollback_phase-counts :
    (client_for : String → Option WalletClient) (n m : ℕ) (ids : List String) (p : Count)
    (w : World)
    → p.found ≡ pos m
    → handled p + length ids ≡ m
    → (report : RecoveryReport) × (w' : World) × (rollback_phase client_for n (ids, p) w
        ≡ (ok report, w'))
      × AddsUp report
unfolding list_by_state rollback_phase
rollback_phase-counts client_for n m ids p w first all_moved =
    let rows = take n (order_by_created (filter (has_state rollback_pending) w.rows)) in
    let (p', r', w1, step, sum, same) =
      rollback_sweep-counts client_for ids rows p (found_only (length rows)) w in
    let (report, w', done, adds) =
      settling_phase-counts client_for n p' (adjusted (length rows) ids r') w1 (
        ap (λ x. x +ℤ sub_ℕ (length rows) (length ids)) (same ∙ first)
        ∙ sums m (length rows) (length ids) (handled p') (handled r')
            (omega (arith, sum, all_moved))) in
    (
      report,
      w',
      bind_ok (rollback_sweep client_for ids rows (p, found_only (length rows)))
            (λ buckets.
              settling_phase client_for n buckets.0 (adjusted (length rows) ids buckets.1))
            step
          ∙ done,
      adds,
    )

-- A recovery run, whatever the log holds, whatever the clients answer and whichever calls throw,
-- returns a report, it never throws; in it the rows found `SETTLING` are those counted as resolved,
-- failed or skipped, and the rows found `PENDING` and `ROLLBACK_PENDING` together are those counted
-- in the two buckets together.
pub run_recovery-AddsUp :
    (client_for : String → Option WalletClient) (max_per_state : ℕ) (w : World)
    → (report : RecoveryReport) × (w' : World) × (run_recovery client_for max_per_state w
        ≡ (ok report, w'))
      × AddsUp report
unfolding run_recovery list_by_state
run_recovery-AddsUp client_for n w =
    let rows = take n (order_by_created (filter (has_state pending) w.rows)) in
    let (ids, p, w1, step, sum, same) = pending_sweep-counts rows [] (found_only (length rows)) w in
    let (report, w', done, adds) =
      rollback_phase-counts client_for n (length rows) ids p w1 same (omega (arith, sum)) in
    (
      report,
      w',
      bind_ok (pending_sweep rows [] (found_only (length rows))) (rollback_phase client_for n) step
          ∙ done,
      adds,
    )
