-- ===== src/BetLog/Idempotency.antt =====
-- `txn_idempotency`: the first entry of a key stays, and a second one must carry the same hash.
use crash_game.Prelude.{
  String, ◌≡◌, Option, none, some, List, [], ◌∷◌, ◌++◌, str_eq, eq_iff, arith, find, if◌then◌else◌,
}
use crash_game.Prelude.Action.{ok, err}
use crash_game.World.{IdempotencyEntry, World, idempotency_mismatch}
use crash_game.BetLog.{has_key, put_idempotency}

abbrev pub entry_of : World → String → String → Option IdempotencyEntry
entry_of w op txn = find (has_key op txn) w.idempotency

find-append :
    (op txn : String) (entries : List IdempotencyEntry) (e : IdempotencyEntry)
    → find (has_key op txn) (entries ++ e ∷ []) ≡ (elim (find (has_key op txn) entries) [
      | some x ↦ some x
      | none ↦ if has_key op txn e then some e else none
    ])
find-append op txn [] e = ground arith
find-append op txn (x ∷ entries) e = ground (arith, find-append op txn entries e)

-- After `putIdempotency` the key has the entry that it had before, or the new one if it had none;
-- other keys are as they were; and the call throws exactly if the recorded hash is another one.
pub put_idempotency_lem :
    (entry : IdempotencyEntry) (w : World) (op txn : String)
    → (entry_of (put_idempotency entry w).1 op txn ≡ (elim (entry_of w op txn) [
      | some x ↦ some x
      | none ↦ if has_key op txn entry then some entry else none
    ]))
      × ((put_idempotency entry w).0 ≡ (elim (entry_of w entry.operator_id entry.txn_id) [
        | none ↦ ok tt
        | some x ↦
            if str_eq x.request_hash entry.request_hash
            then ok tt
            else err (idempotency_mismatch entry.txn_id)
      ]))
unfolding put_idempotency
put_idempotency_lem entry w op txn = ground (
  arith,
  find-append op txn w.idempotency entry,
  eq_iff entry.txn_id txn,
  eq_iff entry.operator_id op,
)
