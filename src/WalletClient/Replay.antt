-- ===== src/WalletClient/Replay.antt =====
-- `withIdempotency`: one transaction id has one recorded outcome, and later calls replay it.
use crash_game.Prelude.{
  String, ◌≡◌, refl, sym, ◌∙◌, ap, Bool, true, false, none, some, List, [], ◌∷◌, str_eq, eq_iff,
  arith, find, if◌then◌else◌,
}
use crash_game.Prelude.Action.{Result, ok, err}
use crash_game.Errors.{WalletError, wallet_error, is_confirmed_rejection}
use crash_game.World.{
  IdempotencyEntry, TxnKind, WalletResponse, Envelope, World, Thrown, Method, wallet_failure,
  idempotency_mismatch,
}
use crash_game.BetLog.{get_idempotency, has_key, CreateBetInput, SideData, create, transition}
use crash_game.BetState.{BetEvent}
use crash_game.BetLog.Outcomes.{missing, refused, moved, transition-Outcome}
use crash_game.BetLog.Histories.{
  LogCall, create_call, transition_call, put_call, time_call, after_call, after_calls,
}
use crash_game.BetLog.Idempotency.{entry_of, put_idempotency_lem}
use crash_game.WalletClient.{
  with_idempotency, record_outcome, rejection_envelope, replayed, confirmed, entry,
}

-- An outcome that settles the transaction: an answer, or a confirmed rejection.
abbrev pub is_settling : Result Thrown WalletResponse → Bool
is_settling (ok _) = true
is_settling (err (wallet_failure e)) = is_confirmed_rejection e
is_settling (err _) = false

confirmed_name : (e : WalletError) → is_confirmed_rejection e ≡ true → e.name ≡ wallet_error
unfolding is_confirmed_rejection
confirmed_name e h = ground arith

-- A confirmed rejection is of the class `WalletError` itself, so its envelope loses nothing.
replayed-rejection_envelope :
    (e : WalletError)
    → is_confirmed_rejection e ≡ true
    → replayed (rejection_envelope e) ≡ err (wallet_failure e)
replayed-rejection_envelope e h =
    λ i. err (wallet_failure (record e { name = sym (confirmed_name e h) i }))

module _ (op hash : String) (kind : TxnKind) (txn : String) where
  -- The call with nothing recorded for its key.
  with_idempotency-new :
      (exec : Method WalletResponse) (w : World)
      → entry_of w op txn ≡ none
      → with_idempotency op hash kind txn exec w ≡ (
        (exec w).0,
        elim (exec w).0 [
          | ok v ↦ record_outcome op hash kind txn (Envelope.value v) (exec w).1
          | err t ↦ elim (confirmed t) [
            | none ↦ (exec w).1
            | some e ↦ record_outcome op hash kind txn (rejection_envelope e) (exec w).1
          ]
        ],
      )
  unfolding with_idempotency get_idempotency
  with_idempotency-new exec w h = ground arith

  with_idempotency-recorded :
      (exec : Method WalletResponse) (w : World) (x : IdempotencyEntry)
      → entry_of w op txn ≡ some x
      → with_idempotency op hash kind txn exec w ≡ (
        if str_eq x.request_hash hash
            then replayed x.response_json
            else err (idempotency_mismatch txn),
        w,
      )
  unfolding with_idempotency get_idempotency
  with_idempotency-recorded exec w x h = ground arith

  entry_of-record_outcome :
      (json : Envelope) (w : World)
      → entry_of w op txn ≡ none
      → entry_of (record_outcome op hash kind txn json w) op txn
        ≡ some (entry op hash kind txn json w)
  entry_of-record_outcome json w h = ground (
    arith,
    (put_idempotency_lem (entry op hash kind txn json w) w op txn).0,
    eq_iff txn txn,
    eq_iff op op,
  )

-- An outcome that settles the transaction is recorded for good.
recorded_of_settling :
    (op hash : String) (kind : TxnKind) (txn : String) (exec : Method WalletResponse) (w : World)
    → entry_of w op txn ≡ none
    → entry_of (exec w).1 op txn ≡ none
    → is_settling (exec w).0 ≡ true
    → (x : IdempotencyEntry) × (entry_of (with_idempotency op hash kind txn exec w).1 op txn
        ≡ some x)
      × (x.request_hash ≡ hash)
      × (replayed x.response_json ≡ (exec w).0)
recorded_of_settling op hash kind txn exec w h h' settles =
    rw (with_idempotency-new op hash kind txn exec w h) (go (exec w).0 refl settles)
  where
    go :
        (r : Result Thrown WalletResponse)
        → (exec w).0 ≡ r
        → is_settling r ≡ true
        → (x : IdempotencyEntry) × (entry_of
              (elim r [
                | ok v ↦ record_outcome op hash kind txn (Envelope.value v) (exec w).1
                | err t ↦ elim (confirmed t) [
                  | none ↦ (exec w).1
                  | some e ↦ record_outcome op hash kind txn (rejection_envelope e) (exec w).1
                ]
              ])
              op
              txn
            ≡ some x)
          × (x.request_hash ≡ hash)
          × (replayed x.response_json ≡ r)
    go (ok v) e s = (
      entry op hash kind txn (Envelope.value v) (exec w).1,
      entry_of-record_outcome op hash kind txn (Envelope.value v) (exec w).1 h',
      refl,
      refl,
    )
    go (err (wallet_failure x)) e s = (
      entry op hash kind txn (rejection_envelope x) (exec w).1,
      rw s (entry_of-record_outcome op hash kind txn (rejection_envelope x) (exec w).1 h'),
      refl,
      replayed-rejection_envelope x s,
    )
    go (err _) e s = absurd (ground arith)

transition_keeps_entries :
    (k : String) (e : BetEvent) (side : SideData) (w : World)
    → (transition k e side w).1.idempotency ≡ w.idempotency
transition_keeps_entries k e side w = elim (transition-Outcome k e side w) [
  | missing _ same ↦ rw same
  | refused _ _ _ _ same ↦ rw same
  | moved _ _ _ _ done ↦ rw done
]

create_keeps_entries :
    (input : CreateBetInput) (w : World) → (create input w).1.idempotency ≡ w.idempotency
unfolding create
create_keeps_entries input w = ground arith

call_keeps_entry :
    (op txn : String) (c : LogCall) (w : World) (x : IdempotencyEntry)
    → entry_of w op txn ≡ some x
    → entry_of (after_call c w) op txn ≡ some x
unfolding after_call
call_keeps_entry op txn (create_call input) w x h =
    ap (find (has_key op txn)) (create_keeps_entries input w) ∙ h
call_keeps_entry op txn (transition_call k e side) w x h =
    ap (find (has_key op txn)) (transition_keeps_entries k e side w) ∙ h
call_keeps_entry op txn (put_call new) w x h = (put_idempotency_lem new w op txn).0 ∙ rw h
call_keeps_entry op txn (time_call t) w x h = h

calls_keep_entry :
    (op txn : String) (calls : List LogCall) (w : World) (x : IdempotencyEntry)
    → entry_of w op txn ≡ some x
    → entry_of (after_calls calls w) op txn ≡ some x
unfolding after_calls
calls_keep_entry op txn [] w x h = h
calls_keep_entry op txn (c ∷ calls) w x h =
    calls_keep_entry op txn calls (after_call c w) x (call_keeps_entry op txn c w x h)

-- Once a call of the operator has been answered with success, or with a confirmed rejection, when
-- the log had no outcome for its transaction id before the call and no other handler recorded one
-- while it was pending, and whatever the other handlers have written to the log since: another call
-- with the same transaction id and fingerprint returns or throws the very same outcome and sends
-- nothing (`exec'` is not run and the world stays as it is); with another fingerprint it throws a
-- mismatch.
pub with_idempotency_replays :
    (op hash hash' : String) (kind kind' : TxnKind) (txn : String)
    → (exec exec' : Method WalletResponse) (w : World) (calls : List LogCall)
    → entry_of w op txn ≡ none
    → entry_of (exec w).1 op txn ≡ none
    → is_settling (exec w).0 ≡ true
    → let w' = after_calls calls (with_idempotency op hash kind txn exec w).1 in
      with_idempotency op hash' kind' txn exec' w'
      ≡ (if str_eq hash hash' then (exec w).0 else err (idempotency_mismatch txn), w')
with_idempotency_replays op hash hash' kind kind' txn exec exec' w calls h h' settles =
    let (x, recorded, same_hash, same) =
      recorded_of_settling op hash kind txn exec w h h' settles in
    with_idempotency-recorded op hash' kind' txn exec'
      (after_calls calls (with_idempotency op hash kind txn exec w).1) x
      (calls_keep_entry op txn calls (with_idempotency op hash kind txn exec w).1 x recorded)
    ∙ λ i. (
      if str_eq (same_hash i) hash' then same i else err (idempotency_mismatch txn),
      after_calls calls (with_idempotency op hash kind txn exec w).1,
    )

unrecorded :
    (r : Result Thrown WalletResponse) (w : World) (op hash : String) (kind : TxnKind)
    (txn : String)
    → is_settling r ≡ false
    → (elim r [
      | ok v ↦ record_outcome op hash kind txn (Envelope.value v) w
      | err t ↦ elim (confirmed t) [
        | none ↦ w
        | some e ↦ record_outcome op hash kind txn (rejection_envelope e) w
      ]
    ])
      ≡ w
unrecorded (ok v) w op hash kind txn h = absurd (ground arith)
unrecorded (err (wallet_failure x)) w op hash kind txn h = rw h
unrecorded (err _) w op hash kind txn h = refl

-- After an ambiguous failure (of the network, a signature, or a status that is no 4xx) nothing is
-- recorded, so that the call can be sent again; the error is thrown as it is.
with_idempotency_ambiguous :
    (op hash : String) (kind : TxnKind) (txn : String) (exec : Method WalletResponse) (w : World)
    → entry_of w op txn ≡ none
    → is_settling (exec w).0 ≡ false
    → with_idempotency op hash kind txn exec w ≡ exec w
with_idempotency_ambiguous op hash kind txn exec w h ambiguous =
    with_idempotency-new op hash kind txn exec w h
    ∙ ap (λ world. ((exec w).0, world))
        (unrecorded (exec w).0 (exec w).1 op hash kind txn ambiguous)
