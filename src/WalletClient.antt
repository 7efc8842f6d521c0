-- ===== src/WalletClient.antt =====
-- packages/wallet/src/client.ts, with the request types of client-types.ts: the calls of an
-- operator's wallet, retried and made idempotent. One HTTP exchange (`doRequest`) is a parameter of
-- the definitions, and so are the hash of a payload and the pause between two attempts.
pub mod Retry
pub mod Replay
use crash_game.Prelude.{
  ℕ, zero, suc, ◌+◌, ◌-◌, String, Bool, true, false, Option, none, some, List, [], ◌∷◌, ltb, leb,
  str_eq, if◌then◌else◌,
}
use crash_game.Prelude.Action.{Result, ok, err, Action, try_catch, ◌>>=◌, throw, pure}
use crash_game.Errors.{Json, WalletError, wallet_error, network_error, is_confirmed_rejection}
use crash_game.World.{
  IdempotencyEntry, TxnKind, WalletResponse, Envelope, World, Thrown, Method, wallet_failure,
  idempotency_mismatch, plain_error, message_of,
}
use crash_game.BetLog.{get_idempotency, put_idempotency}

-- `BetRequest`. A volatile field is absent in the copy that is fingerprinted.
pub record BetRequest : Type 0 where
  pub player_id : String
  pub session_id : String
  pub round_id : String
  pub bet_id : String
  pub txn_id : String
  pub amount_minor : ℕ
  pub currency : String
  pub game_id : String
  pub placed_at : Option ℕ

-- `WinRequest`
pub record WinRequest : Type 0 where
  pub player_id : String
  pub session_id : String
  pub round_id : String
  pub bet_id : String
  pub bet_txn_id : String
  pub txn_id : String
  pub amount_minor : ℕ
  pub multiplier : ℕ
  pub currency : String
  pub settled_at : Option ℕ

-- `RollbackRequest`
pub record RollbackRequest : Type 0 where
  pub player_id : String
  pub bet_txn_id : String
  pub txn_id : String
  pub reason : String

pub data Payload : Type 0 where
  bet : BetRequest → Payload
  win : WinRequest → Payload
  rollback : RollbackRequest → Payload

-- `delete clone[k]` for the keys of `VOLATILE_FINGERPRINT_KEYS`
unfoldable pub without_volatile : Payload → Payload
without_volatile (bet r) = bet (record r { placed_at = none })
without_volatile (win r) = win (record r { settled_at = none })
without_volatile (rollback r) = rollback r

-- `idempotencyFingerprint`, over the hash of a value's JSON text
unfoldable pub idempotency_fingerprint : (Payload → String) → Payload → String
unfolding without_volatile
idempotency_fingerprint sha256_json payload = sha256_json (without_volatile payload)

-- `EndpointPolicy`
pub record EndpointPolicy : Type 0 where
  pub timeout_ms : ℕ
  pub max_attempts : ℕ
  pub backoff_ms : List ℕ

-- `ENDPOINT_POLICIES`; the attempts of a rollback are an option of the client.
abbrev pub bet_policy : EndpointPolicy
bet_policy = record { timeout_ms = 10000; max_attempts = 4; backoff_ms = 500 ∷ 1500 ∷ 4000 ∷ [] }

abbrev pub win_policy : EndpointPolicy
win_policy = record {
  timeout_ms = 10000;
  max_attempts = 6;
  backoff_ms = 500 ∷ 1000 ∷ 2000 ∷ 5000 ∷ 15000 ∷ [];
}

abbrev pub rollback_policy : ℕ → EndpointPolicy
rollback_policy max_rollback_attempts = record {
  timeout_ms = 10000;
  max_attempts = max_rollback_attempts;
  backoff_ms = 1000 ∷ 5000 ∷ 30000 ∷ [];
}

-- The element at an index, or the last one.
abbrev pub at_or_last : ℕ → ℕ → List ℕ → ℕ
at_or_last last i [] = last
at_or_last last zero (d ∷ ds) = d
at_or_last last (suc i) (d ∷ ds) = at_or_last d i ds

-- `backoffForAttempt`
unfoldable pub backoff_for_attempt : EndpointPolicy → ℕ → ℕ
backoff_for_attempt policy attempt_number = at_or_last 0 (attempt_number - 1) policy.backoff_ms

-- `if (delay > 0) await this.sleep(delay)`
abbrev pub pause : {S : Type 0} → (ℕ → S → S) → ℕ → S → S
pause sleep delay s = if ltb 0 delay then sleep delay s else s

module _ {S A : Type 0} (sleep : ℕ → S → S) where
  -- The loop of `executeWithRetry`: `left` attempts remain, and `attempt` is the next one.
  unfoldable pub attempts :
      EndpointPolicy → Action S Thrown A → ℕ → ℕ → Option WalletError → Action S Thrown A
  attempts policy do_request zero attempt none s = (err (plain_error "undefined"), s)
  attempts policy do_request zero attempt (some last_error) s = (err (wallet_failure last_error), s)
  attempts policy do_request (suc left) attempt last s =
      let (r, s') = do_request s in
      elim r [
        | ok a ↦ (ok a, s')
        | err (wallet_failure e) ↦ elim e.retryable [
          | false ↦ (err (wallet_failure e), s')
          | true ↦ attempts policy do_request left (attempt + 1) (some e) (
              if ltb attempt policy.max_attempts
              then pause sleep (backoff_for_attempt policy attempt) s'
              else s')
        ]
        | err other ↦ (err (wallet_failure (network_error (message_of other))), s')
      ]

  -- `executeWithRetry`
  unfoldable pub execute_with_retry : EndpointPolicy → Action S Thrown A → Action S Thrown A
  unfolding attempts
  execute_with_retry policy do_request = attempts policy do_request policy.max_attempts 1 none

-- `{ ok: true, value: result }`, or `{ ok: false, error }` of a confirmed rejection
abbrev pub rejection_envelope : WalletError → Envelope
rejection_envelope e = Envelope.error e.code e.message e.http_status e.retryable e.balance_minor

-- What a recorded outcome replays: the value, or `new WalletError(envelope.error)`.
abbrev pub replayed : Envelope → Result Thrown WalletResponse
replayed (Envelope.value v) = ok v
replayed (Envelope.error code message http_status retryable balance_minor) = err (
    wallet_failure (record {
      name = wallet_error;
      code = code;
      message = message;
      http_status = http_status;
      retryable = retryable;
      balance_minor = balance_minor;
    }))

-- `isConfirmedRejection` of whatever was thrown
abbrev pub confirmed : Thrown → Option WalletError
confirmed (wallet_failure e) = if is_confirmed_rejection e then some e else none
confirmed _ = none

module _ (operator_id request_hash : String) (kind : TxnKind) (txn_id : String) where
  abbrev pub entry : Envelope → World → IdempotencyEntry
  entry response_json w = record {
    txn_id = txn_id;
    operator_id = operator_id;
    kind = kind;
    request_hash = request_hash;
    response_json = response_json;
    created_at = w.now;
  }

  -- `try { await putIdempotency(…) } catch { }`: what it throws is only logged.
  abbrev pub record_outcome : Envelope → World → World
  record_outcome response_json w = (put_idempotency (entry response_json w) w).1

  -- `withIdempotency` of a client that has a bet log
  unfoldable pub with_idempotency : Method WalletResponse → Method WalletResponse
  with_idempotency exec w = elim (get_idempotency operator_id txn_id w).0 [
    | err e ↦ (err e, w)
    | ok (some existing) ↦ (
      if str_eq existing.request_hash request_hash
          then replayed existing.response_json
          else err (idempotency_mismatch txn_id),
      w,
    )
    | ok none ↦
        let (r, w') = exec w in
        elim r [
          | ok result ↦ (ok result, record_outcome (Envelope.value result) w')
          | err thrown ↦ (
            err thrown,
            elim (confirmed thrown) [
              | none ↦ w'
              | some e ↦ record_outcome (rejection_envelope e) w'
            ],
          )
        ]
  ]

-- What the server's other components use of a client.
pub record WalletClient : Type 0 where
  pub bet : BetRequest → Method WalletResponse
  pub win : WinRequest → Method WalletResponse
  pub rollback : RollbackRequest → Method WalletResponse

-- `new WalletClient(operator, { betLog, … })` with its three idempotent methods
module _ (operator_id : String) (sha256_json : Payload → String) (sleep : ℕ → World → World)
    (max_rollback_attempts : ℕ) (do_request : Payload → Method WalletResponse) where
  unfoldable pub wallet_client : WalletClient
  unfolding execute_with_retry with_idempotency idempotency_fingerprint
  wallet_client = record {
    bet = λ req.
        with_idempotency operator_id (idempotency_fingerprint sha256_json (bet req)) TxnKind.bet
          req.txn_id (execute_with_retry sleep bet_policy (do_request (bet req)));
    win = λ req.
        with_idempotency operator_id (idempotency_fingerprint sha256_json (win req)) TxnKind.win
          req.txn_id (execute_with_retry sleep win_policy (do_request (win req)));
    rollback = λ req.
        with_idempotency operator_id (idempotency_fingerprint sha256_json (rollback req))
          TxnKind.rollback req.txn_id
          (execute_with_retry sleep (rollback_policy max_rollback_attempts)
            (do_request (rollback req)));
  }

-- `new WalletClient(operator)` has no bet log: `withIdempotency` only runs the call.
module _ (sleep : ℕ → World → World) (max_rollback_attempts : ℕ)
    (do_request : Payload → Method WalletResponse) where
  unfoldable pub client_without_log : WalletClient
  unfolding execute_with_retry
  client_without_log = record {
    bet = λ req. execute_with_retry sleep bet_policy (do_request (bet req));
    win = λ req. execute_with_retry sleep win_policy (do_request (win req));
    rollback = λ req.
        execute_with_retry sleep (rollback_policy max_rollback_attempts)
          (do_request (rollback req));
  }
