-- ===== src/Lib.antt =====
-- Verification of the money path and the fair-play rules of the crash game server.
--
-- The server places the bets of an operator's players with the operator's wallet over HTTP, keeps
-- a log of every bet in Postgres, and settles, voids or loses each bet by a state machine. After a
-- crash a recovery worker finishes what was left open. Beside it stand a personal ledger for the
-- lobby, the Simulate game (a slip of football bets whose result is drawn and can be verified) and
-- the rules of the fantasy league.
--
-- Which file models what:
--   BetState       packages/wallet/src/state-machine.ts: `transitions` is TRANSITIONS, `next_state`
--                  is nextState, `is_terminal` the set TERMINAL_STATES.
--   Errors         packages/wallet/src/errors.ts; an operator's body is a value of `Json`.
--   World          packages/wallet/src/bet-log.ts and alerter.ts: the rows, the errors and the state
--                  that the handlers share.
--   BetLog         packages/wallet/src/bet-log-pg.ts, the class PgBetLog.
--   WalletClient   packages/wallet/src/client.ts: retries (`execute_with_retry`) and the recorded
--                  outcomes (`with_idempotency`); `wallet_client` puts them together, and
--                  `client_without_log` is what recovery builds. The record
--                  `WalletClient` is the interface that the handlers below take as an argument.
--   Bets           packages/server/src/game/bets.ts: placeOperatorBet and cashOutOperatorBet.
--   VoidBet        the same file: voidOperatorBet.
--   ExpireBets     the same file: expireOperatorBetsOnCrash.
--   Cashout        the same file: tryCashoutBet, cashOutBet and cashOutLobbyBet, with Cashout/Operator
--                  for the choice of a path and an operator's bet.
--   Recovery       packages/wallet/src/recovery.ts: runRecovery.
--   Ledger         packages/wallet/src/wallet-ledger.ts: the class WalletLedger.
--   Withdrawals    packages/wallet/src/withdrawals-repo-pg.ts: the class PgWithdrawalsRepo, over the
--                  ledger.
--   Payout         packages/server/src/payments/withdrawals.ts: the class WithdrawalService, cut at its
--                  awaits, over Withdrawals; Payout/Delivery for the methods in flight.
--   Session        packages/server/src/store.ts: the sessions; with Session/Play for the history, the
--                  statistics and the rate limit of a session.
--   Deposits       packages/wallet/src/deposits-repo.ts: the class PgDepositsRepo; with
--                  Deposits/Webhook for packages/server/src/http/deposit-webhook.ts, whose handler
--                  is cut at its awaits, and Deposits/Delivery for the handlers in flight.
--   Football       packages/shared/src/football.ts: the markets, their index and the score grid.
--   Simulate       packages/shared/src/simulate.ts: drawScore, buildTimeline, halfTimeFrom; with
--                  Simulate/Slip for assertValidSlip and simulateSlip and Simulate/Verify for
--                  verifySlip.
--   Fantasy        packages/shared/src/fantasy.ts: squadIssues, squadPoints; with
--                  Fantasy/Leaderboard for rankByPoints and splitPool and Fantasy/Payouts for
--                  payouts.
--   League         packages/wallet/src/fantasy-league-repo-pg.ts: the class PgFantasyLeagueRepo
--                  over the ledger; with League/Settle for settle.
--   Prelude        shared tests, lists, integers and the monad of methods.
--   Examples       theorems applied to concrete data.
--
-- How the code is modelled. An asynchronous method is a function from a state to a result and a
-- state (`Prelude.Action`): what it wrote before it threw stays written, and `try` and `catch` are
-- `try_catch`. The state of the money path is `World`: the rows of bet_log and txn_idempotency, the
-- alerts emitted, and the clock. A database method is one step on it. Other handlers run only while
-- a wallet call is waiting, so a client is an arbitrary function on worlds, and a theorem says what
-- it needs of the row when the call returns; expireOperatorBetsOnCrash also takes what they write
-- before each of its own writes. The database is taken to be available.
--
-- A win is the rounded product of two doubles (`Prelude.Float`), as the code computes it. Amounts
-- are natural numbers of minor units, signed in the ledger; multipliers and odds are in
-- hundredths; a uniform of Simulate is the 52-bit number that the source divides by 2 ^ 52, and a
-- probability or a chance is a number in the unit its comment gives. JSON text is represented by
-- the value it encodes. HTTP, hashes, powers, sleeping and the operator's answers are parameters.
-- Loops are recursions on a list, and the retry loop counts its attempts down from the policy's
-- number, as the source's loop counts up to it. Only the count of a number's binary digits runs on
-- fuel, the number itself, which is enough (`Prelude.Float.bits_enough`).
--
-- Not modelled: the pages and filters that the back office reads, request signing and the HTTP
-- exchange, the client without a bet log, the fitting and pricing of odds by floats, the placing of
-- demo and lobby bets and the timers of the engine, the payment providers, the listings of
-- withdrawals, and the user interfaces. Metrics and log lines have no effect on what is modelled.
pub mod Prelude
pub mod BetState
pub mod Errors
pub mod World
pub mod BetLog
pub mod WalletClient
pub mod Bets
pub mod VoidBet
pub mod ExpireBets
pub mod Ledger
pub mod Withdrawals
pub mod Cashout
pub mod Payout
pub mod Deposits
pub mod Session
pub mod Football
pub mod League
pub mod Simulate
pub mod Recovery
pub mod Fantasy
pub mod Examples
