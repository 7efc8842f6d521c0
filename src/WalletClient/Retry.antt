-- ===== src/WalletClient/Retry.antt =====
-- `executeWithRetry` against a server that answers by a script: how many requests it sends, how
-- long it waits between them, and what it returns.
use crash_game.Prelude.{
  ℕ, zero, suc, ◌+◌, ◌<◌, ◌≡◌, ◌∙◌, Bool, true, false, Option, none, some, List, [], ◌∷◌, ltb,
  arith, length, All, if◌then◌else◌,
}
use mathlib.Core.Path.{subst}
use crash_game.Prelude.Action.{Result, ok, err, Action}
use crash_game.Errors.{WalletError, network_error}
use crash_game.World.{Thrown, wallet_failure, plain_error, message_of}
use crash_game.WalletClient.{EndpointPolicy, backoff_for_attempt, attempts, execute_with_retry}

-- The answers that are still to come, and the pauses so far, the latest first.
abbrev pub Script : Type 0 → Type 0
Script A = List (Result Thrown A) × List ℕ

module _ {A : Type 0} where
  abbrev pub answer : Action (Script A) Thrown A
  answer ([], waits) = (err (plain_error "no answer"), ([], waits))
  answer (o ∷ rest, waits) = (o, (rest, waits))

  abbrev pub wait : ℕ → Script A → Script A
  wait delay (answers, waits) = (answers, delay ∷ waits)

  -- Retryable failures followed by other answers.
  abbrev pub fails : List WalletError → List (Result Thrown A) → List (Result Thrown A)
  fails [] rest = rest
  fails (e ∷ es) rest = err (wallet_failure e) ∷ fails es rest

  abbrev pub is_retried : Result Thrown A → Bool
  is_retried (err (wallet_failure e)) = e.retryable
  is_retried _ = false

  -- What the caller gets for a last answer: what is no `WalletError` is wrapped.
  abbrev pub delivered : Result Thrown A → Result Thrown A
  delivered (ok a) = ok a
  delivered (err (wallet_failure e)) = err (wallet_failure e)
  delivered (err other) = err (wallet_failure (network_error (message_of other)))

abbrev pub IsRetryable : WalletError → Type 0
IsRetryable e = e.retryable ≡ true

-- The pauses after `n` failures from the attempt on, put in front of earlier ones.
abbrev pub waits_from : EndpointPolicy → (attempt n : ℕ) → List ℕ → List ℕ
waits_from policy attempt zero waits = waits
waits_from policy attempt (suc n) waits = waits_from policy (attempt + 1) n (
    if ltb 0 (backoff_for_attempt policy attempt)
    then backoff_for_attempt policy attempt ∷ waits
    else waits)

module _ {A : Type 0} (policy : EndpointPolicy) where
  -- A retryable failure with an attempt left to come costs one pause.
  attempts_next :
      (e : WalletError) (more : List (Result Thrown A)) (left attempt : ℕ)
      → (last : Option WalletError) (waits : List ℕ) → e.retryable ≡ true
      → attempt < policy.max_attempts
      → attempts wait policy answer (suc left) attempt last (err (wallet_failure e) ∷ more, waits)
        ≡ attempts wait policy answer left
            (attempt + 1)
            (some e)
            (more, waits_from policy attempt 1 waits)
  unfolding attempts
  attempts_next e more left attempt last waits h lt = ground arith

  -- On the last attempt a retryable failure is thrown with no pause.
  attempts_last :
      (e : WalletError) (more : List (Result Thrown A)) (attempt : ℕ)
      → (last : Option WalletError) (waits : List ℕ) → e.retryable ≡ true
      → attempt ≡ policy.max_attempts
      → attempts wait policy answer 1 attempt last (err (wallet_failure e) ∷ more, waits)
        ≡ (err (wallet_failure e), (more, waits))
  unfolding attempts
  attempts_last e more attempt last waits h eq = ground arith

  attempts_final :
      (es : List WalletError) (o : Result Thrown A) (rest : List (Result Thrown A))
      → (left attempt : ℕ) (last : Option WalletError) (waits : List ℕ) → All IsRetryable es
      → is_retried o ≡ false
      → length es < left
      → attempt + left ≡ policy.max_attempts + 1
      → attempts wait policy answer left attempt last (fails es (o ∷ rest), waits)
        ≡ (delivered o, (rest, waits_from policy attempt (length es) waits))
  attempts_final es o rest zero attempt last waits h f lt sum = absurd (omega arith)
  attempts_final [] o rest (suc left) attempt last waits h f lt sum =
      unfold attempts in ground arith
  attempts_final (e ∷ es) o rest (suc left) attempt last waits h f lt sum =
      attempts_next e (fails es (o ∷ rest)) left attempt last waits h.0 (omega arith)
      ∙ attempts_final es o rest left (attempt + 1) (some e) (waits_from policy attempt 1 waits) h.1
          f (omega arith) (omega arith)

  attempts_exhausted :
      (es : List WalletError) (e : WalletError) (rest : List (Result Thrown A))
      → (attempt : ℕ) (last : Option WalletError) (waits : List ℕ) → All IsRetryable es
      → e.retryable ≡ true
      → attempt + length es ≡ policy.max_attempts
      → attempts wait policy answer
          (suc (length es))
          attempt
          last
          (fails es (err (wallet_failure e) ∷ rest), waits)
        ≡ (err (wallet_failure e), (rest, waits_from policy attempt (length es) waits))
  attempts_exhausted [] e rest attempt last waits h he sum =
      attempts_last e rest attempt last waits he (omega arith)
  attempts_exhausted (x ∷ es) e rest attempt last waits h he sum =
      attempts_next x (fails es (err (wallet_failure e) ∷ rest)) (suc (length es)) attempt last
        waits h.0 (omega arith)
      ∙ attempts_exhausted es e rest (attempt + 1) (some x) (waits_from policy attempt 1 waits) h.1
          he (omega arith)

  -- After fewer retryable failures than the policy has attempts, the first other answer is what the
  -- caller gets (a success as it is, an error that is no `WalletError` wrapped as a network error);
  -- no further request is sent, and the pauses are the policy's, one for each failure.
  execute_with_retry-final :
      (es : List WalletError) (o : Result Thrown A) (rest : List (Result Thrown A))
      → All IsRetryable es
      → is_retried o ≡ false
      → length es < policy.max_attempts
      → execute_with_retry wait policy answer (fails es (o ∷ rest), [])
        ≡ (delivered o, (rest, waits_from policy 1 (length es) []))
  unfolding execute_with_retry
  execute_with_retry-final es o rest h f lt =
      attempts_final es o rest policy.max_attempts 1 none [] h f lt (omega arith)

  -- When every attempt of the policy fails with a retryable error, the last of the errors is thrown,
  -- exactly `maxAttempts` requests were sent, and there was a pause after each but the last.
  execute_with_retry-exhausted :
      (es : List WalletError) (e : WalletError) (rest : List (Result Thrown A))
      → All IsRetryable es
      → e.retryable ≡ true
      → suc (length es) ≡ policy.max_attempts
      → execute_with_retry wait policy answer (fails es (err (wallet_failure e) ∷ rest), [])
        ≡ (err (wallet_failure e), (rest, waits_from policy 1 (length es) []))
  unfolding execute_with_retry
  execute_with_retry-exhausted es e rest h he sum =
      subst
        (λ left.
          attempts wait policy answer left 1 none (fails es (err (wallet_failure e) ∷ rest), [])
          ≡ (err (wallet_failure e), (rest, waits_from policy 1 (length es) [])))
        sum (attempts_exhausted es e rest 1 none [] h he (omega arith))
