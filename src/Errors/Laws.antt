-- ===== src/Errors/Laws.antt =====
-- How the operator's answers are classified.
use crash_game.Prelude.{ℕ, ◌≤◌, ◌<◌, ◌≡◌, ◌↔◌, ◌⊎◌, true, arith}
use crash_game.Errors.{Json, wallet_error_from_response, is_confirmed_rejection}

-- An error built from an operator's answer is a confirmed rejection exactly for the statuses 400 to
-- 499, and is retried exactly for 429 and from 500 on: so 429 is the one status at which both hold.
wallet_error_from_response_class :
    (status : ℕ) (body : Json)
    → let e = wallet_error_from_response status body in
      ((is_confirmed_rejection e ≡ true) ↔ ((400 ≤ status) × (status < 500)))
      × ((e.retryable ≡ true) ↔ ((status ≡ 429) ⊎ (500 ≤ status)))
unfolding wallet_error_from_response is_confirmed_rejection
wallet_error_from_response_class status body = ground arith
