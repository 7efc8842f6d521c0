-- ===== src/Recovery/Total.antt =====
-- The steps of a recovery run return, whatever happens in them.
use crash_game.Prelude.{ℕ, ◌≡◌, refl, ◌∙◌, String, false, Option, some, none}
use crash_game.Prelude.Action.{Result, ok, err, try_catch, pure, ◌>>=◌, bind_ok, try_ok, try_err}
use crash_game.World.{BetRow, World, Thrown, Method, wallet_failure}
use crash_game.WalletClient.{WalletClient}
use crash_game.Recovery.{
  failed, skipped, give_up, not_moved, rollback_row, settling_row, pending_row, settling_fields,
  settling_catch,
}

-- A method that returns whatever happens in it.
abbrev pub Total : {A : Type 0} → Method A → Type 0
Total {A} m = (w : World) → (a : A) × (w' : World) × (m w ≡ (ok a, w'))

caught-Total :
    {A : Type 0} (m : Method A) (handler : Thrown → Method A)
    → ((e : Thrown) → Total (handler e))
    → Total (try_catch m handler)
caught-Total {A} m handler rest w = go (m w).0 refl
  where
    go :
        (r : Result Thrown A)
        → (m w).0 ≡ r
        → (a : A) × (w' : World) × (try_catch m handler w ≡ (ok a, w'))
    go (ok a) e = (a, (m w).1, try_ok m handler (λ i. (e i, (m w).1)))
    go (err x) e =
        let (a, w', done) = rest x (m w).1 in
        (a, w', try_err m handler (λ i. (e i, (m w).1)) ∙ done)

bound-Total :
    {A B : Type 0} (m : Method A) (f : A → Method B)
    → Total m
    → ((a : A) → Total (f a))
    → Total (m >>= f)
bound-Total m f first rest w =
    let (a, w', step) = first w in
    let (b, w'', done) = rest a w' in (b, w'', bind_ok m f step ∙ done)

pure-Total : {A : Type 0} (a : A) → Total (pure a)
pure-Total a w = (a, w, refl)

pub pending_row-Total : (row : BetRow) → Total (pending_row row)
unfolding pending_row
pending_row-Total row = caught-Total _ not_moved (λ e. pure-Total false)

pub rollback_row-Total :
    (client : Option WalletClient) (row : BetRow) → Total (rollback_row client row)
unfolding rollback_row
rollback_row-Total none row = pure-Total skipped
rollback_row-Total (some client) row = caught-Total _ give_up (λ e. pure-Total failed)

settling_catch-Total :
    (row : BetRow) (win_txn_id : String) (e : Thrown) → Total (settling_catch row win_txn_id e)
settling_catch-Total row win_txn_id (wallet_failure e) =
    caught-Total _ give_up (λ e. pure-Total failed)
settling_catch-Total row win_txn_id _ = pure-Total failed

settling_fields-Total :
    (client : Option WalletClient) (row : BetRow) (a : Option String) (b c : Option ℕ)
    → Total (settling_fields client row a b c)
settling_fields-Total client row none b c = pure-Total skipped
settling_fields-Total client row (some t) none c = pure-Total skipped
settling_fields-Total client row (some t) (some n) none = pure-Total skipped
settling_fields-Total none row (some t) (some n) (some m) = pure-Total skipped
settling_fields-Total (some client) row (some t) (some n) (some m) =
    caught-Total _ (settling_catch row t) (settling_catch-Total row t)

pub settling_row-Total :
    (client : Option WalletClient) (row : BetRow) → Total (settling_row client row)
unfolding settling_row
settling_row-Total client row = settling_fields-Total client row _ _ _
