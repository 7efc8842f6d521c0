-- ===== src/Payout/Steps.antt =====
-- Each step of a method keeps what is known of it, when the answer it gets is true.
use mathlib.Core.Path.{subst}
use crash_game.Prelude.{
  ◌≡◌, refl, sym, ap, ◌∙◌, String, Bool, truthy, starts_with, eq_iff, arith, true, false, Option,
  none, some, List, [], ◌∷◌, ◌++◌, find, All, Bool-cases, Option-cases, inl, inr,
}
use crash_game.Prelude.Action.{Result, ok, err}
use crash_game.Withdrawals.{
  Withdrawal, WithdrawalError, Bank, has_reference, get, is_open, coalesce,
}
use crash_game.Payout.{
  PayoutStatus, pending, success, failed, PayoutResult, PayoutError, rejected, unknown, PayoutEvent,
  PayOutProvider, Answer, Caller, by_initiate, by_webhook, by_reconcile, Task, sending, confirming,
  checking, withdrawal_ref_prefix, parsed, next_row, sent, unconfirmed, confirmed, lookup_first,
  loaded, checked, apply, went_on, refused,
}
use crash_game.Payout.Sound.{
  coalesced, coalesced, IsOwn, IsSane, IsSoundCaller, IsSound, mark_processing-IsSane,
  mark_succeeded-IsSane, fail_and_refund-IsSane,
}

truthy_lem : (o : Option String) (s : String) → truthy o ≡ some s → o ≡ some s
truthy_lem none s h = h
truthy_lem (some x) s h = ground (arith, h)

find_has :
    (reference : String) (ws : List Withdrawal) (w : Withdrawal)
    → find (has_reference reference) ws ≡ some w
    → w.reference ≡ reference
find_has reference [] w found = ground arith
find_has reference (x ∷ ws) w found = elim (Bool-cases (has_reference reference x)) [
  | inl here ↦ ap (λ y. y.reference) (sym (first here)) ∙ (eq_iff x.reference reference).0 here
  | inr apart ↦ find_has reference ws w (later apart)
]
  where
    first : has_reference reference x ≡ true → x ≡ w
    first here = ground arith

    later : has_reference reference x ≡ false → find (has_reference reference) ws ≡ some w
    later apart = ground arith

pub get-reference :
    (reference : String) (bank : Bank) (w : Withdrawal)
    → get reference bank ≡ some w
    → w.reference ≡ reference
unfolding get
get-reference reference bank w found = find_has reference bank.withdrawals w found

module _ (landed : String → Bool) (owner : String → String) (provider : PayOutProvider) where
  -- The truth about a payout: it is rejected, or failed, only when it does not land.
  abbrev pub IsTrue : Withdrawal → Result PayoutError PayoutResult → Type 0
  IsTrue w (ok r) =
      (r.status ≡ failed → landed w.reference ≡ false)
      × IsOwn landed owner w.reference r.provider_txn_id
  IsTrue w (err (rejected message)) = landed w.reference ≡ false
  IsTrue w (err unknown) = Unit

  abbrev pub IsHonest : Answer → Task → Type 0
  IsHonest answer (sending w name) = IsTrue w answer.payout
  IsHonest answer (confirming evt w txn_id) =
      answer.lookup_payout ≡ some failed → landed (owner txn_id) ≡ false
  IsHonest answer (checking w txn_id rest needs_review) =
      answer.lookup_payout ≡ some failed → landed (owner txn_id) ≡ false
  IsHonest answer _ = Unit

  abbrev pub IsOwnEvent : Option PayoutEvent → Type 0
  IsOwnEvent none = Unit
  IsOwnEvent (some evt) = IsOwn landed owner evt.reference evt.provider_txn_id

  pub parsed-IsSound : (o : Option PayoutEvent) → IsOwnEvent o → IsSound landed owner (parsed o)
  parsed-IsSound none h = tt
  parsed-IsSound (some evt) h =
      elim (Bool-cases (starts_with evt.reference withdrawal_ref_prefix)) [
        | inl ours ↦ rw ours h
        | inr others ↦ rw others tt
      ]

  pub next_row-IsSound :
      (ws : List Withdrawal) (needs : List String)
      → All (λ w. IsOwn landed owner w.reference w.provider_txn_id) ws
      → IsSound landed owner (next_row ws needs)
  unfolding next_row
  next_row-IsSound [] needs h = tt
  next_row-IsSound (w ∷ ws) needs h =
      let step : Option String → Task = λ o. elim o [
        | some t ↦ checking w t ws needs
        | none ↦ next_row ws (needs ++ w.reference ∷ [])
      ] in
      elim (Option-cases (truthy w.provider_txn_id)) [
        | inl missing ↦
            subst (λ o. IsSound landed owner (step o)) (sym missing)
              (next_row-IsSound ws (needs ++ w.reference ∷ []) h.1)
        | inr (t, there) ↦
            subst (λ o. IsSound landed owner (step o)) (sym there)
              (
                subst (IsOwn landed owner w.reference) (truthy_lem w.provider_txn_id t there) h.0,
                h.0,
                h.1,
              )
      ]

  pub sent-IsSound :
      (w : Withdrawal) (r : Result PayoutError PayoutResult)
      → IsTrue w r
      → IsSound landed owner (sent w r)
  sent-IsSound w (ok r) h = (h.0, h.1, tt)
  sent-IsSound w (err (rejected m)) h = h
  sent-IsSound w (err unknown) h = tt

  unconfirmed-IsSound :
      (signed : Bool) (status : Option PayoutStatus) (reference : String) (txn_id : Option String)
      → IsOwn landed owner reference txn_id
      → IsSound landed owner (unconfirmed signed status reference txn_id)
  unconfirmed-IsSound true (some success) reference txn_id h = h
  unconfirmed-IsSound false (some success) reference txn_id h = tt
  unconfirmed-IsSound true (some pending) reference txn_id h = h
  unconfirmed-IsSound false (some pending) reference txn_id h = h
  unconfirmed-IsSound true (some failed) reference txn_id h = tt
  unconfirmed-IsSound false (some failed) reference txn_id h = tt
  unconfirmed-IsSound true none reference txn_id h = tt
  unconfirmed-IsSound false none reference txn_id h = tt

  pub confirmed-IsSound :
      (evt : PayoutEvent) (w : Withdrawal) (t : String) (o : Option PayoutStatus)
      → owner t ≡ w.reference
      → (o ≡ some failed → landed (owner t) ≡ false)
      → IsSound landed owner (confirmed provider evt w t o)
  confirmed-IsSound evt w t none own honest =
      unconfirmed-IsSound provider.webhook_signed evt.status w.reference (some t) own
  confirmed-IsSound evt w t (some status) own honest =
      (λ is_failed. ap landed (sym own) ∙ honest (ap some is_failed), own, tt)

  lookup_first-IsSound :
      (evt : PayoutEvent) (w : Withdrawal) (txn_id o : Option String)
      → truthy txn_id ≡ o
      → IsOwn landed owner w.reference txn_id
      → IsSound landed owner (lookup_first provider evt w txn_id o)
  lookup_first-IsSound evt w txn_id (some t) there own =
      subst (IsOwn landed owner w.reference) (truthy_lem txn_id t there) own
  lookup_first-IsSound evt w txn_id none missing own =
      unconfirmed-IsSound provider.webhook_signed evt.status w.reference txn_id own

  pub loaded-IsSound :
      (evt : PayoutEvent) (o : Option Withdrawal)
      → IsOwn landed owner evt.reference evt.provider_txn_id
      → ((w : Withdrawal) → o ≡ some w → (w.reference ≡ evt.reference) × IsSane landed owner w)
      → IsSound landed owner (loaded provider evt o)
  loaded-IsSound evt none own found = tt
  loaded-IsSound evt (some w) own found = elim (Bool-cases (is_open w.status)) [
    | inl alive ↦ rw alive (
        lookup_first-IsSound evt w (coalesce evt.provider_txn_id w.provider_txn_id) _ refl (
          coalesced landed owner w.reference evt.provider_txn_id w.provider_txn_id
            (subst (λ r. IsOwn landed owner r evt.provider_txn_id) (sym (found w refl).0) own)
            (found w refl).1.own))
    | inr over ↦ rw over tt
  ]

  pub checked-IsSound :
      (w : Withdrawal) (t : String) (rest : List Withdrawal) (needs : List String)
      (o : Option PayoutStatus)
      → IsSound landed owner (checking w t rest needs)
      → (o ≡ some failed → landed (owner t) ≡ false)
      → IsSound landed owner (checked w rest needs o)
  checked-IsSound w t rest needs none h honest = next_row-IsSound rest _ h.2
  checked-IsSound w t rest needs (some pending) h honest = next_row-IsSound rest _ h.2
  checked-IsSound w t rest needs (some success) h honest =
      (λ is_failed. ap landed (sym h.0) ∙ honest (ap some is_failed), h.1, h.2)
  checked-IsSound w t rest needs (some failed) h honest =
      (λ _. ap landed (sym h.0) ∙ honest refl, h.1, h.2)

  pub went_on-IsSound :
      (c : Caller) (r : Result WithdrawalError (Unit {0}))
      → IsSoundCaller landed owner c
      → IsSound landed owner (went_on c r)
  went_on-IsSound (by_initiate w) r h = tt
  went_on-IsSound by_webhook (ok u) h = tt
  went_on-IsSound by_webhook (err e) h = tt
  went_on-IsSound (by_reconcile rest needs) (ok u) h = next_row-IsSound rest needs h
  went_on-IsSound (by_reconcile rest needs) (err e) h = tt

  pub refused-IsSound :
      (w : Withdrawal) (r : Result WithdrawalError Bool) → IsSound landed owner (refused w r)
  refused-IsSound w (ok b) = tt
  refused-IsSound w (err e) = tt

  pub apply-IsSane :
      (reference : String) (status : PayoutStatus) (txn_id : Option String) (source : String)
      (bank : Bank)
      → All (IsSane landed owner) bank.withdrawals
      → (status ≡ failed → landed reference ≡ false)
      → IsOwn landed owner reference txn_id
      → All (IsSane landed owner) (apply reference status txn_id source bank).1.withdrawals
  unfolding apply
  apply-IsSane reference success txn_id source bank sane sure own =
      mark_succeeded-IsSane landed owner bank sane reference txn_id own
  apply-IsSane reference pending txn_id source bank sane sure own =
      mark_processing-IsSane landed owner bank sane reference txn_id own
  apply-IsSane reference failed txn_id source bank sane sure own =
      fail_and_refund-IsSane landed owner bank sane reference _ (sure refl)
