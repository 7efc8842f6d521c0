-- ===== src/Prelude/Action.antt =====
-- An asynchronous method that may throw: a state goes in, and comes out beside the value or the
-- error, since what was written before a throw stays written.
use mathlib.Core.Path.{◌≡◌, ap}

pub data Result {ℓ} (E A : Type ℓ) : Type ℓ where
  ok : A → Result E A
  err : E → Result E A

abbrev pub Action {ℓ} : Type ℓ → Type ℓ → Type ℓ → Type ℓ
Action S E A = S → Result E A × S

module _ {ℓ} {S E A : Type ℓ} where
  abbrev pub pure : A → Action S E A
  pure a s = (ok a, s)

  -- `throw e`
  abbrev pub throw : E → Action S E A
  throw e s = (err e, s)

  abbrev pub gets : (S → A) → Action S E A
  gets f s = (ok (f s), s)

  -- `try { m } catch (e) { handler(e) }`
  abbrev pub try_catch : Action S E A → (E → Action S E A) → Action S E A
  try_catch m handler s = let (r, s') = m s in elim r [ ok a ↦ (ok a, s') | err e ↦ handler e s' ]

module _ {ℓ} {S E A B : Type ℓ} where
  infixl 5 ◌>>=◌ ◌>>◌
  abbrev pub ◌>>=◌ : Action S E A → (A → Action S E B) → Action S E B
  ◌>>=◌ m f s = let (r, s') = m s in elim r [ ok a ↦ f a s' | err e ↦ (err e, s') ]

  abbrev pub ◌>>◌ : Action S E A → Action S E B → Action S E B
  ◌>>◌ m k = m >>= λ _. k

abbrev pub modify {ℓ} : {S E : Type ℓ} → (S → S) → Action S E (Unit {ℓ})
modify f s = (ok tt, f s)

-- How a `do` block and a `try` go on after a step whose end is known.
module _ {ℓ} {S E A B : Type ℓ} where
  pub bind_ok :
      (m : Action S E A) (f : A → Action S E B) {s s' : S} {a : A}
      → m s ≡ (ok a, s')
      → (m >>= f) s ≡ f a s'
  bind_ok m f {s} h = ap (λ p. bound p) h
    where
      bound : Result E A × S → Result E B × S
      bound (r, s') = elim r [ ok a ↦ f a s' | err e ↦ (err e, s') ]

  pub bind_err :
      (m : Action S E A) (f : A → Action S E B) {s s' : S} {e : E}
      → m s ≡ (err e, s')
      → (m >>= f) s ≡ (err e, s')
  bind_err m f {s} h = ap (λ p. bound p) h
    where
      bound : Result E A × S → Result E B × S
      bound (r, s') = elim r [ ok a ↦ f a s' | err e ↦ (err e, s') ]

module _ {ℓ} {S E A : Type ℓ} where
  caught : (E → Action S E A) → Result E A × S → Result E A × S
  caught handler (r, s') = elim r [ ok a ↦ (ok a, s') | err e ↦ handler e s' ]

  pub try_ok :
      (m : Action S E A) (handler : E → Action S E A) {s s' : S} {a : A}
      → m s ≡ (ok a, s')
      → try_catch m handler s ≡ (ok a, s')
  unfolding caught
  try_ok m handler h = ap (caught handler) h

  pub try_err :
      (m : Action S E A) (handler : E → Action S E A) {s s' : S} {e : E}
      → m s ≡ (err e, s')
      → try_catch m handler s ≡ handler e s'
  unfolding caught
  try_err m handler h = ap (caught handler) h
