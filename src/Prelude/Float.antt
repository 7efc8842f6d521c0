-- ===== src/Prelude/Float.antt =====
-- The positive doubles of the language: the quotient or product of two numbers is the nearest one
-- with a mantissa of 53 bits, and of two that are as near the even one. Exponents have no bound here.
use Prim.Native.Nat.{ℕ, zero, suc, ◌+◌, ◌-◌, ◌*◌, ◌/◌, ◌%◌, ◌^◌, ◌≤◌, ◌<◌}
use mathlib.Core.Path.{subst, sym}
use mathlib.Core.Bool.{Bool, true, false}
use mathlib.Core.Logic.{inl, inr}
use native.Mathlib.Numerals.{unary_clauses}
use native.Mathlib.Omega.{arith}
use crash_game.Prelude.Tests.{ltb, leb, Bool-cases, ◌==◌, if◌then◌else◌}

pub record Float : Type 0 where
  pub numerator : ℕ
  pub denominator : ℕ

-- How many binary digits a number has, when it is at most the first argument.
unfoldable pub bits : ℕ → ℕ → ℕ
bits zero n = 0
bits (suc f) n = elim (n == 0) [ true ↦ 0 | false ↦ suc (bits f (n / 2)) ]

-- So a number is its own bound, and its digits are never cut.
bits_enough : (f n : ℕ) → n ≤ f → n < 2 ^ bits f n
unfolding bits
bits_enough zero n h = omega (arith, h)
bits_enough (suc f) n h =
    let bound : Bool → Type 0 = λ b. n < 2 ^ (elim b [ true ↦ 0 | false ↦ suc (bits f (n / 2)) ]) in
    elim (Bool-cases (n == 0)) [
      | inl nil ↦ subst bound (sym nil) (ground (arith, nil))
      | inr digit ↦
          subst bound (sym digit)
            (doubled n (bits f (n / 2)) (bits_enough f (n / 2) (ground (arith, h, digit))))
    ]
  where
    doubled : (n k : ℕ) → n / 2 < 2 ^ k → n < 2 ^ suc k
    doubled n k h = simp unary_clauses (omega (arith, h))

-- The whole number next to `n / d`.
abbrev pub round_even : ℕ → ℕ → ℕ
round_even n d =
    let q = n / d in
    let r = 2 * (n % d) in if ltb r d then q else if ltb d r then q + 1 else q + q % 2

-- The double next to `n / d`.
unfoldable pub nearest : ℕ → ℕ → Float
unfolding bits
nearest n d =
    let up = 53 + bits d d - bits n n in
    let down = bits n n - (53 + bits d d) in
    let over = (if leb (d * 2 ^ down * 2 ^ 53) (n * 2 ^ up) then 1 else 0) in
    record {
      numerator = round_even (n * 2 ^ up) (d * 2 ^ (down + over)) * 2 ^ (down + over);
      denominator = 2 ^ up;
    }

unfoldable pub times : Float → Float → Float
unfolding nearest
times x y = nearest (x.numerator * y.numerator) (x.denominator * y.denominator)

abbrev pub whole : ℕ → Float
whole n = record { numerator = n; denominator = 1 }

-- `Math.round`
abbrev pub math_round : Float → ℕ
math_round x = (2 * x.numerator + x.denominator) / (2 * x.denominator)
