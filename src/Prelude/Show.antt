-- ===== src/Prelude/Show.antt =====
-- `String(n)` of a natural number, in decimal.
use Prim.Native.Nat.{ℕ, zero, suc, ◌/◌, ◌%◌}
use Prim.Native.String.{String, ◌++◌}
use mathlib.Core.Path.{◌≡◌, refl}
use crash_game.Prelude.Tests.{ltb, ◌==◌, if◌then◌else◌}

digit : ℕ → String
digit d =
    if d == 0
    then "0"
    else if d == 1
    then "1"
    else if d == 2
    then "2"
    else if d == 3
    then "3"
    else if d == 4
    then "4"
    else if d == 5
    then "5"
    else if d == 6
    then "6"
    else if d == 7
    then "7"
    else if d == 8
    then "8"
    else "9"

show_digits : ℕ → ℕ → String
unfolding digit
show_digits zero n = digit n
show_digits (suc fuel) n =
    let rest = show_digits fuel (n / 10) in if ltb n 10 then digit n else rest ++ digit (n % 10)

-- A number has at most as many digits as its value says, or one.
unfoldable pub show : ℕ → String
unfolding show_digits
show n = show_digits n n

show_numeral : show 1503 ≡ "1503"
unfolding show
show_numeral = refl
