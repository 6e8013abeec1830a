-- ===== src/Base/Text/Print.antt =====
-- fmt's %d, on the natural numbers.
use Prim.Native.Nat.{ℕ, zero, suc, ◌/◌, ◌%◌}
use Prim.Native.String.{String}
use mathlib.Core.Path.{◌≡◌, refl}
use mathlib.Core.Bool.{true, false}
use lucairn_enterprise_deplo.Base.Tests.{ltb, ◌==◌, if◌then◌else◌}
use lucairn_enterprise_deplo.Base.Text.Append.{◌++◌}

digit : ℕ → String
digit d =
    if d == 0
    then "0"
    else if d == 1
    then "1"
    else if d == 2
    then "2"
    else if d == 3
    then "3"
    else if d == 4
    then "4"
    else if d == 5
    then "5"
    else if d == 6
    then "6"
    else if d == 7
    then "7"
    else if d == 8
    then "8"
    else "9"

-- The fuel bounds the number of digits.
digits_from : ℕ → ℕ → String → String
digits_from zero n out = out
digits_from (suc fuel) n out = elim (ltb n 10) [
  | true ↦ digit n ++ out
  | false ↦ digits_from fuel (n / 10) (digit (n % 10) ++ out)
]

unfoldable pub decimal : ℕ → String
unfolding digit digits_from
decimal n = digits_from (suc n) n ""

decimal_runs : decimal 4096 ≡ "4096"
unfolding decimal
decimal_runs = refl
