-- ===== src/Base/Int64.antt =====
-- Go's int, of 64 bits, as the number below 2 ^ 64 that has its bits: from 2 ^ 63 on it is negative.
use Prim.Native.Nat.{ℕ, ◌+◌, ◌-◌, ◌*◌, ◌/◌, ◌%◌, ◌^◌, ◌≤◌, ◌<◌}
use mathlib.Core.Path.{◌≡◌}
use mathlib.Core.Bool.{Bool, true, false}
use native.Mathlib.Omega.{arith}
use lucairn_enterprise_deplo.Base.Tests.{ltb, leb, if◌then◌else◌}

unfoldable pub wrap : ℕ → ℕ
wrap n = n % 2 ^ 64

unfoldable pub is_negative : ℕ → Bool
is_negative a = leb (2 ^ 63) a

-- a < b
unfoldable pub less : ℕ → ℕ → Bool
unfolding is_negative
less a b =
    if is_negative a
    then (if is_negative b then ltb a b else true)
    else if is_negative b
    then false
    else ltb a b

unfoldable pub plus : ℕ → ℕ → ℕ
unfolding wrap
plus a b = wrap (a + b)

unfoldable pub minus : ℕ → ℕ → ℕ
unfolding wrap
minus a b = wrap (a + (2 ^ 64 - b))

unfoldable pub times : ℕ → ℕ → ℕ
unfolding wrap
times a b = wrap (a * b)

-- a / b for a positive b, which rounds towards zero.
unfoldable pub quotient : ℕ → ℕ → ℕ
unfolding is_negative wrap
quotient a b = if is_negative a then wrap (2 ^ 64 - (2 ^ 64 - a) / b) else a / b

pub less-ltb : (a b : ℕ) → a < 2 ^ 63 → b < 2 ^ 63 → less a b ≡ ltb a b
unfolding less is_negative
less-ltb a b h h' = ground arith

pub plus_exact : (a b : ℕ) → a + b < 2 ^ 63 → plus a b ≡ a + b
unfolding plus wrap
plus_exact a b h = omega arith

pub minus_exact : (a b : ℕ) → a < 2 ^ 63 → b ≤ a → minus a b ≡ a - b
unfolding minus wrap
minus_exact a b h h' = omega arith

pub times_exact : (a b : ℕ) → a * b < 2 ^ 63 → times a b ≡ a * b
unfolding times wrap
times_exact a b h = omega arith

pub quotient_exact : (a b : ℕ) → a < 2 ^ 63 → quotient a b ≡ a / b
unfolding quotient is_negative
quotient_exact a b h = ground arith
