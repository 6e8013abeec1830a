-- ===== src/Base/Text/Apart.antt =====
-- Texts that differ.
use Prim.Native.String.{String}
use mathlib.Core.Path.{◌≡◌}
use mathlib.Core.Logic.{◌≢◌}
use mathlib.Core.Bool.{false}
use mathlib.Core.Option.{some}
use native.Mathlib.Omega.{arith}
use text.Mathlib.Text.{◌==◌ as str_eq}
use text.Mathlib.TextEquality.{eq_iff}

pub apart : (a b : String) → str_eq a b ≡ false → a ≢ b
apart a b e h = ground (arith, eq_iff a b)

pub some_apart : (a b : String) → str_eq a b ≡ false → some a ≢ some b
some_apart a b e h = ground (arith, eq_iff a b)
