-- ===== src/Base/Text/Search.antt =====
-- Looking for a text in a text: strings.Index, the parts around what it finds, strings.Contains.
pub mod Cut
use Prim.Native.Nat.{ℕ, suc}
use Prim.Native.Char.{code}
use Prim.Native.String.{String, [], ◌∷◌}
use mathlib.Core.Path.{◌≡◌, refl, ap}
use mathlib.Core.Bool.{Bool, true, false, ◌&&◌, ◌||◌}
use mathlib.Core.Option.{Option, none, some}
use native.Mathlib.Omega.{arith}
use lucairn_enterprise_deplo.Base.Tests.{◌==◌, if◌then◌else◌, Bool-cases}
use lucairn_enterprise_deplo.Base.Text.Append.{◌++◌}

-- The number of characters.
abbrev pub size : String → ℕ
size [] = 0
size (c ∷ s) = suc (size s)

-- Whether the text begins with the first one and goes on as the test says.
abbrev pub follows : (String → Bool) → String → String → Bool
follows ok [] s = ok s
follows ok (c ∷ p) [] = false
follows ok (c ∷ p) (d ∷ s) = (code c == code d) && follows ok p s

-- Whether the test holds of some end of the text that is not empty.
pub somewhere : (String → Bool) → String → Bool
somewhere f [] = false
somewhere f (c ∷ s) = f (c ∷ s) || somewhere f s

abbrev pub anything : String → Bool
anything s = true

-- The text without its first `size p` characters.
abbrev pub past_prefix : String → String → String
past_prefix [] s = s
past_prefix (c ∷ p) [] = []
past_prefix (c ∷ p) (d ∷ s) = past_prefix p s

prepend : String → Option (String × String) → Option (String × String)
prepend c none = none
prepend c (some (before, after)) = some (c ++ before, after)

-- The text before the first occurrence of a text that is not empty, and the text after it.
pub cut : String → String → Option (String × String)
cut m [] = none
cut m (c ∷ s) =
    let rest = cut m s in
    if follows anything m (c ∷ s) then some ("", past_prefix m (c ∷ s)) else prepend (c ∷ []) rest

-- Opening this opens the operations.
unfoldable pub search_runs : Unit {0}
unfolding somewhere prepend cut
search_runs = tt
