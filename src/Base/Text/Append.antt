-- ===== src/Base/Text/Append.antt =====
-- Concatenation of texts, which computes on the text at its left.
use Prim.Native.String.{String, [], ◌∷◌}
use mathlib.Core.Path.{◌≡◌, refl, ap}

infixr 65 ◌++◌
abbrev pub ◌++◌ : String → String → String
[] ++ t = t
(c ∷ s) ++ t = c ∷ (s ++ t)

pub append_assoc : (s t u : String) → (s ++ t) ++ u ≡ s ++ (t ++ u)
append_assoc [] t u = refl
append_assoc (c ∷ s) t u = ap (λ x. c ∷ x) (append_assoc s t u)

pub append_empty : (s : String) → s ++ [] ≡ s
append_empty [] = refl
append_empty (c ∷ s) = ap (λ x. c ∷ x) (append_empty s)
