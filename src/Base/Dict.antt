-- ===== src/Base/Dict.antt =====
-- Go's `map` with text keys, as an association list. Ranging over a map in the source either
-- deletes entries or builds a value that does not depend on the order.
use mathlib.Core.Path.{◌≡◌, refl}
use mathlib.Core.Bool.{Bool}
use mathlib.Core.Option.{Option, none, some}
use mathlib.Core.List.{List, [], ◌∷◌}
use native.Mathlib.Omega.{arith}
use Prim.Native.String.{String}
use text.Mathlib.Text.{◌==◌}
use text.Mathlib.TextEquality.{eq_iff}
use lucairn_enterprise_deplo.Base.Tests.{if◌then◌else◌}

abbrev pub Dict {ℓ} : Type ℓ → Type ℓ
Dict V = List (String × V)

module _ {ℓ} {V : Type ℓ} where
  -- make(map[string]V)
  abbrev pub new : Dict V
  new = []

  pub lookup : String → Dict V → Option V
  lookup k [] = none
  lookup k ((j, v) ∷ m) = if j == k then some v else lookup k m

  -- delete(m, k)
  pub erase : String → Dict V → Dict V
  erase k [] = []
  erase k ((j, v) ∷ m) = let rest = erase k m in if j == k then rest else (j, v) ∷ rest

  -- m[k] = v
  pub insert : String → V → Dict V → Dict V
  insert k v m = (k, v) ∷ erase k m

  -- for k, v := range m { if !keep(v) { delete(m, k) } }
  pub retain : (V → Bool) → Dict V → Dict V
  retain keep [] = []
  retain keep ((k, v) ∷ m) =
      let rest = erase k (retain keep m) in if keep v then (k, v) ∷ rest else rest

  abbrev pub kept : (V → Bool) → Option V → Option V
  kept keep none = none
  kept keep (some v) = if keep v then some v else none

  pub lookup-erase :
      (k j : String) (m : Dict V) → lookup j (erase k m) ≡ (if k == j then none else lookup j m)
  unfolding lookup erase
  lookup-erase k j [] = ground arith
  lookup-erase k j ((i, v) ∷ m) =
      ground (arith, lookup-erase k j m, eq_iff i k, eq_iff i j, eq_iff k j)

  pub lookup-insert :
      (k j : String) (v : V) (m : Dict V)
      → lookup j (insert k v m) ≡ (if k == j then some v else lookup j m)
  unfolding lookup insert
  lookup-insert k j v m = ground (arith, lookup-erase k j m)

  pub lookup-retain :
      (keep : V → Bool) (j : String) (m : Dict V)
      → lookup j (retain keep m) ≡ kept keep (lookup j m)
  unfolding lookup retain
  lookup-retain keep j [] = refl
  lookup-retain keep j ((k, v) ∷ m) =
      ground (arith, lookup-erase k j (retain keep m), lookup-retain keep j m, eq_iff k j)

  pub lookup-nil : (k : String) → lookup k [] ≡ none
  unfolding lookup
  lookup-nil k = refl

pub ruleset dict_laws = (lookup-nil, lookup-erase, lookup-insert, lookup-retain)

-- Opening this opens the operations of maps.
unfoldable pub dict_runs : Unit {0}
unfolding lookup erase insert retain
dict_runs = tt
