-- ===== src/Base/Sort.antt =====
-- Counting in a map and ranging over it in the order of its keys: what the source does with a Go
-- map, a slice of its keys and `sort`. The order is an interface; its instances are below.
pub mod Order
pub mod Unique
use mathlib.Core.Path.{◌≡◌}
use mathlib.Core.Logic.{◌↔◌, ◌⊎◌}
use mathlib.Core.Bool.{Bool, true, false}
use mathlib.Core.Option.{Option, none, some}
use mathlib.Core.List.{List, [], ◌∷◌}
use lucairn_enterprise_deplo.Base.Tests.{if◌then◌else◌}

pub record StrictOrder {ℓ} (K : Type ℓ) : Type ℓ where
  pub eq : K → K → Bool
  pub lt : K → K → Bool
  pub eq_iff : (a b : K) → (eq a b ≡ true) ↔ (a ≡ b)
  pub irrefl : (a : K) → lt a a ≡ false
  pub trans : (a b c : K) → lt a b ≡ true → lt b c ≡ true → lt a c ≡ true
  pub total : (a b : K) → lt a b ≡ false → lt b a ≡ false → a ≡ b

module _ {ℓ κ} {K : Type ℓ} {V : Type κ} (o : StrictOrder K) where
  pub look : K → List (K × V) → Option V
  look k [] = none
  look k ((j, v) ∷ m) = if o.eq j k then some v else look k m

  -- m[k] = f(m[k]), where a missing key reads as `zero`
  pub bump : K → (V → V) → V → List (K × V) → List (K × V)
  bump k f zero [] = (k, f zero) ∷ []
  bump k f zero ((j, v) ∷ m) = if o.eq j k then (j, f v) ∷ m else (j, v) ∷ bump k f zero m

  pub insert_sorted : K → V → List (K × V) → List (K × V)
  insert_sorted k v [] = (k, v) ∷ []
  insert_sorted k v ((j, w) ∷ m) =
      if o.lt k j then (k, v) ∷ (j, w) ∷ m else (j, w) ∷ insert_sorted k v m

  -- The entries of the map in the order of their keys.
  pub sort_by_key : List (K × V) → List (K × V)
  sort_by_key [] = []
  sort_by_key ((k, v) ∷ m) = insert_sorted k v (sort_by_key m)

-- Opening this opens the operations.
unfoldable pub sort_runs : Unit {0}
unfolding look bump insert_sorted sort_by_key
sort_runs = tt
