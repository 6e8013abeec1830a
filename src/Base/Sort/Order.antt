-- ===== src/Base/Sort/Order.antt =====
-- The orders of the keys: texts as Go compares them, and pairs of a text and a flag.
use Prim.Native.Char.{code}
use Prim.Native.String.{String, [], ◌∷◌}
use Prim.Native.Nat.{ℕ}
use mathlib.Core.Path.{◌≡◌, refl, ap₂}
use mathlib.Core.Logic.{◌↔◌}
use mathlib.Core.Bool.{Bool, true, false, not, ◌&&◌, ◌||◌}
use native.Mathlib.Omega.{arith}
use text.Mathlib.Text.{◌==◌ as str_eq}
use text.Mathlib.TextEquality.{eq_iff, Char-path}
use lucairn_enterprise_deplo.Base.Tests.{◌==◌, ltb, if◌then◌else◌}
use lucairn_enterprise_deplo.Base.Sort.{StrictOrder}

-- a < b on texts: UTF-8 keeps the order of the code points.
pub text_lt : String → String → Bool
text_lt [] [] = false
text_lt [] (d ∷ t) = true
text_lt (c ∷ s) [] = false
text_lt (c ∷ s) (d ∷ t) = ltb (code c) (code d) || ((code c == code d) && text_lt s t)

pub text_lt_irrefl : (s : String) → text_lt s s ≡ false
unfolding text_lt
text_lt_irrefl [] = refl
text_lt_irrefl (c ∷ s) = ground (arith, text_lt_irrefl s)

pub text_lt_trans : (s t u : String) → text_lt s t ≡ true → text_lt t u ≡ true → text_lt s u ≡ true
unfolding text_lt
text_lt_trans [] [] u h k = cc
text_lt_trans [] (d ∷ t) [] h k = cc
text_lt_trans [] (d ∷ t) (e ∷ u) h k = refl
text_lt_trans (c ∷ s) [] u h k = cc
text_lt_trans (c ∷ s) (d ∷ t) [] h k = cc
text_lt_trans (c ∷ s) (d ∷ t) (e ∷ u) h k = ground (arith, text_lt_trans s t u)

heads_equal :
    (a b : ℕ) (p q : Bool)
    → (ltb a b || ((a == b) && p)) ≡ false
    → (ltb b a || ((b == a) && q)) ≡ false
    → (a ≡ b) × (p ≡ false) × (q ≡ false)
heads_equal a b p q h k = ground arith

pub text_lt_total : (s t : String) → text_lt s t ≡ false → text_lt t s ≡ false → s ≡ t
unfolding text_lt
text_lt_total [] [] h k = refl
text_lt_total [] (d ∷ t) h k = cc
text_lt_total (c ∷ s) [] h k = cc
text_lt_total (c ∷ s) (d ∷ t) h k =
    let (same, p, q) = heads_equal (code c) (code d) (text_lt s t) (text_lt t s) h k in
    ap₂ (λ x y. x ∷ y) (Char-path c d same) (text_lt_total s t p q)

abbrev pub text_order : StrictOrder String
text_order = record {
  eq = str_eq;
  lt = text_lt;
  eq_iff = eq_iff;
  irrefl = text_lt_irrefl;
  trans = text_lt_trans;
  total = text_lt_total;
}

-- groups[i].reason < groups[j].reason, and where they are equal false before true
pub flagged_lt : String × Bool → String × Bool → Bool
flagged_lt (a, x) (b, y) = if str_eq a b then not x && y else text_lt a b

abbrev flag_eq : Bool → Bool → Bool
flag_eq true true = true
flag_eq false false = true
flag_eq _ _ = false

abbrev flagged_eq : String × Bool → String × Bool → Bool
flagged_eq (a, x) (b, y) = str_eq a b && flag_eq x y

pub flagged_eq_iff : (a b : String × Bool) → (flagged_eq a b ≡ true) ↔ (a ≡ b)
flagged_eq_iff (a, true) (b, true) =
    (λ h. ground (arith, eq_iff a b), λ h. ground (arith, eq_iff a b))
flagged_eq_iff (a, true) (b, false) =
    (λ h. ground (arith, eq_iff a b), λ h. ground (arith, eq_iff a b))
flagged_eq_iff (a, false) (b, true) =
    (λ h. ground (arith, eq_iff a b), λ h. ground (arith, eq_iff a b))
flagged_eq_iff (a, false) (b, false) =
    (λ h. ground (arith, eq_iff a b), λ h. ground (arith, eq_iff a b))

pub flagged_lt_irrefl : (a : String × Bool) → flagged_lt a a ≡ false
unfolding flagged_lt
flagged_lt_irrefl (a, true) = ground (arith, text_lt_irrefl a)
flagged_lt_irrefl (a, false) = ground (arith, eq_iff a a)

pub flagged_lt_trans :
    (a b c : String × Bool) → flagged_lt a b ≡ true → flagged_lt b c ≡ true → flagged_lt a c ≡ true
unfolding flagged_lt
flagged_lt_trans (a, x) (b, y) (c, z) h k = ground (
  arith,
  eq_iff a b,
  eq_iff b c,
  eq_iff a c,
  text_lt_trans a b c,
  text_lt_irrefl a,
  text_lt_irrefl b,
)

pub flagged_lt_total :
    (a b : String × Bool) → flagged_lt a b ≡ false → flagged_lt b a ≡ false → a ≡ b
unfolding flagged_lt
flagged_lt_total (a, true) (b, true) h k = ground (arith, eq_iff a b, eq_iff b a, text_lt_total a b)
flagged_lt_total (a, true) (b, false) h k =
    ground (arith, eq_iff a b, eq_iff b a, text_lt_total a b)
flagged_lt_total (a, false) (b, true) h k =
    ground (arith, eq_iff a b, eq_iff b a, text_lt_total a b)
flagged_lt_total (a, false) (b, false) h k =
    ground (arith, eq_iff a b, eq_iff b a, text_lt_total a b)

abbrev pub flagged_order : StrictOrder (String × Bool)
flagged_order = record {
  eq = flagged_eq;
  lt = flagged_lt;
  eq_iff = flagged_eq_iff;
  irrefl = flagged_lt_irrefl;
  trans = flagged_lt_trans;
  total = flagged_lt_total;
}
