-- ===== src/Config/Apply/WellFormed/Checks.antt =====
-- What a chain of checks that ends well says of each of them.
use lucairn_enterprise_deplo.Base.{
  String, ◌≡◌, refl, ◌≢◌, ◌⊎◌, inl, inr, ◌≤◌, Bool, true, false, str_eq, if◌then◌else◌, Result, ok,
  err, arith, Bool-cases, eq_iff,
}
use lucairn_enterprise_deplo.Base.Text.{apart}
use lucairn_enterprise_deplo.Base.Text.Search.{size}
use lucairn_enterprise_deplo.Config.{◌>>=◌, must, given, panel_uid, uid_chars}

pub past_must :
    {A : Type 0} (b : Bool) (e : String) (k : Unit {0} → Result String A) (a : A)
    → (must b e >>= k) ≡ ok a
    → (b ≡ true) × (k tt ≡ ok a)
unfolding must ◌>>=◌
past_must true e k a h = (refl, h)
past_must false e k a h = cc

pub past_bind :
    {A B : Type 0} (r : Result String A) (k : A → Result String B) (b : B)
    → (r >>= k) ≡ ok b
    → (a : A) × (r ≡ ok a) × (k a ≡ ok b)
unfolding ◌>>=◌
past_bind (ok a) k b h = (a, refl, h)
past_bind (err e) k b h = cc

pub must_ok : (b : Bool) (e : String) → must b e ≡ ok tt → b ≡ true
unfolding must
must_ok true e h = refl
must_ok false e h = cc

module _ {A : Type 0} where
  pub ok_eq : (a b : A) → ◌≡◌ {A = Result String A} (ok a) (ok b) → a ≡ b
  ok_eq a b h = cc

  pub which :
      (b : Bool) (r s : Result String A) (a : A)
      → (if b then r else s) ≡ ok a
      → ((b ≡ true) × (r ≡ ok a)) ⊎ ((b ≡ false) × (s ≡ ok a))
  which true r s a h = inl (refl, h)
  which false r s a h = inr (refl, h)

pub not_given : (s : String) → given s ≡ false → s ≡ ""
not_given s h = (eq_iff s "").0 (ground arith)

pub is_given : (s : String) → given s ≡ true → s ≢ ""
is_given s h = apart s "" (ground arith)

-- A panel of Grafana: none, or an identifier of at most 64 letters, digits, hyphens and underscores.
abbrev pub IsPanel : String → Type 0
IsPanel uid = (uid ≡ "") ⊎ ((1 ≤ size uid) × (size uid ≤ 64) × (uid_chars uid ≡ true))

pub panel_uid-IsPanel : (uid : String) → panel_uid uid ≡ true → IsPanel uid
unfolding panel_uid
panel_uid-IsPanel uid h = elim (Bool-cases (str_eq uid "")) [
  | inl e ↦ inl ((eq_iff uid "").0 e)
  | inr e ↦ inr (ground arith, ground arith, ground arith)
]
