-- ===== src/Store/AuditQuery/Like.antt =====
-- What the pattern of the payload filter matches, with LIKE as the SQL standard defines it.
use Prim.Native.Char.{Char, code}
use Prim.Native.String.{[] as no_text, ◌∷◌ as then_char}
use lucairn_enterprise_deplo.Base.{
  ℕ, String, ◌≡◌, refl, ◌∙◌, Bool, true, false, ◌&&◌, ◌||◌, ◌==◌, if◌then◌else◌, arith, Bool-cases,
  inl, inr, ◌⊎◌, ◌≢◌, none, some, str_eq, eq_iff,
}
use lucairn_enterprise_deplo.Base.Text.{◌++◌, has_prefix, trim_space, apart}
use lucairn_enterprise_deplo.Store.AuditQuery.{text, special, escape_like_pattern, contains_arg}

-- Whether the test holds of some end of the text.
pub any_end : (String → Bool) → String → Bool
any_end f no_text = f no_text
any_end f (then_char c s) = f (then_char c s) || any_end f s

-- What a pattern does after its first character, given how the rest of it matches.
then_literal : ℕ → (String → Bool) → String → Bool
then_literal c rest no_text = false
then_literal c rest (then_char d s) = (c == code d) && rest s

then_any : (String → Bool) → String → Bool
then_any rest no_text = false
then_any rest (then_char d s) = rest s

abbrev is_empty : String → Bool
is_empty no_text = true
is_empty (then_char c s) = false

mutual
  -- text LIKE pattern ESCAPE '\'
  pub like : String → String → Bool
  like no_text s = is_empty s
  like (then_char c p) s =
      if code c == 37
      then any_end (like p) s
      else if code c == 95
      then then_any (like p) s
      else if code c == 92
      then after_escape p s
      else then_literal (code c) (like p) s

  after_escape : String → String → Bool
  after_escape no_text s = false
  after_escape (then_char c p) s = then_literal (code c) (like p) s

like_literal :
    (c : Char) (q s : String)
    → special (code c) ≡ false
    → like (then_char c q) s ≡ then_literal (code c) (like q) s
unfolding like special
like_literal c q s h =
    let (a, b, d) = none_of (code c == 92) (code c == 37) (code c == 95) h in rw (b, d, a) refl
  where
    none_of : (x y z : Bool) → (x || y || z) ≡ false → (x ≡ false) × (y ≡ false) × (z ≡ false)
    none_of x y z h = (ground arith, ground arith, ground arith)

like_escaped :
    (c : Char) (q s : String) → like ("\\" ++ then_char c q) s ≡ then_literal (code c) (like q) s
unfolding like after_escape
like_escaped c q s = refl

-- The pattern's last part.
like_percent : (s : String) → like "%" s ≡ true
unfolding like any_end
like_percent no_text = refl
like_percent (then_char c s) = like_percent s

literal_prefix :
    (c : Char) (p q s : String)
    → ((t : String) → like q t ≡ has_prefix p t)
    → then_literal (code c) (like q) s ≡ has_prefix (then_char c p) s
unfolding then_literal
literal_prefix c p q no_text h = refl
literal_prefix c p q (then_char d s) h = rw (h s) refl

like-escape_like_pattern : (p s : String) → like (escape_like_pattern p ++ "%") s ≡ has_prefix p s
unfolding escape_like_pattern
like-escape_like_pattern no_text s = like_percent s
like-escape_like_pattern (then_char c p) s =
    let rest = literal_prefix c p (escape_like_pattern p ++ "%") s (like-escape_like_pattern p) in
    elim (Bool-cases (special (code c))) [
      | inl e ↦ rw e (like_escaped c (escape_like_pattern p ++ "%") s ∙ rest)
      | inr e ↦ rw e (like_literal c (escape_like_pattern p ++ "%") s e ∙ rest)
    ]

any_end_same :
    (f g : String → Bool) (s : String) → ((t : String) → f t ≡ g t) → any_end f s ≡ any_end g s
unfolding any_end
any_end_same f g no_text h = h ""
any_end_same f g (then_char c s) h = rw (h (then_char c s), any_end_same f g s h) refl

-- strings.Contains
pub contains : String → String → Bool
contains p s = any_end (has_prefix p) s

like-escape_like_pattern-contains :
    (p s : String) → like ("%" ++ escape_like_pattern p ++ "%") s ≡ contains p s
unfolding like contains
like-escape_like_pattern-contains p s =
    any_end_same (like (escape_like_pattern p ++ "%")) (has_prefix p) s (like-escape_like_pattern p)

-- The argument of the payload filter: a blank text sets no filter, and any other text gives a pattern
-- that LIKE matches with exactly the texts that contain it, character by character, none of its
-- characters being a wildcard. The text that it is matched with is what the database renders the payload
-- as, which is not the payload itself.
pub like-contains_arg :
    (p : String)
    → ((trim_space p ≡ "") × (contains_arg p ≡ none))
      ⊎ ((trim_space p ≢ "")
          × ((pattern : String) × (contains_arg p ≡ some (text pattern))
              × ((s : String) → like pattern s ≡ contains p s)))
unfolding contains_arg
like-contains_arg p = elim (Bool-cases (str_eq (trim_space p) "")) [
  | inl e ↦ inl ((eq_iff (trim_space p) "").0 e, rw e refl)
  | inr e ↦ inr (
    apart (trim_space p) "" e,
    ("%" ++ escape_like_pattern p ++ "%", rw e refl, like-escape_like_pattern-contains p),
  )
]
