-- ===== src/Base/Text.antt =====
-- The functions of Go's `strings` and `fmt` that the dashboard calls, on texts read character by
-- character.
mod Apart
mod Append
mod Print
pub mod Search
mod Trim
pub use Apart.*
pub use Append.{◌++◌, append_assoc, append_empty}
unfoldable pub use Print.{decimal}
unfoldable pub use Trim.{trim_space}
use Prim.Native.Nat.{ℕ, ◌+◌, ◌-◌, ◌≤◌}
use native.Mathlib.Omega.{arith}
use Prim.Native.Char.{code}
use Prim.Native.String.{String, [], ◌∷◌}
use mathlib.Core.Path.{◌≡◌, refl}
use mathlib.Core.Bool.{Bool, true, false, ◌&&◌, ◌||◌}
use text.Mathlib.Text.{◌==◌ as str_eq}
use mathlib.Core.List
use mathlib.Core.List.{List}
use mathlib.Core.Logic.{inl, inr}
use lucairn_enterprise_deplo.Base.Tests.{◌==◌, ltb, leb, if◌then◌else◌, Bool-cases, leb→le}

-- strings.HasPrefix, with the prefix first
abbrev pub has_prefix : String → String → Bool
has_prefix [] s = true
has_prefix (c ∷ p) [] = false
has_prefix (c ∷ p) (d ∷ s) = (code c == code d) && has_prefix p s

-- strings.Contains of a text of one character
unfoldable pub contains_code : ℕ → String → Bool
contains_code k [] = false
contains_code k (c ∷ s) = (code c == k) || contains_code k s

-- strings.Join
unfoldable pub join : List String → String → String
join List.[] sep = ""
join (List.◌∷◌ s List.[]) sep = s
join (List.◌∷◌ s (List.◌∷◌ t ts)) sep = s ++ sep ++ join (List.◌∷◌ t ts) sep

literal_prefix :
    (s : String) → has_prefix "Recall check passed" ("Recall check not passed - " ++ s) ≡ false
literal_prefix s = refl

join_runs : join (List.◌∷◌ "a" (List.◌∷◌ "b" List.[])) "; " ≡ "a; b"
unfolding join
join_runs = refl

-- len of a text in UTF-8
char_bytes : ℕ → ℕ
char_bytes c = if ltb c 0x80 then 1 else if ltb c 0x800 then 2 else if ltb c 0x10000 then 3 else 4

unfoldable pub byte_length : String → ℕ
unfolding char_bytes
byte_length [] = 0
byte_length (c ∷ s) = char_bytes (code c) + byte_length s

-- A text cut to its first `n` bytes; a character that the cut would split goes.
unfoldable pub take_bytes : ℕ → String → String
unfolding byte_length
take_bytes n [] = ""
take_bytes n (c ∷ s) =
    let rest = take_bytes (n - byte_length (c ∷ [])) s in
    if leb (byte_length (c ∷ [])) n then c ∷ rest else ""

-- So many broken bytes, each of which Go reads as U+FFFD.
broken_bytes : ℕ → String
broken_bytes Prim.Native.Nat.zero = ""
broken_bytes (Prim.Native.Nat.suc n) = "�" ++ broken_bytes n

-- s[:n], where the bytes that are left of a split character are broken
unfoldable pub cut_bytes : ℕ → String → String
unfolding byte_length broken_bytes
cut_bytes n [] = ""
cut_bytes n (c ∷ s) =
    let rest = cut_bytes (n - byte_length (c ∷ [])) s in
    if leb (byte_length (c ∷ [])) n then c ∷ rest else broken_bytes n

pub byte_length-append : (s t : String) → byte_length (s ++ t) ≡ byte_length s + byte_length t
unfolding byte_length
byte_length-append [] t = omega arith
byte_length-append (c ∷ s) t = omega (arith, byte_length-append s t)

pub byte_length-take_bytes : (n : ℕ) (s : String) → byte_length (take_bytes n s) ≤ n
unfolding take_bytes byte_length
byte_length-take_bytes n [] = omega arith
byte_length-take_bytes n (c ∷ s) =
    let rest = byte_length-take_bytes (n - byte_length (c ∷ [])) s in
    elim (Bool-cases (leb (byte_length (c ∷ [])) n)) [
      | inl e ↦ rw e (omega (arith, rest, leb→le (byte_length (c ∷ [])) n e))
      | inr e ↦ rw e (omega arith)
    ]

-- strings.HasSuffix, with the suffix first
unfoldable pub has_suffix : String → String → Bool
has_suffix p [] = str_eq p ""
has_suffix p (c ∷ s) = str_eq p (c ∷ s) || has_suffix p s

trim_prefix_chars : String → String → String
trim_prefix_chars [] s = s
trim_prefix_chars (c ∷ p) [] = ""
trim_prefix_chars (c ∷ p) (d ∷ s) = trim_prefix_chars p s

-- strings.TrimPrefix and strings.TrimSuffix, with what is trimmed first
unfoldable pub trim_prefix : String → String → String
unfolding trim_prefix_chars
trim_prefix p s = if has_prefix p s then trim_prefix_chars p s else s

unfoldable pub trim_suffix : String → String → String
trim_suffix suffix [] = ""
trim_suffix suffix (c ∷ s) =
    let rest = trim_suffix suffix s in if str_eq (c ∷ s) suffix then "" else c ∷ rest

to_first : String → List String → List String
to_first c List.[] = List.◌∷◌ c List.[]
to_first c (List.◌∷◌ w ws) = List.◌∷◌ (c ++ w) ws

-- strings.Split at the commas
unfoldable pub split_commas : String → List String
unfolding to_first
split_commas [] = List.◌∷◌ "" List.[]
split_commas (c ∷ s) =
    let rest = split_commas s in if code c == 44 then List.◌∷◌ "" rest else to_first (c ∷ []) rest
