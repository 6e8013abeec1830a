-- ===== src/Handlers/Keys/Escape.antt =====
-- escapeQueryValue of apps/dashboard/internal/handlers/keys.go, on the bytes of a text in UTF-8.
pub mod Decoding
use Prim.Native.Char.{Char, code}
use Prim.Native.String.{[] as no_text, ◌∷◌ as then_char}
use lucairn_enterprise_deplo.Base.{
  ℕ, ◌+◌, ◌/◌, ◌%◌, String, Bool, ◌&&◌, ◌||◌, List, [], ◌∷◌, leb, ltb, ◌==◌, if◌then◌else◌,
}
use lucairn_enterprise_deplo.Base.Text.{◌++◌}

pub is_safe : ℕ → Bool
is_safe c =
    (leb 48 c && leb c 57)
    || (leb 97 c && leb c 122)
    || (leb 65 c && leb c 90)
    || c == 95
    || c == 45
    || c == 46

-- The bytes of a character.
pub utf8_of : ℕ → List ℕ
utf8_of c =
    if ltb c 0x80
    then c ∷ []
    else if ltb c 0x800
    then (0xc0 + c / 64) ∷ (0x80 + c % 64) ∷ []
    else if ltb c 0x10000
    then (0xe0 + c / 4096) ∷ (0x80 + c / 64 % 64) ∷ (0x80 + c % 64) ∷ []
    else (0xf0 + c / 262144) ∷ (0x80 + c / 4096 % 64) ∷ (0x80 + c / 64 % 64) ∷ (0x80 + c % 64) ∷ []

-- hex[d]
pub hex_digit : ℕ → String
hex_digit d =
    if d == 0
    then "0"
    else if d == 1
    then "1"
    else if d == 2
    then "2"
    else if d == 3
    then "3"
    else if d == 4
    then "4"
    else if d == 5
    then "5"
    else if d == 6
    then "6"
    else if d == 7
    then "7"
    else if d == 8
    then "8"
    else if d == 9
    then "9"
    else if d == 10
    then "A"
    else if d == 11
    then "B"
    else if d == 12
    then "C"
    else if d == 13
    then "D"
    else if d == 14
    then "E"
    else "F"

pub escape_bytes : List ℕ → String → String
unfolding hex_digit
escape_bytes [] out = out
escape_bytes (b ∷ bs) out =
    let rest = escape_bytes bs out in "%" ++ hex_digit (b / 16) ++ hex_digit (b % 16) ++ rest

-- A safe byte is a character of its own; no byte of a longer character is safe.
unfoldable pub escape_query_value : String → String
unfolding is_safe utf8_of escape_bytes
escape_query_value no_text = ""
escape_query_value (then_char c s) =
    let rest = escape_query_value s in
    if is_safe (code c) then then_char c rest else escape_bytes (utf8_of (code c)) rest
