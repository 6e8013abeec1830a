-- ===== src/Handlers/Keys/Escape/Decoding.antt =====
-- What an escaped value decodes to.
use Prim.Native.Char.{Char, char, code}
use Prim.Native.String.{[] as no_text, ◌∷◌ as then_char}
use mathlib.Core.List.{◌++◌ as append}
use lucairn_enterprise_deplo.Base.{
  ℕ, zero, suc, ◌+◌, ◌*◌, ◌-◌, ◌/◌, ◌%◌, ◌<◌, String, ◌≡◌, refl, sym, ap, ◌∙◌, true, false, List,
  [], ◌∷◌, ltb, ◌==◌, if◌then◌else◌, arith, Bool-cases, inl, inr, All,
}
use lucairn_enterprise_deplo.Base.Text.{◌++◌}
use lucairn_enterprise_deplo.Handlers.Keys.Escape.{
  is_safe, utf8_of, hex_digit, escape_bytes, escape_query_value,
}

-- The value of a digit in base 16.
value_of : ℕ → ℕ
value_of c = if ltb c 65 then c - 48 else if ltb c 97 then c - 55 else c - 87

-- Percent-decoding, to bytes.
mutual
  pub decode : String → List ℕ
  decode no_text = []
  decode (then_char c s) = if code c == 37 then decode_high s else code c ∷ decode s

  decode_high : String → List ℕ
  decode_high no_text = []
  decode_high (then_char c s) = decode_low (value_of (code c)) s

  decode_low : ℕ → String → List ℕ
  decode_low h no_text = []
  decode_low h (then_char c s) = (h * 16 + value_of (code c)) ∷ decode s

-- The bytes of a text.
pub utf8 : String → List ℕ
utf8 no_text = []
utf8 (then_char c s) = append (utf8_of (code c)) (utf8 s)

-- A hexadecimal digit stands for its value, in either place.
digit :
    (d : ℕ)
    → d < 16
    → (h : ℕ) (s : String)
    → (decode_high (hex_digit d ++ s) ≡ decode_low d s)
      × (decode_low h (hex_digit d ++ s) ≡ (h * 16 + d) ∷ decode s)
unfolding decode_high decode_low hex_digit value_of
digit zero l h s = (refl, refl)
digit (suc zero) l h s = (refl, refl)
digit (suc (suc zero)) l h s = (refl, refl)
digit (suc (suc (suc zero))) l h s = (refl, refl)
digit (suc (suc (suc (suc zero)))) l h s = (refl, refl)
digit (suc (suc (suc (suc (suc zero))))) l h s = (refl, refl)
digit (suc (suc (suc (suc (suc (suc zero)))))) l h s = (refl, refl)
digit (suc (suc (suc (suc (suc (suc (suc zero))))))) l h s = (refl, refl)
digit (suc (suc (suc (suc (suc (suc (suc (suc zero)))))))) l h s = (refl, refl)
digit (suc (suc (suc (suc (suc (suc (suc (suc (suc zero))))))))) l h s = (refl, refl)
digit (suc (suc (suc (suc (suc (suc (suc (suc (suc (suc zero)))))))))) l h s = (refl, refl)
digit (suc (suc (suc (suc (suc (suc (suc (suc (suc (suc (suc zero))))))))))) l h s = (refl, refl)
digit (suc (suc (suc (suc (suc (suc (suc (suc (suc (suc (suc (suc zero)))))))))))) l h s =
    (refl, refl)
digit (suc (suc (suc (suc (suc (suc (suc (suc (suc (suc (suc (suc (suc zero))))))))))))) l h s =
    (refl, refl)
digit (suc (suc (suc (suc (suc (suc (suc (suc (suc (suc (suc (suc (suc (suc zero)))))))))))))) l h
      s =
    (refl, refl)
digit (suc (suc (suc (suc (suc (suc (suc (suc (suc (suc (suc (suc (suc (suc (suc zero)))))))))))))))
      l h s =
    (refl, refl)
digit
      (suc
        (suc (suc (suc (suc (suc (suc (suc (suc (suc (suc (suc (suc (suc (suc (suc d))))))))))))))))
      l h s =
    absurd (omega arith)

decode-escape_bytes :
    (bs : List ℕ) (out : String)
    → All (λ b. b < 256) bs
    → decode (escape_bytes bs out) ≡ append bs (decode out)
unfolding decode escape_bytes
decode-escape_bytes [] out h = refl
decode-escape_bytes (b ∷ bs) out (h, hs) =
    let rest = escape_bytes bs out in
    let (high, _) = digit (b / 16) (omega arith) 0 (hex_digit (b % 16) ++ rest) in
    let (_, low) = digit (b % 16) (omega arith) (b / 16) rest in
    let whole : b / 16 * 16 + b % 16 ≡ b = omega arith in
    high ∙ low ∙ rw (whole, decode-escape_bytes bs out hs) refl

utf8_of-bytes : (c : ℕ) → c < 0x110000 → All (λ b. b < 256) (utf8_of c)
unfolding utf8_of
utf8_of-bytes c h = ground arith

safe_alone :
    (c : Char) (rest : List ℕ)
    → is_safe (code c) ≡ true
    → (code c == 37 ≡ false) × (append (utf8_of (code c)) rest ≡ code c ∷ rest)
unfolding is_safe utf8_of
safe_alone c rest h = (ground arith, ground arith)

code_bound : (c : Char) → code c < 0x110000
code_bound (char n scalar) = ground arith

-- Decoding an escaped value gives back its bytes.
pub decode-escape_query_value : (v : String) → decode (escape_query_value v) ≡ utf8 v
unfolding decode escape_query_value utf8
decode-escape_query_value no_text = refl
decode-escape_query_value (then_char c s) = elim (Bool-cases (is_safe (code c))) [
  | inl e ↦
      let (a, b) = safe_alone c (utf8 s) e in
      rw (e, decode, a) (ap (λ l. code c ∷ l) (decode-escape_query_value s) ∙ sym b)
  | inr e ↦ rw e (
      decode-escape_bytes (utf8_of (code c)) (escape_query_value s)
        (utf8_of-bytes (code c) (code_bound c))
      ∙ ap (append (utf8_of (code c))) (decode-escape_query_value s))
]
