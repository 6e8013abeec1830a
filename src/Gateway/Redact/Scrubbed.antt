-- ===== src/Gateway/Redact/Scrubbed.antt =====
-- No key gets through the redaction.
use Prim.Native.Char.{code}
use Prim.Native.String.{[] as no_text, ◌∷◌ as then_char}
use lucairn_enterprise_deplo.Base.{
  ℕ, zero, suc, ◌≤◌, ◌<◌, String, ◌≡◌, refl, ap, ◌∙◌, Bool, false, not, none, some, arith,
  Bool-cases, inl, inr, Option-cases,
}
use lucairn_enterprise_deplo.Base.Text.{◌++◌, append_assoc}
use lucairn_enterprise_deplo.Base.Text.Search.{size, follows, somewhere, cut, search_runs}
use lucairn_enterprise_deplo.Base.Text.Search.Cut.{
  Before, here, later, cut-Before, Before-shorter, somewhere-Before, somewhere-cut,
}
use lucairn_enterprise_deplo.Gateway.Redact.{
  is_hex, past_hex, past_value, mask_from, mask_all, then_mask, redact_sensitive,
}

abbrev pub hex_next : String → Bool
hex_next no_text = false
hex_next (then_char c s) = is_hex (code c)

-- What stands behind the prefix of a live key, unless it is the mask and then no digit.
abbrev pub unmasked : String → Bool
unmasked s = not (follows (λ t. not (hex_next t)) "***" s)

-- A live key shows somewhere.
pub shows_key : String → Bool
shows_key s = somewhere (follows unmasked "lcr_live_") s

joined : (a b c d : String) → (a ++ b ++ c) ++ d ≡ a ++ b ++ c ++ d
joined a b c d = append_assoc a (b ++ c) d ∙ ap (λ x. a ++ x) (append_assoc b c d)

-- A loop that masks what a marker announces.
module _ (skip : String → String) (marker mask : String)
    (skips : (s : String) → size (skip s) ≤ size s) (some_marker : 1 ≤ size marker) where
  -- The loop comes to an end, and `P` relates the text to what it leaves, where `P` relates a text
  -- without the marker to itself, and goes over to texts in front of which an occurrence is put.
  mask_from_inv :
      (P : String → String → Type 0)
      → ((s : String) → cut marker s ≡ none → P s s)
      → ((s before after out : String)
          → Before marker s before after
          → P (skip after) out
          → P s (before ++ marker ++ mask ++ out))
      → (fuel : ℕ) (done rest : String) → size rest < fuel
      → (out : String) × (mask_from skip marker mask fuel done rest ≡ some (done ++ out))
        × P rest out
  unfolding mask_from
  mask_from_inv P base step zero done rest h = absurd (omega arith)
  mask_from_inv P base step (suc fuel) done rest h = elim (Option-cases (cut marker rest)) [
    | inl e ↦ (rest, rw (e, mask_from) refl, base rest e)
    | inr ((before, after), e) ↦
        let b = cut-Before marker rest before after e in
        let (out, runs, p) =
          mask_from_inv P base step fuel (done ++ before ++ marker ++ mask) (skip after)
            (omega (arith, skips after, Before-shorter b)) in
        (
          before ++ marker ++ mask ++ out,
          rw (e, mask_from)
              (runs
                ∙ ap some (
                    joined done before (marker ++ mask) out
                    ∙ ap (λ x. done ++ before ++ x) (append_assoc marker mask out))),
          step rest before after out b p,
        )
  ]

  mask_all_inv :
      (P : String → String → Type 0)
      → ((s : String) → cut marker s ≡ none → P s s)
      → ((s before after out : String)
          → Before marker s before after
          → P (skip after) out
          → P s (before ++ marker ++ mask ++ out))
      → (s : String) → (out : String) × (mask_all skip marker mask s ≡ some out) × P s out
  unfolding mask_all
  mask_all_inv P base step s = mask_from_inv P base step (suc (size s)) "" s (omega arith)

size-past_hex : (s : String) → size (past_hex s) ≤ size s
unfolding past_hex
size-past_hex no_text = omega arith
size-past_hex (then_char c s) = ground (arith, size-past_hex s)

size-past_value : (s : String) → size (past_value s) ≤ size s
unfolding past_value
size-past_value no_text = omega arith
size-past_value (then_char c s) = ground (arith, size-past_value s)

-- The header loops come to an end.
header_masked :
    (marker s : String)
    → 1 ≤ size marker
    → (out : String) × (mask_all past_value marker " ***" s ≡ some out)
header_masked marker s h =
    let (out, e, _) =
      mask_all_inv past_value marker " ***" size-past_value h (λ t t'. Unit) (λ s e. tt)
        (λ s b a o k p. tt) s in
    (out, e)

hex_next-past_hex : (s : String) → hex_next (past_hex s) ≡ false
unfolding past_hex
hex_next-past_hex no_text = refl
hex_next-past_hex (then_char c s) = elim (Bool-cases (is_hex (code c))) [
  | inl e ↦ rw e (hex_next-past_hex s)
  | inr e ↦ rw e e
]

hex_next-Before :
    {s before after : String} (t : String)
    → Before "lcr_live_" s before after
    → hex_next (before ++ "lcr_live_" ++ t) ≡ hex_next s
unfolding is_hex
hex_next-Before t (here after e) = rw e refl
hex_next-Before t (later c n b) = refl

no_key :
    (out : String)
    → hex_next out ≡ false
    → shows_key out ≡ false
    → shows_key ("lcr_live_***" ++ out) ≡ false
unfolding shows_key search_runs
no_key out n p = rw (n, p) refl

keys_masked :
    (s : String)
    → (out : String) × (mask_all past_hex "lcr_live_" "***" s ≡ some out) × (shows_key out ≡ false)
unfolding shows_key
keys_masked s =
    let (out, e, both) =
      mask_all_inv past_hex "lcr_live_" "***" size-past_hex (omega arith)
        (λ t t'. (shows_key t' ≡ false) × (hex_next t' ≡ hex_next t))
        (λ t e. (somewhere-cut "lcr_live_" t unmasked e, refl))
        (λ t before after out b p. (
          somewhere-Before unmasked ("***" ++ out) b
              ∙ no_key out (p.1 ∙ hex_next-past_hex after) p.0,
          hex_next-Before ("***" ++ out) b,
        ))
        s in
    (out, e, both.0)

-- Whatever the text, the loops come to an end, and in what they leave every prefix of a live key has
-- the mask behind it, and no digit behind the mask.
pub redact_sensitive_scrubs :
    (s : String) → (out : String) × (redact_sensitive s ≡ some out) × (shows_key out ≡ false)
unfolding redact_sensitive
redact_sensitive_scrubs s =
    let (first, e1) = header_masked "X-Admin-Key:" s (omega arith) in
    let (second, e2) = header_masked "x-admin-key:" first (omega arith) in
    let (out, e3, clean) = keys_masked second in
    (out, rw (e1, then_mask, e2, then_mask, e3) refl, clean)
