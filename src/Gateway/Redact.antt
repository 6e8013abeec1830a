-- ===== src/Gateway/Redact.antt =====
-- redactSensitive of apps/dashboard/internal/gateway/admin_client.go: what stays of a text that is
-- put into an error. The loops search from a cursor: `done` is the text before it.
pub mod Scrubbed
use Prim.Native.Char.{code}
use Prim.Native.String.{[] as no_text, ◌∷◌ as then_char}
use lucairn_enterprise_deplo.Base.{
  ℕ, zero, suc, String, Bool, ◌&&◌, ◌||◌, Option, none, some, leb, ◌==◌, if◌then◌else◌,
}
use lucairn_enterprise_deplo.Base.Text.{◌++◌}
use lucairn_enterprise_deplo.Base.Text.Search.{size, cut}

pub is_hex : ℕ → Bool
is_hex c = (leb 48 c && leb c 57) || (leb 97 c && leb c 102) || (leb 65 c && leb c 70)

pub ends_value : ℕ → Bool
ends_value c = c == 10 || c == 44

-- The inner loops: to the first character that is not a digit, or that ends the header's value.
pub past_hex : String → String
past_hex no_text = ""
past_hex (then_char c s) = let rest = past_hex s in if is_hex (code c) then rest else then_char c s

pub past_value : String → String
past_value no_text = ""
past_value (then_char c s) =
    let rest = past_value s in if ends_value (code c) then then_char c s else rest

-- The two outer loops: `mask` is what takes the place of what `skip` drops after each marker.
-- `none` is a loop that has run out of its fuel.
pub mask_from : (String → String) → String → String → ℕ → String → String → Option String
mask_from skip marker mask zero done rest = none
mask_from skip marker mask (suc fuel) done rest = elim (cut marker rest) [
  | none ↦ some (done ++ rest)
  | some (before, after) ↦
      mask_from skip marker mask fuel (done ++ before ++ marker ++ mask) (skip after)
]

pub mask_all : (String → String) → String → String → String → Option String
unfolding mask_from
mask_all skip marker mask s = mask_from skip marker mask (suc (size s)) "" s

pub then_mask : (String → String) → String → String → Option String → Option String
unfolding mask_all
then_mask skip marker mask none = none
then_mask skip marker mask (some s) = mask_all skip marker mask s

-- redactSensitive
unfoldable pub redact_sensitive : String → Option String
unfolding past_hex past_value mask_all then_mask
redact_sensitive s =
    then_mask past_hex "lcr_live_" "***"
      (then_mask past_value "x-admin-key:" " ***" (mask_all past_value "X-Admin-Key:" " ***" s))

unfoldable pub redact_runs : Unit {0}
unfolding is_hex ends_value past_hex past_value mask_from mask_all then_mask
redact_runs = tt
