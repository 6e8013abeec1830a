-- ===== src/Config.antt =====
-- apps/dashboard/internal/config/config.go: what the dashboard reads from its environment. The fields
-- of Config are grouped by the function that sets them. An error names its variable and the reason,
-- without the values that it quotes. os.Getenv, url.Parse, fmt.Sscanf and strings.ToLower are parameters.
pub mod Apply
use Prim.Native.Char.{code}
use Prim.Native.String.{[] as no_text, ◌∷◌ as then_char}
use lucairn_enterprise_deplo.Base.{
  ℕ, String, Bool, true, false, not, ◌&&◌, ◌||◌, Option, none, some, leb, ltb, ◌==◌, str_eq,
  if◌then◌else◌, Result, ok, err,
}
use lucairn_enterprise_deplo.Base.Int.{ℤ, is_positive, pos_part}
use lucairn_enterprise_deplo.Base.Text.{◌++◌, trim_space, byte_length, contains_code}
use lucairn_enterprise_deplo.Base.Text.Search.{size}

pub record OidcConfig : Type 0 where
  pub enabled : Bool
  pub issuer_url : String
  pub client_id : String
  pub client_secret : String
  pub admin_group : String
  pub viewer_group : String
  pub groups_claim : String
  pub callback_url : String

pub record CertConfig : Type 0 where
  pub audit_db_url : String
  pub witness_endpoint : String
  pub witness_tls_enabled : Bool

pub record HealthConfig : Type 0 where
  pub services : String
  pub poll_interval_seconds : ℕ
  pub grafana_url : String
  pub grafana_jwt_secret : String
  pub panel_gateway_uid : String
  pub panel_sanitizer_uid : String
  pub panel_witness_uid : String
  pub panel_audit_uid : String

pub record KeysConfig : Type 0 where
  pub gateway_admin_url : String
  pub gateway_admin_token : String

pub record AuditLogConfig : Type 0 where
  pub audit_log_db_url : String
  pub saved_filters_db_url : String

-- 0 for a window that is not set
pub record ComplianceConfig : Type 0 where
  pub max_window_days : ℕ
  pub default_customer : String

pub record Config : Type 0 where
  pub listen_addr : String
  pub bootstrap_email : String
  pub bootstrap_password : String
  pub session_secret : String
  pub oidc : OidcConfig
  pub certs : CertConfig
  pub health : HealthConfig
  pub keys : KeysConfig
  pub audit_log : AuditLogConfig
  pub compliance : ComplianceConfig

-- The errors of the steps are passed on.
module _ {A B : Type 0} where
  infixl 5 ◌>>=◌
  pub ◌>>=◌ : Result String A → (A → Result String B) → Result String B
  ok a >>= f = f a
  err e >>= f = err e

-- A check that does not return an error.
pub must : Bool → String → Result String (Unit {0})
must true e = ok tt
must false e = err e

abbrev pub given : String → Bool
given s = not (str_eq s "")

-- strings.TrimRight with "/"
pub trim_slashes : String → String
trim_slashes no_text = ""
trim_slashes (then_char c s) =
    let rest = trim_slashes s in if code c == 47 && str_eq rest "" then "" else then_char c rest

-- firstNonEmpty of two values
pub first_non_empty : String → String → String
first_non_empty a b = if given (trim_space a) then a else if given (trim_space b) then b else ""

-- parseBoolOIDC
pub parse_bool_oidc : String → Bool
parse_bool_oidc v = str_eq v "true" || str_eq v "1" || str_eq v "yes" || str_eq v "on"

uid_char : ℕ → Bool
uid_char c =
    (leb 97 c && leb c 122)
    || (leb 65 c && leb c 90)
    || (leb 48 c && leb c 57)
    || c == 45
    || c == 95

pub uid_chars : String → Bool
unfolding uid_char
uid_chars no_text = true
uid_chars (then_char c s) = uid_char (code c) && uid_chars s

-- grafanaPanelUIDPattern, or no panel
pub panel_uid : String → Bool
panel_uid s = str_eq s "" || (leb 1 (size s) && leb (size s) 64 && uid_chars s)

pub scheme_in : String → String → Option String → Bool
scheme_in a b none = false
scheme_in a b (some scheme) = str_eq scheme a || str_eq scheme b

unfoldable pub config_runs : Unit {0}
unfolding ◌>>=◌ must trim_slashes first_non_empty parse_bool_oidc panel_uid uid_chars uid_char
    scheme_in
config_runs = tt
