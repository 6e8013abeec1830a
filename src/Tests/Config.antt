-- ===== src/Tests/Config.antt =====
-- The configuration of a concrete environment.
use lucairn_enterprise_deplo.Base.{
  String, ◌≡◌, refl, false, Option, none, some, str_eq, if◌then◌else◌, ok,
}
use lucairn_enterprise_deplo.Base.Int.{ℤ, pos}
use lucairn_enterprise_deplo.Base.Text.{trim_space, has_prefix, byte_length, contains_code}
use lucairn_enterprise_deplo.Config.{Config, config_runs}
use lucairn_enterprise_deplo.Config.Apply.{load, apply_runs}
use lucairn_enterprise_deplo.Config.Apply.WellFormed.{IsWellFormed, load-IsWellFormed}

abbrev getenv : String → String
getenv name =
    if str_eq name "LUCAIRN_DASHBOARD_BOOTSTRAP_PASSWORD"
    then "correct horse"
    else if str_eq name "LUCAIRN_DASHBOARD_AUDIT_DB_URL"
    then " postgres://db/audit "
    else if str_eq name "LUCAIRN_DASHBOARD_WITNESS_ENDPOINT"
    then "witness:9443"
    else if str_eq name "LUCAIRN_DASHBOARD_HEALTH_POLL_INTERVAL_SECONDS"
    then "30"
    else if str_eq name "LUCAIRN_DASHBOARD_GRAFANA_PANEL_GATEWAY_THROUGHPUT_UID"
    then "panel-1"
    else ""

abbrev scheme : String → Option String
scheme url = if has_prefix "postgres://" url then some "postgres" else none

abbrev scanned : String → Option ℤ
scanned text = some (pos 30)

abbrev expected : Config
expected = record {
  listen_addr = "0.0.0.0:8443";
  bootstrap_email = "admin@lucairn.local";
  bootstrap_password = "correct horse";
  session_secret = "";
  oidc = record {
    enabled = false;
    issuer_url = "";
    client_id = "";
    client_secret = "";
    admin_group = "";
    viewer_group = "";
    groups_claim = "";
    callback_url = "";
  };
  certs = record {
    audit_db_url = "postgres://db/audit";
    witness_endpoint = "witness:9443";
    witness_tls_enabled = false;
  };
  health = record {
    services = "";
    poll_interval_seconds = 30;
    grafana_url = "";
    grafana_jwt_secret = "";
    panel_gateway_uid = "panel-1";
    panel_sanitizer_uid = "";
    panel_witness_uid = "";
    panel_audit_uid = "";
  };
  keys = record { gateway_admin_url = ""; gateway_admin_token = "" };
  audit_log = record { audit_log_db_url = ""; saved_filters_db_url = "" };
  compliance = record { max_window_days = 0; default_customer = "" };
}

loads : load getenv (λ s. s) scheme scanned ≡ ok expected
unfolding load apply_runs config_runs trim_space byte_length contains_code
loads = refl

load-IsWellFormed_example : IsWellFormed getenv (λ s. s) scheme scanned expected
load-IsWellFormed_example = load-IsWellFormed getenv (λ s. s) scheme scanned expected loads
