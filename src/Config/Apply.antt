-- ===== src/Config/Apply.antt =====
-- The steps of Load in apps/dashboard/internal/config/config.go.
pub mod WellFormed
use lucairn_enterprise_deplo.Base.{
  ℕ, String, Bool, true, false, not, ◌&&◌, ◌||◌, Option, none, some, leb, ltb, ◌==◌, str_eq,
  if◌then◌else◌, Result, ok, err,
}
use lucairn_enterprise_deplo.Base.Int.{ℤ, is_positive, pos_part}
use lucairn_enterprise_deplo.Base.Text.{◌++◌, trim_space, byte_length, contains_code}
use lucairn_enterprise_deplo.Config.{
  OidcConfig, CertConfig, HealthConfig, KeysConfig, AuditLogConfig, ComplianceConfig, Config, ◌>>=◌,
  must, given, trim_slashes, first_non_empty, parse_bool_oidc, panel_uid, scheme_in,
}

module _ (getenv : String → String) (to_lower : String → String)
    (url_scheme : String → Option String) (sscanf_d : String → Option ℤ) where
  abbrev env : String → String
  env name = trim_space (getenv name)

  -- The URL parses and has one of two schemes.
  pub has_scheme : String → String → String → Bool
  unfolding scheme_in
  has_scheme a b url = scheme_in a b (url_scheme url)

  abbrev parses : String → Bool
  parses url = elim (url_scheme url) [ none ↦ false | some scheme ↦ true ]

  oidc_callback : Result String String
  unfolding trim_slashes
  oidc_callback =
      let callback = env "LUCAIRN_DASHBOARD_OIDC_CALLBACK_URL" in
      let public = env "LUCAIRN_DASHBOARD_OIDC_PUBLIC_URL" in
      if given callback
      then ok callback
      else if given public
      then ok (trim_slashes public ++ "/auth/oidc/callback")
      else err
          "LUCAIRN_DASHBOARD_OIDC_CALLBACK_URL or LUCAIRN_DASHBOARD_OIDC_PUBLIC_URL must be set"

  oidc_enabled_config : Result String OidcConfig
  unfolding trim_slashes first_non_empty oidc_callback
  oidc_enabled_config = do
    let issuer = trim_slashes (env "LUCAIRN_DASHBOARD_OIDC_ISSUER_URL")
    let id = env "LUCAIRN_DASHBOARD_OIDC_CLIENT_ID"
    let secret = env "LUCAIRN_DASHBOARD_OIDC_CLIENT_SECRET"
    let admin = env "LUCAIRN_DASHBOARD_OIDC_ADMIN_GROUP"
    let viewer = env "LUCAIRN_DASHBOARD_OIDC_VIEWER_GROUP"
    let claim = first_non_empty (env "LUCAIRN_DASHBOARD_OIDC_GROUPS_CLAIM") "groups"
    _ ← must (given issuer) "LUCAIRN_DASHBOARD_OIDC_ISSUER_URL must be set"
    _ ← must (parses issuer) "LUCAIRN_DASHBOARD_OIDC_ISSUER_URL: parse"
    _ ← must (given id) "LUCAIRN_DASHBOARD_OIDC_CLIENT_ID must be set"
    _ ← must (given secret) "LUCAIRN_DASHBOARD_OIDC_CLIENT_SECRET must be set"
    _ ← must (given admin) "LUCAIRN_DASHBOARD_OIDC_ADMIN_GROUP must be set"
    _ ← must (given viewer) "LUCAIRN_DASHBOARD_OIDC_VIEWER_GROUP must be set"
    callback ← oidc_callback
    _ ← must (parses callback) "oidc callback url: parse"
    ok (record {
      enabled = true;
      issuer_url = issuer;
      client_id = id;
      client_secret = secret;
      admin_group = admin;
      viewer_group = viewer;
      groups_claim = claim;
      callback_url = callback;
    })

  abbrev oidc_off : OidcConfig
  oidc_off = record {
    enabled = false;
    issuer_url = "";
    client_id = "";
    client_secret = "";
    admin_group = "";
    viewer_group = "";
    groups_claim = "";
    callback_url = "";
  }

  -- applyOIDCConfig
  pub apply_oidc_config : Result String OidcConfig
  unfolding oidc_enabled_config parse_bool_oidc
  apply_oidc_config =
      if parse_bool_oidc (trim_space (to_lower (getenv "LUCAIRN_DASHBOARD_OIDC_ENABLED")))
      then oidc_enabled_config
      else ok oidc_off

  -- applyCertSurfaceConfig
  pub apply_cert_surface_config : Result String CertConfig
  unfolding has_scheme parse_bool_oidc
  apply_cert_surface_config =
      let url = env "LUCAIRN_DASHBOARD_AUDIT_DB_URL" in
      let endpoint = env "LUCAIRN_DASHBOARD_WITNESS_ENDPOINT" in
      let tls = parse_bool_oidc (to_lower (env "LUCAIRN_DASHBOARD_WITNESS_TLS_ENABLED")) in
      if str_eq url ""
      then ok (record { audit_db_url = ""; witness_endpoint = ""; witness_tls_enabled = tls })
      else (do
        _ ← must (given endpoint) "LUCAIRN_DASHBOARD_WITNESS_ENDPOINT must be set"
        _ ← must (has_scheme "postgres" "postgresql" url) "LUCAIRN_DASHBOARD_AUDIT_DB_URL scheme"
        _ ← must (contains_code 58 endpoint) "LUCAIRN_DASHBOARD_WITNESS_ENDPOINT must be host:port"
        ok (record { audit_db_url = url; witness_endpoint = endpoint; witness_tls_enabled = tls }))

  poll_interval_of : Option ℤ → Result String ℕ
  poll_interval_of none =
      err "LUCAIRN_DASHBOARD_HEALTH_POLL_INTERVAL_SECONDS must be a positive integer"
  poll_interval_of (some n) =
      if not (is_positive n)
      then err "LUCAIRN_DASHBOARD_HEALTH_POLL_INTERVAL_SECONDS must be a positive integer"
      else if ltb 3600 (pos_part n)
      then err "LUCAIRN_DASHBOARD_HEALTH_POLL_INTERVAL_SECONDS must be <= 3600"
      else ok (pos_part n)

  poll_interval : Result String ℕ
  unfolding poll_interval_of
  poll_interval =
      let v = env "LUCAIRN_DASHBOARD_HEALTH_POLL_INTERVAL_SECONDS" in
      if given v then poll_interval_of (sscanf_d v) else ok 10

  grafana : String → String → Result String (Unit {0})
  unfolding has_scheme
  grafana url secret =
      if given url
      then (do
        _ ← must (has_scheme "http" "https" url) "LUCAIRN_DASHBOARD_GRAFANA_URL scheme"
        must (given secret) "LUCAIRN_DASHBOARD_GRAFANA_JWT_SECRET must be set")
      else must (str_eq secret "") "LUCAIRN_DASHBOARD_GRAFANA_URL must be set"

  -- applyHealthSurfaceConfig. The panels are checked in a fixed order here, of which only the
  -- choice of the error depends.
  pub apply_health_surface_config : Result String HealthConfig
  unfolding poll_interval grafana panel_uid
  apply_health_surface_config = do
    let gateway = env "LUCAIRN_DASHBOARD_GRAFANA_PANEL_GATEWAY_THROUGHPUT_UID"
    let sanitizer = env "LUCAIRN_DASHBOARD_GRAFANA_PANEL_SANITIZER_HIT_RATES_UID"
    let witness = env "LUCAIRN_DASHBOARD_GRAFANA_PANEL_WITNESS_VERIFY_RATE_UID"
    let audit = env "LUCAIRN_DASHBOARD_GRAFANA_PANEL_AUDIT_LOG_VOLUME_UID"
    let url = env "LUCAIRN_DASHBOARD_GRAFANA_URL"
    let secret = env "LUCAIRN_DASHBOARD_GRAFANA_JWT_SECRET"
    interval ← poll_interval
    _ ← must (panel_uid gateway) "LUCAIRN_DASHBOARD_GRAFANA_PANEL_GATEWAY_THROUGHPUT_UID"
    _ ← must (panel_uid sanitizer) "LUCAIRN_DASHBOARD_GRAFANA_PANEL_SANITIZER_HIT_RATES_UID"
    _ ← must (panel_uid witness) "LUCAIRN_DASHBOARD_GRAFANA_PANEL_WITNESS_VERIFY_RATE_UID"
    _ ← must (panel_uid audit) "LUCAIRN_DASHBOARD_GRAFANA_PANEL_AUDIT_LOG_VOLUME_UID"
    _ ← grafana url secret
    ok (record {
      services = env "LUCAIRN_DASHBOARD_HEALTH_SERVICES";
      poll_interval_seconds = interval;
      grafana_url = url;
      grafana_jwt_secret = secret;
      panel_gateway_uid = gateway;
      panel_sanitizer_uid = sanitizer;
      panel_witness_uid = witness;
      panel_audit_uid = audit;
    })

  -- applyKeysSurfaceConfig
  pub apply_keys_surface_config : Result String KeysConfig
  unfolding has_scheme
  apply_keys_surface_config =
      let url = env "LUCAIRN_DASHBOARD_GATEWAY_ADMIN_URL" in
      let token = env "LUCAIRN_DASHBOARD_GATEWAY_ADMIN_TOKEN" in
      if str_eq url "" && str_eq token ""
      then ok (record { gateway_admin_url = ""; gateway_admin_token = "" })
      else (do
        _ ← must (given url) "LUCAIRN_DASHBOARD_GATEWAY_ADMIN_URL must be set"
        _ ← must (given token) "LUCAIRN_DASHBOARD_GATEWAY_ADMIN_TOKEN must be set"
        _ ← must (has_scheme "http" "https" url) "LUCAIRN_DASHBOARD_GATEWAY_ADMIN_URL scheme"
        ok (record { gateway_admin_url = url; gateway_admin_token = token }))

  -- applyAuditLogSurfaceConfig
  pub apply_audit_log_surface_config : Result String AuditLogConfig
  unfolding has_scheme
  apply_audit_log_surface_config =
      let url = env "LUCAIRN_DASHBOARD_AUDIT_LOG_DB_URL" in
      let saved = env "LUCAIRN_DASHBOARD_AUDIT_LOG_SAVED_FILTERS_DB_URL" in
      if str_eq url ""
      then ok (record { audit_log_db_url = ""; saved_filters_db_url = "" })
      else (do
        _ ←
            must (has_scheme "postgres" "postgresql" url)
              "LUCAIRN_DASHBOARD_AUDIT_LOG_DB_URL scheme"
        _ ←
            must (str_eq saved "" || has_scheme "postgres" "postgresql" saved)
              "LUCAIRN_DASHBOARD_AUDIT_LOG_SAVED_FILTERS_DB_URL scheme"
        ok (record { audit_log_db_url = url; saved_filters_db_url = saved }))

  window_of : Option ℤ → Result String ℕ
  window_of none = err "LUCAIRN_DASHBOARD_COMPLIANCE_MAX_WINDOW_DAYS must be a positive integer"
  window_of (some n) =
      if not (is_positive n)
      then err "LUCAIRN_DASHBOARD_COMPLIANCE_MAX_WINDOW_DAYS must be a positive integer"
      else if ltb 3650 (pos_part n)
      then err "LUCAIRN_DASHBOARD_COMPLIANCE_MAX_WINDOW_DAYS must be ≤3650 (10 years)"
      else ok (pos_part n)

  max_window : Result String ℕ
  unfolding window_of
  max_window =
      let v = env "LUCAIRN_DASHBOARD_COMPLIANCE_MAX_WINDOW_DAYS" in
      if given v then window_of (sscanf_d v) else ok 0

  -- applyComplianceSurfaceConfig
  pub apply_compliance_surface_config : Result String ComplianceConfig
  unfolding max_window
  apply_compliance_surface_config = do
    let customer = env "LUCAIRN_DASHBOARD_COMPLIANCE_DEFAULT_CUSTOMER_NAME"
    _ ←
        must (leb (byte_length customer) 200)
          "LUCAIRN_DASHBOARD_COMPLIANCE_DEFAULT_CUSTOMER_NAME must be ≤200 chars"
    days ← max_window
    ok (record { max_window_days = days; default_customer = customer })

  -- Load
  unfoldable pub load : Result String Config
  unfolding first_non_empty
  load = do
    let password = env "LUCAIRN_DASHBOARD_BOOTSTRAP_PASSWORD"
    _ ← must (given password) "LUCAIRN_DASHBOARD_BOOTSTRAP_PASSWORD must be set"
    oidc ← apply_oidc_config
    certs ← apply_cert_surface_config
    health ← apply_health_surface_config
    keys ← apply_keys_surface_config
    audit_log ← apply_audit_log_surface_config
    compliance ← apply_compliance_surface_config
    ok (record {
      listen_addr = first_non_empty (getenv "LUCAIRN_DASHBOARD_LISTEN_ADDR") "0.0.0.0:8443";
      bootstrap_email =
          first_non_empty (getenv "LUCAIRN_DASHBOARD_BOOTSTRAP_EMAIL") "admin@lucairn.local";
      bootstrap_password = password;
      session_secret = env "LUCAIRN_DASHBOARD_SESSION_SECRET";
      oidc = oidc;
      certs = certs;
      health = health;
      keys = keys;
      audit_log = audit_log;
      compliance = compliance;
    })

unfoldable pub apply_runs : Unit {0}
unfolding apply_oidc_config apply_cert_surface_config apply_health_surface_config
    apply_keys_surface_config apply_audit_log_surface_config apply_compliance_surface_config
    oidc_enabled_config oidc_callback poll_interval poll_interval_of grafana has_scheme max_window
    window_of
apply_runs = tt
