-- ===== src/Config/Apply/WellFormed.antt =====
-- What holds of every configuration that the dashboard starts with.
mod Checks
use lucairn_enterprise_deplo.Base.{
  ℕ, String, ◌≡◌, refl, sym, ap, ◌≢◌, ◌⊎◌, inl, inr, ◌≤◌, Bool, true, false, not, ◌&&◌, ◌||◌,
  Option, none, some, leb, ltb, str_eq, if◌then◌else◌, Result, ok, err, arith, Bool-cases, eq_iff,
  leb→le,
}
use lucairn_enterprise_deplo.Base.Int.{ℤ, is_positive, pos_part, pos, negsuc}
use lucairn_enterprise_deplo.Base.Text.{apart, byte_length, contains_code, trim_space}
use lucairn_enterprise_deplo.Base.Text.Search.{size}
use lucairn_enterprise_deplo.Config.{
  ◌>>=◌, parse_bool_oidc, OidcConfig, CertConfig, HealthConfig, KeysConfig, AuditLogConfig,
  ComplianceConfig, Config, must, given, panel_uid, uid_chars, scheme_in,
}
use lucairn_enterprise_deplo.Config.Apply.{
  env, has_scheme, oidc_callback, oidc_enabled_config, oidc_off, apply_oidc_config,
  apply_cert_surface_config, poll_interval_of, poll_interval, grafana, apply_health_surface_config,
  apply_keys_surface_config, apply_audit_log_surface_config, window_of, max_window,
  apply_compliance_surface_config, load,
}
use lucairn_enterprise_deplo.Config.Apply.WellFormed.Checks.{
  past_must, past_bind, must_ok, not_given, is_given, panel_uid-IsPanel, ok_eq, which, IsPanel,
}

module _ (getenv : String → String) (to_lower : String → String)
    (url_scheme : String → Option String) (sscanf_d : String → Option ℤ) where
  abbrev Scheme : String → String → String → Type 0
  Scheme a b url = (url_scheme url ≡ some a) ⊎ (url_scheme url ≡ some b)

  -- OIDC is off, or everything that an authenticator needs is set.
  abbrev IsOidc : OidcConfig → Type 0
  IsOidc c =
      (c.enabled ≡ false)
      ⊎ ((c.issuer_url ≢ "")
          × (c.client_id ≢ "")
          × (c.client_secret ≢ "")
          × (c.admin_group ≢ "")
          × (c.viewer_group ≢ ""))

  -- Each surface is off as a whole, or complete.
  abbrev IsCerts : CertConfig → Type 0
  IsCerts c =
      ((c.audit_db_url ≡ "") × (c.witness_endpoint ≡ ""))
      ⊎ (Scheme "postgres" "postgresql" c.audit_db_url
          × (contains_code 58 c.witness_endpoint ≡ true))

  abbrev GrafanaSet : String → String → Type 0
  GrafanaSet url secret = ((url ≡ "") × (secret ≡ "")) ⊎ (Scheme "http" "https" url × (secret ≢ ""))

  abbrev IsGrafana : HealthConfig → Type 0
  IsGrafana c = GrafanaSet c.grafana_url c.grafana_jwt_secret

  abbrev IsKeys : KeysConfig → Type 0
  IsKeys c =
      ((c.gateway_admin_url ≡ "") × (c.gateway_admin_token ≡ ""))
      ⊎ (Scheme "http" "https" c.gateway_admin_url × (c.gateway_admin_token ≢ ""))

  abbrev IsAuditLog : AuditLogConfig → Type 0
  IsAuditLog c =
      ((c.audit_log_db_url ≡ "") × (c.saved_filters_db_url ≡ ""))
      ⊎ (Scheme "postgres" "postgresql" c.audit_log_db_url
          × ((c.saved_filters_db_url ≡ "") ⊎ Scheme "postgres" "postgresql" c.saved_filters_db_url))

  pub record IsWellFormed (c : Config) : Type 0 where
    pub password : c.bootstrap_password ≢ ""
    pub oidc : IsOidc c.oidc
    pub certs : IsCerts c.certs
    pub interval : (1 ≤ c.health.poll_interval_seconds) × (c.health.poll_interval_seconds ≤ 3600)
    pub grafana : IsGrafana c.health
    pub panels :
        IsPanel c.health.panel_gateway_uid
        × IsPanel c.health.panel_sanitizer_uid
        × IsPanel c.health.panel_witness_uid
        × IsPanel c.health.panel_audit_uid
    pub keys : IsKeys c.keys
    pub audit_log : IsAuditLog c.audit_log
    pub window : c.compliance.max_window_days ≤ 3650
    pub customer : byte_length c.compliance.default_customer ≤ 200

  scheme_found :
      (a b : String) (o : Option String) → scheme_in a b o ≡ true → (o ≡ some a) ⊎ (o ≡ some b)
  unfolding scheme_in
  scheme_found a b none h = cc
  scheme_found a b (some s) h = elim (Bool-cases (str_eq s a)) [
    | inl e ↦ inl (ap some ((eq_iff s a).0 e))
    | inr e ↦ inr (ap some ((eq_iff s b).0 (ground arith)))
  ]

  has_scheme-Scheme :
      (a b url : String)
      → has_scheme getenv to_lower url_scheme sscanf_d a b url ≡ true
      → Scheme a b url
  unfolding has_scheme
  has_scheme-Scheme a b url h = scheme_found a b (url_scheme url) h

  oidc_enabled_config-IsOidc :
      (c : OidcConfig) → oidc_enabled_config getenv to_lower url_scheme sscanf_d ≡ ok c → IsOidc c
  unfolding oidc_enabled_config
  oidc_enabled_config-IsOidc c h =
      let (issuer, h1) = past_must _ _ _ c h in
      let (_, h2) = past_must _ _ _ c h1 in
      let (id, h3) = past_must _ _ _ c h2 in
      let (secret, h4) = past_must _ _ _ c h3 in
      let (admin, h5) = past_must _ _ _ c h4 in
      let (viewer, h6) = past_must _ _ _ c h5 in
      let (callback, _, h7) = past_bind _ _ c h6 in
      let (_, h8) = past_must _ _ _ c h7 in
      rw (← ok_eq _ c h8) (
        inr (
          is_given _ issuer,
          is_given _ id,
          is_given _ secret,
          is_given _ admin,
          is_given _ viewer,
        ))

  apply_oidc_config-IsOidc :
      (c : OidcConfig) → apply_oidc_config getenv to_lower url_scheme sscanf_d ≡ ok c → IsOidc c
  unfolding apply_oidc_config
  apply_oidc_config-IsOidc c h =
      elim (which
        (parse_bool_oidc (trim_space (to_lower (getenv "LUCAIRN_DASHBOARD_OIDC_ENABLED")))) _ _ c
        h) [
          | inl (_, e) ↦ oidc_enabled_config-IsOidc c e
          | inr (_, e) ↦ rw (← ok_eq _ c e) (inl refl)
        ]

  apply_cert_surface_config-IsCerts :
      (c : CertConfig)
      → apply_cert_surface_config getenv to_lower url_scheme sscanf_d ≡ ok c
      → IsCerts c
  unfolding apply_cert_surface_config
  apply_cert_surface_config-IsCerts c h =
      elim (which
        (str_eq (env getenv to_lower url_scheme sscanf_d "LUCAIRN_DASHBOARD_AUDIT_DB_URL") "") _ _ c
        h) [
          | inl (_, e) ↦ rw (← ok_eq _ c e) (inl (refl, refl))
          | inr (_, h1) ↦
              let (_, h2) = past_must _ _ _ c h1 in
              let (scheme, h3) = past_must _ _ _ c h2 in
              let (port, h4) = past_must _ _ _ c h3 in
              rw (← ok_eq _ c h4) (inr (has_scheme-Scheme _ _ _ scheme, port))
        ]

  bounded :
      (n : ℕ) (o : Option ℤ)
      → poll_interval_of getenv to_lower url_scheme sscanf_d o ≡ ok n
      → (1 ≤ n) × (n ≤ 3600)
  unfolding poll_interval_of
  bounded n none h = cc
  bounded n (some (pos k)) h = (ground arith, ground arith)
  bounded n (some (negsuc k)) h = cc

  poll_interval-bounds :
      (n : ℕ) → poll_interval getenv to_lower url_scheme sscanf_d ≡ ok n → (1 ≤ n) × (n ≤ 3600)
  unfolding poll_interval
  poll_interval-bounds n h =
      elim (which
        (given (
          env getenv to_lower url_scheme sscanf_d "LUCAIRN_DASHBOARD_HEALTH_POLL_INTERVAL_SECONDS"))
        _ _ n h) [
          | inl (_, e) ↦
              bounded n
                (sscanf_d (
                  env getenv to_lower url_scheme sscanf_d
                    "LUCAIRN_DASHBOARD_HEALTH_POLL_INTERVAL_SECONDS"))
                e
          | inr (_, e) ↦ rw (← ok_eq _ n e) (omega arith)
        ]

  grafana-IsGrafana :
      (url secret : String)
      → grafana getenv to_lower url_scheme sscanf_d url secret ≡ ok tt
      → GrafanaSet url secret
  unfolding grafana
  grafana-IsGrafana url secret h = elim (which (given url) _ _ tt h) [
    | inl (_, h1) ↦
        let (scheme, h2) = past_must _ _ _ tt h1 in
        inr (has_scheme-Scheme _ _ _ scheme, is_given _ (must_ok _ _ h2))
    | inr (no_url, h1) ↦ inl (not_given _ no_url, (eq_iff secret "").0 (must_ok _ _ h1))
  ]

  apply_health_surface_config-parts :
      (c : HealthConfig)
      → apply_health_surface_config getenv to_lower url_scheme sscanf_d ≡ ok c
      → ((1 ≤ c.poll_interval_seconds) × (c.poll_interval_seconds ≤ 3600))
        × IsGrafana c
        × (IsPanel c.panel_gateway_uid
            × IsPanel c.panel_sanitizer_uid
            × IsPanel c.panel_witness_uid
            × IsPanel c.panel_audit_uid)
  unfolding apply_health_surface_config
  apply_health_surface_config-parts c h =
      let (n, interval, h1) = past_bind _ _ c h in
      let (a, h2) = past_must _ _ _ c h1 in
      let (b, h3) = past_must _ _ _ c h2 in
      let (d, h4) = past_must _ _ _ c h3 in
      let (e, h5) = past_must _ _ _ c h4 in
      let (u, checked, h6) = past_bind _ _ c h5 in
      rw (← ok_eq _ c h6) (
        poll_interval-bounds n interval,
        grafana-IsGrafana _ _ checked,
        (
          panel_uid-IsPanel _ a,
          panel_uid-IsPanel _ b,
          panel_uid-IsPanel _ d,
          panel_uid-IsPanel _ e,
        ),
      )

  apply_keys_surface_config-IsKeys :
      (c : KeysConfig)
      → apply_keys_surface_config getenv to_lower url_scheme sscanf_d ≡ ok c
      → IsKeys c
  unfolding apply_keys_surface_config
  apply_keys_surface_config-IsKeys c h =
      elim (which
        (str_eq (env getenv to_lower url_scheme sscanf_d "LUCAIRN_DASHBOARD_GATEWAY_ADMIN_URL") ""
          && str_eq
              (env getenv to_lower url_scheme sscanf_d "LUCAIRN_DASHBOARD_GATEWAY_ADMIN_TOKEN") "")
        _ _ c h) [
          | inl (_, e) ↦ rw (← ok_eq _ c e) (inl (refl, refl))
          | inr (_, h1) ↦
              let (_, h2) = past_must _ _ _ c h1 in
              let (token, h3) = past_must _ _ _ c h2 in
              let (scheme, h4) = past_must _ _ _ c h3 in
              rw (← ok_eq _ c h4) (inr (has_scheme-Scheme _ _ _ scheme, is_given _ token))
        ]

  saved_ok :
      (url : String)
      → (str_eq url ""
          || has_scheme getenv to_lower url_scheme sscanf_d "postgres" "postgresql" url)
        ≡ true
      → (url ≡ "") ⊎ Scheme "postgres" "postgresql" url
  saved_ok url h = elim (Bool-cases (str_eq url "")) [
    | inl e ↦ inl ((eq_iff url "").0 e)
    | inr e ↦ inr (has_scheme-Scheme _ _ url (ground arith))
  ]

  apply_audit_log_surface_config-IsAuditLog :
      (c : AuditLogConfig)
      → apply_audit_log_surface_config getenv to_lower url_scheme sscanf_d ≡ ok c
      → IsAuditLog c
  unfolding apply_audit_log_surface_config
  apply_audit_log_surface_config-IsAuditLog c h =
      elim (which
        (str_eq (env getenv to_lower url_scheme sscanf_d "LUCAIRN_DASHBOARD_AUDIT_LOG_DB_URL") "") _
        _ c h) [
          | inl (_, e) ↦ rw (← ok_eq _ c e) (inl (refl, refl))
          | inr (_, h1) ↦
              let (scheme, h2) = past_must _ _ _ c h1 in
              let (saved, h3) = past_must _ _ _ c h2 in
              rw (← ok_eq _ c h3) (inr (has_scheme-Scheme _ _ _ scheme, saved_ok _ saved))
        ]

  window_bounded :
      (n : ℕ) (o : Option ℤ) → window_of getenv to_lower url_scheme sscanf_d o ≡ ok n → n ≤ 3650
  unfolding window_of
  window_bounded n none h = cc
  window_bounded n (some (pos k)) h = ground arith
  window_bounded n (some (negsuc k)) h = cc

  max_window-bound : (n : ℕ) → max_window getenv to_lower url_scheme sscanf_d ≡ ok n → n ≤ 3650
  unfolding max_window
  max_window-bound n h =
      elim (which
        (given
          (env getenv to_lower url_scheme sscanf_d "LUCAIRN_DASHBOARD_COMPLIANCE_MAX_WINDOW_DAYS"))
        _ _ n h) [
          | inl (_, e) ↦
              window_bounded n
                (sscanf_d (
                  env getenv to_lower url_scheme sscanf_d
                    "LUCAIRN_DASHBOARD_COMPLIANCE_MAX_WINDOW_DAYS"))
                e
          | inr (_, e) ↦ rw (← ok_eq _ n e) (omega arith)
        ]

  apply_compliance_surface_config-parts :
      (c : ComplianceConfig)
      → apply_compliance_surface_config getenv to_lower url_scheme sscanf_d ≡ ok c
      → (c.max_window_days ≤ 3650) × (byte_length c.default_customer ≤ 200)
  unfolding apply_compliance_surface_config
  apply_compliance_surface_config-parts c h =
      let (short, h1) = past_must _ _ _ c h in
      let (n, days, h2) = past_bind _ _ c h1 in
      rw (← ok_eq _ c h2) (max_window-bound n days, leb→le _ 200 short)

  -- Every configuration that Load gives has a bootstrap password, and each optional part of it is off as
  -- a whole or complete: OIDC with issuer, client, secret and both groups; the certificate surface with a
  -- Postgres URL and a witness endpoint with a port; Grafana with an HTTP URL and a secret; the gateway
  -- with an HTTP URL and a token; the audit log with Postgres URLs. The poll interval lies within an
  -- hour, every panel's identifier is harmless in a URL, and the report's window and customer are bounded.
  pub load-IsWellFormed :
      (c : Config) → load getenv to_lower url_scheme sscanf_d ≡ ok c → IsWellFormed c
  unfolding load
  load-IsWellFormed c h =
      let (password, h1) = past_must _ _ _ c h in
      let (oidc, oidc_set, h2) = past_bind _ _ c h1 in
      let (certs, certs_set, h3) = past_bind _ _ c h2 in
      let (health, health_set, h4) = past_bind _ _ c h3 in
      let (keys, keys_set, h5) = past_bind _ _ c h4 in
      let (audit_log, audit_log_set, h6) = past_bind _ _ c h5 in
      let (compliance, compliance_set, h7) = past_bind _ _ c h6 in
      let (interval, grafana_ok, panels) = apply_health_surface_config-parts health health_set in
      let (window, customer) = apply_compliance_surface_config-parts compliance compliance_set in
      rw (← ok_eq _ c h7) (record {
        password = is_given _ password;
        oidc = apply_oidc_config-IsOidc oidc oidc_set;
        certs = apply_cert_surface_config-IsCerts certs certs_set;
        interval = interval;
        grafana = grafana_ok;
        panels = panels;
        keys = apply_keys_surface_config-IsKeys keys keys_set;
        audit_log = apply_audit_log_surface_config-IsAuditLog audit_log audit_log_set;
        window = window;
        customer = customer;
      })
