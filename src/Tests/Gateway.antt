-- ===== src/Tests/Gateway.antt =====
-- The gateway client's texts at concrete inputs.
use lucairn_enterprise_deplo.Base.{String, ◌≡◌, refl, false, some}
use lucairn_enterprise_deplo.Base.Text.Search.{search_runs}
use lucairn_enterprise_deplo.Gateway.Redact.{redact_sensitive, redact_runs}
use lucairn_enterprise_deplo.Gateway.Redact.Scrubbed.{shows_key, redact_sensitive_scrubs}

abbrev leaking : String
leaking = "x-admin-key: s3cret, lcr_live_0aF9-x, lcr_live_12"

redacts : redact_sensitive leaking ≡ some "x-admin-key: ***, lcr_live_***-x, lcr_live_***"
unfolding redact_sensitive redact_runs search_runs
redacts = refl

redact_sensitive_scrubs_example :
    (out : String) × (redact_sensitive leaking ≡ some out) × (shows_key out ≡ false)
redact_sensitive_scrubs_example = redact_sensitive_scrubs leaking
