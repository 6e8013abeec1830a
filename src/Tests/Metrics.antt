-- ===== src/Tests/Metrics.antt =====
-- The figures of the home page for a few certificates and events.
use lucairn_enterprise_deplo.Base.{ℕ, ◌*◌, ◌+◌, List, [], ◌∷◌, String}
use lucairn_enterprise_deplo.Store.CertQuery.{CertSummary}
use lucairn_enterprise_deplo.Metrics.{Event, aggregate_certs, aggregate_audit, day}
use lucairn_enterprise_deplo.Metrics.Volume.{IsCounted, aggregate_certs-IsCounted}
use lucairn_enterprise_deplo.Metrics.Redactions.{IsTallied, aggregate_audit-IsTallied}

abbrev cert : ℕ → String → CertSummary
cert t verdict = record {
  id = "c";
  request_id = "r";
  customer_id = "acme";
  created_at = t;
  verdict = verdict;
  redaction_count = 0;
  claim_count = 0;
}

abbrev certs : List CertSummary
certs = cert (99 * day + 5) "verified" ∷ cert (98 * day) "partial" ∷ cert 3 "" ∷ []

aggregate_certs-IsCounted_example : IsCounted (100 * day) certs (aggregate_certs (100 * day) certs)
aggregate_certs-IsCounted_example = aggregate_certs-IsCounted (100 * day) certs

abbrev event : ℕ → String → Event
event t event_type = record {
  timestamp = t;
  event_type = event_type;
  source_service = "gateway";
  actor = "a@b";
  request_id = "r";
}

abbrev events : List Event
events =
    event (99 * day + 5) "sanitizer.l1_redaction"
    ∷ event 7 "sanitizer.l3_redaction"
    ∷ event (99 * day + 8) "chat"
    ∷ []

aggregate_audit-IsTallied_example :
    IsTallied (100 * day) events (aggregate_audit (100 * day) events)
aggregate_audit-IsTallied_example = aggregate_audit-IsTallied (100 * day) events
