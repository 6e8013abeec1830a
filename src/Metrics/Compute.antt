-- ===== src/Metrics/Compute.antt =====
-- Compute of dashboard/metrics.go over its sources: the certificate store, the audit log, the poller and
-- the gateway. A source that is not wired is `none`.
pub mod Green
use lucairn_enterprise_deplo.Base.{
  ℕ, zero, suc, ◌+◌, ◌-◌, ◌*◌, ◌≤◌, String, ◌≡◌, refl, sym, ap, ◌∙◌, Bool, true, false, ◌&&◌, ◌||◌,
  Option, none, some, List, [], ◌∷◌, map, all, length, ltb, ◌==◌, str_eq, if◌then◌else◌, Result, ok,
  err, arith,
}
use lucairn_enterprise_deplo.Base.Int.{ℤ, pos}
use lucairn_enterprise_deplo.Store.CertQuery.{CertSummary, CertFilter, Page}
use lucairn_enterprise_deplo.Gateway.Client.{AdminError, CustomerEntry, ListKeysResult}
use lucairn_enterprise_deplo.Health.Services.{Service, parse_services_spec}
use lucairn_enterprise_deplo.Health.Poller.{Snapshot, Poller, new_poller, snapshots}
use lucairn_enterprise_deplo.Health.Poller.Latest.{run}
use lucairn_enterprise_deplo.Metrics.{
  day, cert_window_days, TimeSeriesPoint, NamedCount, Event, ActivityRow, aggregate_certs,
  aggregate_audit, recent_activity, key_counts,
}

-- CertsLast24hDelta is a percentage of two numbers in the source; here are the two numbers.
pub record Metrics : Type 0 where
  pub certs_total : ℕ
  pub certs_last_24h : ℕ
  pub certs_prev_24h : ℕ
  pub audit_events_total : ℕ
  pub audit_last_24h : ℕ
  pub redactions_total : ℕ
  pub redactions_last_24h : ℕ
  pub services_up : ℕ
  pub services_total : ℕ
  pub services_all_green : Bool
  pub keys_active : ℕ
  pub customers_with_keys : ℕ
  pub cert_volume_by_day : List TimeSeriesPoint
  pub verdict_buckets : List NamedCount
  pub redaction_layers : List NamedCount
  pub recent : List ActivityRow
  pub window_from : ℕ
  pub window_to : ℕ

pub record Admin : Type 0 where
  pub list_customers : Result AdminError (List CustomerEntry)
  pub list_keys : String → Result AdminError ListKeysResult

-- ListEvents is asked with the page number and the page size.
pub record ComputeInput : Type 0 where
  pub certs : Option (CertFilter → Page → Option (List CertSummary × ℕ))
  pub audits : Option (ℕ → ℕ → Option (List Event × ℕ))
  pub admin : Option Admin
  pub health_poller : Option Poller

zero_metrics : ℕ → Metrics
zero_metrics now = record {
  certs_total = 0;
  certs_last_24h = 0;
  certs_prev_24h = 0;
  audit_events_total = 0;
  audit_last_24h = 0;
  redactions_total = 0;
  redactions_last_24h = 0;
  services_up = 0;
  services_total = 0;
  services_all_green = false;
  keys_active = 0;
  customers_with_keys = 0;
  cert_volume_by_day = [];
  verdict_buckets = [];
  redaction_layers = [];
  recent = [];
  window_from = now - cert_window_days * day;
  window_to = now;
}

with_certs : ℕ → Option (List CertSummary × ℕ) → Metrics → Metrics
with_certs now none m = m
with_certs now (some (certs, total)) m =
    let f = aggregate_certs now certs in
    record m {
      certs_total = total;
      cert_volume_by_day = f.buckets;
      verdict_buckets = f.verdicts;
      certs_last_24h = f.last_24h;
      certs_prev_24h = f.prev_24h;
    }

with_audits : ℕ → Option (List Event × ℕ) → Metrics → Metrics
with_audits now none m = m
with_audits now (some (events, total)) m =
    let f = aggregate_audit now events in
    record m {
      audit_events_total = total;
      audit_last_24h = f.last_24h;
      redactions_total = f.redactions;
      redactions_last_24h = f.redactions_last_24h;
      redaction_layers = f.layers;
      recent = recent_activity events 10;
    }

abbrev is_ok : Snapshot → Bool
is_ok s = str_eq s.status "ok"

services_up : List Snapshot → ℕ
services_up [] = 0
services_up (s ∷ ss) = (if is_ok s then 1 else 0) + services_up ss

with_health : List Snapshot → Metrics → Metrics
unfolding services_up
with_health snaps m = record m {
  services_total = length snaps;
  services_up = services_up snaps;
  services_all_green = ltb 0 (length snaps) && services_up snaps == length snaps;
}

with_customers : Admin → Result AdminError (List CustomerEntry) → Metrics → Metrics
with_customers a (err e) m = m
with_customers a (ok customers) m = record m {
  keys_active = (key_counts a.list_keys customers).0;
  customers_with_keys = (key_counts a.list_keys customers).1;
}

with_admin : Admin → Metrics → Metrics
unfolding with_customers
with_admin a m = with_customers a a.list_customers m

abbrev window : ℕ → CertFilter
window now = record {
  from = some (now - cert_window_days * day);
  to = some now;
  verdicts = [];
  customer_id = "";
  redaction_min = 0;
}

module _ {A : Type 0} where
  wired : Option A → (A → Metrics → Metrics) → Metrics → Metrics
  wired none step m = m
  wired (some source) step m = step source m

-- Compute
pub compute : ℕ → ComputeInput → Metrics
unfolding zero_metrics with_certs with_audits with_health with_admin wired
compute now input =
    let m1 =
      wired input.certs
        (λ list. with_certs now (list (window now) (record { limit = pos 500; offset = pos 0 })))
        (zero_metrics now) in
    let m2 = wired input.audits (λ list_events. with_audits now (list_events 1 1000)) m1 in
    let m3 = wired input.health_poller (λ p. with_health (snapshots p)) m2 in
    wired input.admin with_admin m3

-- RedactionMax
largest : List NamedCount → ℕ → ℕ
largest [] n = n
largest (r ∷ rs) n = largest rs (if ltb n r.count then r.count else n)

pub redaction_max : Metrics → ℕ
unfolding largest
redaction_max m = largest m.redaction_layers 0

-- HasAnyData
pub has_any_data : Metrics → Bool
has_any_data m =
    ltb 0 m.certs_total
    || ltb 0 m.audit_events_total
    || ltb 0 m.redactions_total
    || ltb 0 m.services_total
    || ltb 0 m.keys_active
