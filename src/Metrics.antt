-- ===== src/Metrics.antt =====
-- apps/dashboard/internal/dashboard/metrics.go: the figures of the home page. Instants are nanoseconds
-- since 1970; there are no floats here, so the change of a day against the day before stands as the two
-- numbers that it is computed from.
pub mod Volume
pub mod Redactions
pub mod Compute
use lucairn_enterprise_deplo.Base.{
  ℕ, zero, suc, ◌+◌, ◌-◌, ◌*◌, ◌/◌, String, Bool, true, false, ◌&&◌, Option, none, some, List, [],
  ◌∷◌, map, take, length, ltb, leb, ◌==◌, str_eq, if◌then◌else◌, Result, ok, err,
}
use lucairn_enterprise_deplo.Base.Dict
use lucairn_enterprise_deplo.Base.Dict.{Dict}
use lucairn_enterprise_deplo.Store.CertQuery.{CertSummary}
use lucairn_enterprise_deplo.Gateway.Client.{AdminError, CustomerEntry, ListKeysResult}

-- 24 * time.Hour
abbrev pub day : ℕ
day = 86400000000000

abbrev pub cert_window_days : ℕ
cert_window_days = 30

pub record TimeSeriesPoint : Type 0 where
  pub date : ℕ
  pub count : ℕ

pub record NamedCount : Type 0 where
  pub label : String
  pub count : ℕ

-- What is read of an event of the audit log.
pub record Event : Type 0 where
  pub timestamp : ℕ
  pub event_type : String
  pub source_service : String
  pub actor : String
  pub request_id : String

pub record ActivityRow : Type 0 where
  pub at : ℕ
  pub event_type : String
  pub source : String
  pub actor : String
  pub request_id : String

-- The index of a certificate's bucket, if it has one: 29 less its age in whole days, which Go divides
-- towards zero.
pub day_index : ℕ → ℕ → Option ℕ
day_index now created =
    if leb created now
    then (let age = (now - created) / day in if ltb age 30 then some (29 - age) else none)
    else if ltb ((created - now) / day) 1
    then some 29
    else none

-- buckets[i].Count++
pub count_at : ℕ → List TimeSeriesPoint → List TimeSeriesPoint
count_at i [] = []
count_at zero (b ∷ bs) = record b { count = b.count + 1 } ∷ bs
count_at (suc i) (b ∷ bs) = b ∷ count_at i bs

bucketed : Option ℕ → List TimeSeriesPoint → List TimeSeriesPoint
unfolding count_at
bucketed none bs = bs
bucketed (some i) bs = count_at i bs

-- The fresh buckets from number `i` on.
empty_buckets : ℕ → ℕ → ℕ → List TimeSeriesPoint
empty_buckets now i zero = []
empty_buckets now i (suc n) =
    record { date = (now - (29 - i) * day) / day * day; count = 0 } ∷ empty_buckets now (i + 1) n

-- m[k]++
pub counted : String → Dict ℕ → Dict ℕ
counted k m = Dict.insert k (elim (Dict.lookup k m) [ none ↦ 1 | some n ↦ n + 1 ]) m

verdict_name : String → String
verdict_name v = if str_eq v "" then "no-verdict" else v

-- The state of the loop over the certificates.
pub record CertTally : Type 0 where
  pub buckets : List TimeSeriesPoint
  pub verdicts : Dict ℕ
  pub last_24h : ℕ
  pub prev_24h : ℕ

-- The step of the loop.
pub tally_cert : ℕ → CertSummary → CertTally → CertTally
unfolding day_index bucketed counted verdict_name
tally_cert now c t = record {
  buckets = bucketed (day_index now c.created_at) t.buckets;
  verdicts = counted (verdict_name c.verdict) t.verdicts;
  last_24h = if ltb (now - day) c.created_at then t.last_24h + 1 else t.last_24h;
  prev_24h =
      if ltb (now - day) c.created_at
      then t.prev_24h
      else if ltb (now - 2 * day) c.created_at
      then t.prev_24h + 1
      else t.prev_24h;
}

pub tally_certs : ℕ → List CertSummary → CertTally → CertTally
unfolding tally_cert
tally_certs now [] t = t
tally_certs now (c ∷ cs) t = tally_certs now cs (tally_cert now c t)

-- The entries of a chart, in a fixed order, without the empty ones.
pub charted : List String → Dict ℕ → List NamedCount
charted [] m = []
charted (v ∷ vs) m =
    let rest = charted vs m in
    elim (Dict.lookup v m) [
      | none ↦ rest
      | some n ↦ if ltb 0 n then record { label = v; count = n } ∷ rest else rest
    ]

pub record CertFigures : Type 0 where
  pub buckets : List TimeSeriesPoint
  pub verdicts : List NamedCount
  pub last_24h : ℕ
  pub prev_24h : ℕ

abbrev verdict_order : List String
verdict_order = "passed" ∷ "partial" ∷ "failed" ∷ "no-verdict" ∷ []

-- aggregateCerts
pub aggregate_certs : ℕ → List CertSummary → CertFigures
unfolding tally_certs charted empty_buckets
aggregate_certs now cs =
    let t = tally_certs now cs (record {
      buckets = empty_buckets now 0 cert_window_days;
      verdicts = Dict.new;
      last_24h = 0;
      prev_24h = 0;
    }) in
    record {
      buckets = t.buckets;
      verdicts = charted verdict_order t.verdicts;
      last_24h = t.last_24h;
      prev_24h = t.prev_24h;
    }

-- The layer of a redaction event.
pub layer_of : String → Option String
layer_of event_type =
    if str_eq event_type "sanitizer.l1_redaction"
    then some "L1"
    else if str_eq event_type "sanitizer.l2_redaction"
    then some "L2"
    else if str_eq event_type "sanitizer.l3_redaction"
    then some "L3"
    else none

pub record AuditTally : Type 0 where
  pub last_24h : ℕ
  pub redactions : ℕ
  pub redactions_last_24h : ℕ
  pub layers : Dict ℕ

tally_layer : Bool → Option String → AuditTally → AuditTally
unfolding counted
tally_layer recent none t = t
tally_layer recent (some layer) t = record t {
  redactions = t.redactions + 1;
  redactions_last_24h = if recent then t.redactions_last_24h + 1 else t.redactions_last_24h;
  layers = counted layer t.layers;
}

pub tally_event : ℕ → Event → AuditTally → AuditTally
unfolding tally_layer layer_of
tally_event now e t =
    let recent = ltb (now - day) e.timestamp in
    tally_layer recent (layer_of e.event_type)
      (record t { last_24h = if recent then t.last_24h + 1 else t.last_24h })

pub tally_events : ℕ → List Event → AuditTally → AuditTally
unfolding tally_event
tally_events now [] t = t
tally_events now (e ∷ es) t = tally_events now es (tally_event now e t)

pub record AuditFigures : Type 0 where
  pub last_24h : ℕ
  pub redactions : ℕ
  pub redactions_last_24h : ℕ
  pub layers : List NamedCount

-- aggregateAudit
pub aggregate_audit : ℕ → List Event → AuditFigures
unfolding tally_events charted
aggregate_audit now es =
    let t =
      tally_events now es
        (record { last_24h = 0; redactions = 0; redactions_last_24h = 0; layers = Dict.new }) in
    record {
      last_24h = t.last_24h;
      redactions = t.redactions;
      redactions_last_24h = t.redactions_last_24h;
      layers = charted ("L1" ∷ "L2" ∷ "L3" ∷ []) t.layers;
    }

-- recentActivity
pub recent_activity : List Event → ℕ → List ActivityRow
recent_activity es limit =
    map
      (λ e. record {
        at = e.timestamp;
        event_type = e.event_type;
        source = e.source_service;
        actor = e.actor;
        request_id = e.request_id;
      })
      (take limit es)

-- The keys of the customers: how many there are, and how many customers have one.
pub key_counts : (String → Result AdminError ListKeysResult) → List CustomerEntry → ℕ × ℕ
key_counts list_keys [] = (0, 0)
key_counts list_keys (c ∷ cs) =
    let (active, customers) = key_counts list_keys cs in
    elim (list_keys c.customer_id) [
      | err e ↦ (active, customers)
      | ok r ↦
          if length r.keys == 0
          then (active, customers)
          else (active + length r.keys, customers + 1)
    ]
