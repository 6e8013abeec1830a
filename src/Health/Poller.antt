-- ===== src/Health/Poller.antt =====
-- health/poller.go. The loop of a service is a sequence of ticks; the ticks of all services come in any
-- order, each a critical section that stores one snapshot.
pub mod Latest
use lucairn_enterprise_deplo.Base.{
  ℕ, String, Bool, ◌&&◌, ◌||◌, Option, none, some, List, [], ◌∷◌, map, leb, ltb, str_eq,
  if◌then◌else◌,
}
use lucairn_enterprise_deplo.Base.Text.{◌++◌, byte_length, take_bytes}
use lucairn_enterprise_deplo.Base.Dict
use lucairn_enterprise_deplo.Base.Dict.{Dict}
use lucairn_enterprise_deplo.Health.Services.{Service}

-- Status is a string type; `none` is the zero time.
pub record Snapshot : Type 0 where
  pub service : Service
  pub status : String
  pub last_poll : Option ℕ
  pub detail : String

pub record Poller : Type 0 where
  pub services : List Service
  pub snapshots : Dict Snapshot

abbrev pub unknown : Service → Snapshot
unknown s = record { service = s; status = "unknown"; last_poll = none; detail = "" }

initial : List Service → Dict Snapshot → Dict Snapshot
initial [] m = m
initial (s ∷ ss) m = initial ss (Dict.insert s.name (unknown s) m)

-- NewPoller
pub new_poller : List Service → Poller
unfolding initial
new_poller services = record { services = services; snapshots = initial services Dict.new }

-- truncateDetail
truncate_detail : String → String
truncate_detail s = if leb (byte_length s) 180 then s else take_bytes 177 s ++ "…"

-- What an HTTP request comes to.
pub data HttpOutcome : Type 0 where
  unbuilt broken : String → HttpOutcome
  responded : (code : ℕ) → (status : String) → HttpOutcome

-- What the network does at one instant; `none` is a connection.
pub record Network : Type 0 where
  pub get : String → HttpOutcome
  pub dial : String → Option String

-- probeHTTP
probe_http : HttpOutcome → String × String
unfolding truncate_detail
probe_http (unbuilt e) = ("fail", truncate_detail ("request build: " ++ e))
probe_http (broken e) = ("fail", truncate_detail ("transport: " ++ e))
probe_http (responded code status) =
    if leb 200 code && ltb code 300
    then ("ok", "")
    else if leb 300 code && ltb code 400
    then ("warn", truncate_detail ("unexpected redirect: " ++ status))
    else ("fail", truncate_detail ("non-2xx: " ++ status))

-- probeTCP
probe_tcp : Option String → String × String
unfolding truncate_detail
probe_tcp none = ("ok", "")
probe_tcp (some e) = ("fail", truncate_detail ("dial: " ++ e))

probe : Network → Service → String × String
unfolding probe_http probe_tcp
probe net svc =
    if str_eq svc.scheme "http" || str_eq svc.scheme "https"
    then probe_http (net.get svc.url)
    else if str_eq svc.scheme "tcp"
    then probe_tcp (net.dial svc.target)
    else ("fail", "unknown scheme")

pub record Tick : Type 0 where
  pub service : Service
  pub net : Network
  pub now : ℕ

-- The snapshot that a tick takes.
pub taken : Tick → Snapshot
unfolding probe
taken t = record {
  service = t.service;
  status = (probe t.net t.service).0;
  last_poll = some t.now;
  detail = (probe t.net t.service).1;
}

-- probeAndStore
pub probe_and_store : Tick → Poller → Poller
unfolding taken
probe_and_store t p = record p { snapshots = Dict.insert t.service.name (taken t) p.snapshots }

-- The zero value of a missing key.
abbrev or_zero : Option Snapshot → Snapshot
or_zero (some s) = s
or_zero none = record {
  service = record { name = ""; url = ""; scheme = ""; target = "" };
  status = "";
  last_poll = none;
  detail = "";
}

-- Snapshots
pub snapshots : Poller → List Snapshot
snapshots p = map (λ s. or_zero (Dict.lookup s.name p.snapshots)) p.services
