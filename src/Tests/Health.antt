-- ===== src/Tests/Health.antt =====
-- A specification of two services, a run of their probes, and the home page then.
use lucairn_enterprise_deplo.Base.{
  ◌≤◌, ◌≡◌, refl, none, some, List, [], ◌∷◌, All, map, ok, ◌&&◌, length, all, ltb,
}
use lucairn_enterprise_deplo.Base.Text.{
  trim_space, trim_prefix, trim_suffix, contains_code, byte_length, split_commas,
}
use lucairn_enterprise_deplo.Base.Text.Search.{search_runs}
use lucairn_enterprise_deplo.Health.Services.{Service, parse_services_spec, services_runs}
use lucairn_enterprise_deplo.Health.Poller.{
  Snapshot, new_poller, responded, Network, Tick, snapshots,
}
use lucairn_enterprise_deplo.Health.Poller.Latest.{run, latest, snapshots-run}
use lucairn_enterprise_deplo.Metrics.Compute.{ComputeInput, compute}
use lucairn_enterprise_deplo.Metrics.Compute.Green.{shown_up, compute-run}

abbrev gateway : Service
gateway = record { name = "gateway"; url = "http://g/healthz"; scheme = "http"; target = "" }

abbrev db : Service
db = record { name = "db"; url = "tcp://db:5432/"; scheme = "tcp"; target = "db:5432" }

parses :
    parse_services_spec " gateway=http://g/healthz, db = tcp://db:5432/," ≡ ok (gateway ∷ db ∷ [])
unfolding parse_services_spec services_runs split_commas trim_space trim_prefix trim_suffix
    contains_code search_runs
parses = refl

abbrev net : Network
net = record { get = λ url. responded 503 "503 Service Unavailable"; dial = λ target. none }

abbrev ticks : List Tick
ticks =
    record { service = gateway; net = net; now = 30 }
    ∷ record { service = gateway; net = net; now = 20 }
    ∷ []

snapshots-run_example :
    (snapshots (run ticks (new_poller (gateway ∷ db ∷ [])))
      ≡ map (latest ticks) (gateway ∷ db ∷ []))
    × All
        (λ (x : Snapshot). byte_length x.detail ≤ 180)
        (snapshots (run ticks (new_poller (gateway ∷ db ∷ []))))
snapshots-run_example =
    snapshots-run " gateway=http://g/healthz, db = tcp://db:5432/," (gateway ∷ db ∷ []) ticks parses

abbrev input : ComputeInput
input = record {
  certs = none;
  audits = none;
  admin = none;
  health_poller = some (run ticks (new_poller (gateway ∷ db ∷ [])));
}

compute-run_example :
    (compute 100 input).services_all_green
    ≡ (ltb 0 (length (gateway ∷ db ∷ [])) && all (shown_up ticks) (gateway ∷ db ∷ []))
compute-run_example =
    compute-run 100 input " gateway=http://g/healthz, db = tcp://db:5432/," (gateway ∷ db ∷ [])
      ticks parses refl
