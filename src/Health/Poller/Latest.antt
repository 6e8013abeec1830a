-- ===== src/Health/Poller/Latest.antt =====
-- What the overview page shows: the services of the specification, each with its latest probe.
use lucairn_enterprise_deplo.Base.{
  ◌≤◌, String, ◌≡◌, refl, ◌∙◌, false, Option, none, some, List, [], ◌∷◌, All, map, str_eq, eq_iff,
  if◌then◌else◌, arith, ok,
}
use lucairn_enterprise_deplo.Base.Text.{
  ◌++◌, byte_length, take_bytes, byte_length-append, byte_length-take_bytes,
}
use lucairn_enterprise_deplo.Base.Dict
use lucairn_enterprise_deplo.Base.Dict.{Dict, lookup-insert}
use lucairn_enterprise_deplo.Health.Services.{Service, parse_services_spec}
use lucairn_enterprise_deplo.Health.Services.Distinct.{
  is_named, Distinct, parse_services_spec-Distinct,
}
use lucairn_enterprise_deplo.Health.Poller.{
  Snapshot, Poller, unknown, initial, new_poller, truncate_detail, HttpOutcome, unbuilt, broken,
  responded, Network, probe_http, probe_tcp, probe, Tick, taken, probe_and_store, or_zero,
  snapshots,
}

-- A run of ticks, the latest first.
pub run : List Tick → Poller → Poller
run [] p = p
run (t ∷ ts) p = probe_and_store t (run ts p)

-- The snapshot of the latest tick of a service.
pub latest : List Tick → Service → Snapshot
latest [] s = unknown s
latest (t ∷ ts) s = if str_eq t.service.name s.name then taken t else latest ts s

lookup-initial :
    (n : String) (ss : List Service) (m : Dict Snapshot)
    → is_named n ss ≡ false
    → Dict.lookup n (initial ss m) ≡ Dict.lookup n m
unfolding initial
lookup-initial n [] m h = refl
lookup-initial n (s ∷ ss) m h =
    let other : str_eq s.name n ≡ false = ground arith in
    let others : is_named n ss ≡ false = ground arith in
    lookup-initial n ss (Dict.insert s.name (unknown s) m) others
    ∙ lookup-insert s.name n (unknown s) m
    ∙ rw other refl

abbrev At : Dict Snapshot → Service → Type 0
At m s = Dict.lookup s.name m ≡ some (unknown s)

initial_lem : (ss : List Service) (m : Dict Snapshot) → Distinct ss → All (At (initial ss m)) ss
unfolding initial
initial_lem [] m d = tt
initial_lem (s ∷ ss) m (new, d) = (
  lookup-initial s.name ss (Dict.insert s.name (unknown s) m) new
      ∙ lookup-insert s.name s.name (unknown s) m
      ∙ ground (arith, eq_iff s.name s.name),
  initial_lem ss (Dict.insert s.name (unknown s) m) d,
)

lookup-run :
    (ts : List Tick) (p : Poller) (s : Service)
    → Dict.lookup s.name p.snapshots ≡ some (unknown s)
    → Dict.lookup s.name (run ts p).snapshots ≡ some (latest ts s)
unfolding run latest probe_and_store
lookup-run [] p s h = h
lookup-run (t ∷ ts) p s h =
    lookup-insert t.service.name s.name (taken t) (run ts p).snapshots
    ∙ ground (arith, lookup-run ts p s h)

services-run : (ts : List Tick) (p : Poller) → (run ts p).services ≡ p.services
unfolding run probe_and_store
services-run [] p = refl
services-run (t ∷ ts) p = services-run ts p

map_same :
    (ss : List Service) (ts : List Tick) (m m' : Dict Snapshot)
    → ((s : Service) → At m s → Dict.lookup s.name m' ≡ some (latest ts s))
    → All (At m) ss
    → map (λ (s : Service). or_zero (Dict.lookup s.name m')) ss ≡ map (latest ts) ss
map_same [] ts m m' f h = refl
map_same (s ∷ ss) ts m m' f (h, hs) = rw (f s h, map_same ss ts m m' f hs) refl

three_bytes : byte_length "…" ≡ 3
unfolding byte_length
three_bytes = refl

byte_length-truncate_detail : (s : String) → byte_length (truncate_detail s) ≤ 180
unfolding truncate_detail
byte_length-truncate_detail s =
    let mark : byte_length "…" ≡ 3 = three_bytes in
    ground (arith, mark, byte_length-append (take_bytes 177 s) "…", byte_length-take_bytes 177 s)

empty_detail : byte_length "" ≤ 180
unfolding byte_length
empty_detail = omega arith

probe_http_short : (o : HttpOutcome) → byte_length (probe_http o).1 ≤ 180
unfolding probe_http
probe_http_short (unbuilt e) = byte_length-truncate_detail ("request build: " ++ e)
probe_http_short (broken e) = byte_length-truncate_detail ("transport: " ++ e)
probe_http_short (responded code status) = ground (
  arith,
  empty_detail,
  byte_length-truncate_detail ("unexpected redirect: " ++ status),
  byte_length-truncate_detail ("non-2xx: " ++ status),
)

probe_tcp_short : (o : Option String) → byte_length (probe_tcp o).1 ≤ 180
unfolding probe_tcp
probe_tcp_short none = empty_detail
probe_tcp_short (some e) = byte_length-truncate_detail ("dial: " ++ e)

unknown_scheme : byte_length "unknown scheme" ≤ 180
unfolding byte_length
unknown_scheme = omega arith

probe_short : (net : Network) (svc : Service) → byte_length (probe net svc).1 ≤ 180
unfolding probe
probe_short net svc = ground (
  arith,
  probe_http_short (net.get svc.url),
  probe_tcp_short (net.dial svc.target),
  unknown_scheme,
)

latest_short : (ts : List Tick) (s : Service) → byte_length (latest ts s).detail ≤ 180
unfolding latest taken
latest_short [] s = empty_detail
latest_short (t ∷ ts) s = ground (arith, probe_short t.net t.service, latest_short ts s)

details_short :
    (ts : List Tick) (ss : List Service)
    → All (λ (x : Snapshot). byte_length x.detail ≤ 180) (map (latest ts) ss)
details_short ts [] = tt
details_short ts (s ∷ ss) = (latest_short ts s, details_short ts ss)

-- The overview of the services of a specification shows them in its order, each with the snapshot of its
-- latest tick, or as unknown before the first one, in whatever order the ticks of the services came; and
-- no detail is longer than 180 bytes.
pub snapshots-run :
    (spec : String) (services : List Service) (ts : List Tick)
    → parse_services_spec spec ≡ ok services
    → (snapshots (run ts (new_poller services)) ≡ map (latest ts) services)
      × All
          (λ (x : Snapshot). byte_length x.detail ≤ 180)
          (snapshots (run ts (new_poller services)))
unfolding snapshots new_poller
snapshots-run spec services ts parsed =
    let p = new_poller services in
    let distinct = parse_services_spec-Distinct spec services parsed in
    let same : snapshots (run ts p) ≡ map (latest ts) services = rw (services-run ts p) (
      map_same services ts p.snapshots (run ts p).snapshots (λ s h. lookup-run ts p s h)
        (initial_lem services [] distinct)) in
    (same, rw same (details_short ts services))
