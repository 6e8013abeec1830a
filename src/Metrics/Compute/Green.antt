-- ===== src/Metrics/Compute/Green.antt =====
-- When the home page says that all services are up: the figures over the poller of health/poller.go.
use lucairn_enterprise_deplo.Base.{
  ℕ, suc, ◌≤◌, String, ◌≡◌, refl, ap, ◌∙◌, Bool, ◌&&◌, Option, none, some, List, [], ◌∷◌, map, all,
  length, ltb, ◌==◌, Result, ok, err, arith,
}
use lucairn_enterprise_deplo.Gateway.Client.{AdminError, CustomerEntry}
use lucairn_enterprise_deplo.Health.Services.{Service, parse_services_spec}
use lucairn_enterprise_deplo.Health.Poller.{Snapshot, Poller, Tick, new_poller, snapshots}
use lucairn_enterprise_deplo.Health.Poller.Latest.{run, latest, snapshots-run}
use lucairn_enterprise_deplo.Metrics.Compute.{
  Metrics, Admin, ComputeInput, is_ok, services_up, with_health, with_customers, with_admin, wired,
  compute,
}

up_at_most : (ss : List Snapshot) → services_up ss ≤ length ss
unfolding services_up
up_at_most [] = omega arith
up_at_most (s ∷ ss) = ground (arith, up_at_most ss)

up_all : (ss : List Snapshot) → (services_up ss == length ss) ≡ all is_ok ss
unfolding services_up
up_all [] = refl
up_all (s ∷ ss) = ground (arith, up_all ss, up_at_most ss)

module _ (ts : List Tick) where
  abbrev pub shown_up : Service → Bool
  shown_up s = is_ok (latest ts s)

  length-map-latest : (ss : List Service) → length (map (latest ts) ss) ≡ length ss
  length-map-latest [] = refl
  length-map-latest (s ∷ ss) = ap suc (length-map-latest ss)

  all-map-latest : (ss : List Service) → all is_ok (map (latest ts) ss) ≡ all shown_up ss
  all-map-latest [] = refl
  all-map-latest (s ∷ ss) = ap (λ b. is_ok (latest ts s) && b) (all-map-latest ss)

green-with_customers :
    (a : Admin) (r : Result AdminError (List CustomerEntry)) (m : Metrics)
    → (with_customers a r m).services_all_green ≡ m.services_all_green
unfolding with_customers
green-with_customers a (err e) m = refl
green-with_customers a (ok customers) m = refl

green-wired :
    (o : Option Admin) (m : Metrics)
    → (wired o with_admin m).services_all_green ≡ m.services_all_green
unfolding wired with_admin
green-wired none m = refl
green-wired (some a) m = green-with_customers a a.list_customers m

green-with_health :
    (snaps : List Snapshot) (m : Metrics)
    → (with_health snaps m).services_all_green ≡ (ltb 0 (length snaps) && all is_ok snaps)
unfolding with_health
green-with_health snaps m = ap (λ b. ltb 0 (length snaps) && b) (up_all snaps)

green_polled :
    (o : Option Poller) (p : Poller) (m : Metrics)
    → o ≡ some p
    → (wired o (λ q. with_health (snapshots q)) m).services_all_green
      ≡ (ltb 0 (length (snapshots p)) && all is_ok (snapshots p))
unfolding wired
green_polled o p m h = rw (h, wired) (green-with_health (snapshots p) m)

-- The home page calls all services up exactly when the specification has a service and the latest probe
-- of each of them succeeded, for a poller that was made from the specification, after any ticks.
pub compute-run :
    (now : ℕ) (input : ComputeInput) (spec : String) (services : List Service) (ts : List Tick)
    → parse_services_spec spec ≡ ok services
    → input.health_poller ≡ some (run ts (new_poller services))
    → (compute now input).services_all_green
      ≡ (ltb 0 (length services) && all (shown_up ts) services)
unfolding compute
compute-run now input spec services ts parsed polled =
    let (shown, _) = snapshots-run spec services ts parsed in
    green-wired input.admin _
    ∙ green_polled input.health_poller (run ts (new_poller services)) _ polled
    ∙ rw (shown, length-map-latest ts services, all-map-latest ts services) refl
