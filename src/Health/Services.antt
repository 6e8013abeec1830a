-- ===== src/Health/Services.antt =====
-- health/services.go. Errors are named without the values that they quote.
pub mod Distinct
use lucairn_enterprise_deplo.Base.{
  String, Bool, true, false, not, ◌||◌, Option, none, some, List, [], ◌∷◌, any, ◌==◌, str_eq,
  if◌then◌else◌, Result, ok, err,
}
use lucairn_enterprise_deplo.Base.Text.{
  ◌++◌, trim_space, has_prefix, trim_prefix, trim_suffix, contains_code, split_commas,
}
use lucairn_enterprise_deplo.Base.Text.Search.{cut}

-- Scheme is a string type.
pub record Service : Type 0 where
  pub name : String
  pub url : String
  pub scheme : String
  pub target : String

abbrev default_services_spec : String
default_services_spec =
    "gateway=http://gateway:8080/healthz," ++ "sanitizer=http://sanitizer:8086/healthz,"
    ++ "witness=http://veil-witness:8081/healthz," ++ "bridge=http://id-bridge:8082/healthz,"
    ++ "sandbox-a=http://sandbox-a:8083/healthz," ++ "sandbox-b=http://sandbox-b:8084/healthz,"
    ++ "audit=http://audit:8085/healthz," ++ "postgres-audit=tcp://postgres-audit:5432,"
    ++ "postgres-bridge=tcp://postgres-bridge:5432,"
    ++ "postgres-sandbox-a=tcp://postgres-sandbox-a:5432," ++ "redis=tcp://redis:6379,"
    ++ "ollama=http://ollama:11434/"

tcp_service : String → String → String → Result String Service
tcp_service name raw host_port =
    if not (contains_code 58 host_port)
    then err "health: tcp service missing :port"
    else ok (record { name = name; url = raw; scheme = "tcp"; target = host_port })

-- parseServiceURL
parse_service_url : String → String → Result String Service
unfolding tcp_service trim_prefix trim_suffix
parse_service_url name raw =
    if has_prefix "https://" raw
    then ok (record { name = name; url = raw; scheme = "https"; target = "" })
    else if has_prefix "http://" raw
    then ok (record { name = name; url = raw; scheme = "http"; target = "" })
    else if has_prefix "tcp://" raw
    then tcp_service name raw (trim_suffix "/" (trim_prefix "tcp://" raw))
    else err "health: service url must start with http://, https://, or tcp://"

parse_pair : List String → String → String → Result String Service
unfolding parse_service_url
parse_pair seen name raw =
    if str_eq name ""
    then err "health: bad services token: empty name"
    else if any (λ n. str_eq n name) seen
    then err "health: duplicate service name"
    else parse_service_url name raw

-- A token, split at its first "=".
parse_token : List String → Option (String × String) → Result String Service
unfolding parse_pair
parse_token seen none = err "health: bad services token: expected name=url"
parse_token seen (some (before, after)) =
    if str_eq after ""
    then err "health: bad services token: expected name=url"
    else parse_pair seen (trim_space before) (trim_space after)

then_services : Service → Result String (List Service) → Result String (List Service)
then_services svc (ok rest) = ok (svc ∷ rest)
then_services svc (err e) = err e

-- The loop over the parts, with the names that were seen.
parse_tokens : List String → List String → Result String (List Service)
unfolding parse_token then_services
parse_tokens seen [] = ok []
parse_tokens seen (raw ∷ rest) = elim (str_eq (trim_space raw) "") [
  | true ↦ parse_tokens seen rest
  | false ↦ elim (parse_token seen (cut "=" (trim_space raw))) [
    | err e ↦ err e
    | ok svc ↦ then_services svc (parse_tokens (svc.name ∷ seen) rest)
  ]
]

some_services : Result String (List Service) → Result String (List Service)
some_services (ok []) = err "health: empty services spec"
some_services (ok (s ∷ ss)) = ok (s ∷ ss)
some_services (err e) = err e

-- ParseServicesSpec
unfoldable pub parse_services_spec : String → Result String (List Service)
unfolding split_commas parse_tokens some_services
parse_services_spec spec =
    let given = trim_space spec in
    some_services
      (parse_tokens [] (split_commas (if str_eq given "" then default_services_spec else given)))

unfoldable pub services_runs : Unit {0}
unfolding parse_tokens parse_token parse_pair parse_service_url tcp_service then_services
    some_services
services_runs = tt
