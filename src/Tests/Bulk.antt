-- ===== src/Tests/Bulk.antt =====
-- A bulk job at concrete requests.
use mathlib.Core.List.Permᴰ.{Permᴰ}
use lucairn_enterprise_deplo.Base.{
  ◌≤◌, ◌<◌, String, ◌≡◌, refl, true, some, List, [], ◌∷◌, take, length, any, str_eq, if◌then◌else◌,
  ◌&&◌,
}
use lucairn_enterprise_deplo.Base.Text.{trim_space, byte_length}
use lucairn_enterprise_deplo.Base.Dict
use lucairn_enterprise_deplo.Base.Dict.{dict_runs}
use lucairn_enterprise_deplo.Auth.{role_viewer}
use lucairn_enterprise_deplo.Auth.Session.{Session}
use lucairn_enterprise_deplo.Auth.Csrf.{verify_token}
use lucairn_enterprise_deplo.Web.{Request}
use lucairn_enterprise_deplo.Handlers.Bulk.{
  BulkJob, Attempt, answered, verify_failed, Resolution, resolves, run_job, new_job, valid_cert_id,
  normalize_cert_ids, bulk_reverify,
}
use lucairn_enterprise_deplo.Handlers.Bulk.Accounts.{IsBooked, outcome_for, run_job-IsBooked}
use lucairn_enterprise_deplo.Handlers.Bulk.Ids.{
  occurrences, occurrences-normalize_cert_ids, bulk_reverify-run,
}

abbrev ids : List String
ids = "veil_001" ∷ "veil_002" ∷ []

abbrev order : List String
order = "veil_002" ∷ "veil_001" ∷ []

schedule : Permᴰ order ids
schedule = Permᴰ.swap refl refl

abbrev attempt : String → String → Attempt
attempt cert_id request_id =
    if str_eq request_id "r-1" then answered "verified" else verify_failed "gone"

abbrev resolution : Resolution
resolution = resolves (("veil_001", "r-1") ∷ ("veil_002", "r-2") ∷ [])

abbrev job : BulkJob
job = new_job "j-1" "a@b" 10 ids

run_job-IsBooked_example :
    IsBooked
      (outcome_for (λ s. s) attempt resolution)
      ids
      job
      (run_job (λ s. s) attempt resolution 20 ids order job)
    × ((run_job (λ s. s) attempt resolution 20 ids order job).finished ≡ true)
run_job-IsBooked_example = run_job-IsBooked (λ s. s) attempt resolution 20 ids order job schedule

abbrev raws : List String
raws = "veil_001" ∷ " veil_001" ∷ "bad" ∷ "veil_002" ∷ []

occurrences-normalize_cert_ids_example : occurrences "veil_001" (normalize_cert_ids raws) ≡ (
    if valid_cert_id "veil_001" && any (λ raw. str_eq "veil_001" (trim_space raw)) raws
    then 1
    else 0)
occurrences-normalize_cert_ids_example = occurrences-normalize_cert_ids "veil_001" raws

abbrev session : Session
session = record {
  id = "s-1";
  user = record { email = "a@b"; role = role_viewer };
  created_at = 0;
  last_seen = 50;
}

abbrev request : Request
request = record {
  method = "POST";
  path = "/certs/bulk-reverify";
  request_uri = "/certs/bulk-reverify";
  session_cookie = some "s-1";
  csrf_cookie = some "t";
  form_parses = true;
  post_form = ("csrf", "t") ∷ [];
  query = [];
  session = some session;
}

started : (bulk_reverify true "j-1" 10 raws request []).run ≡ some ids
unfolding bulk_reverify normalize_cert_ids valid_cert_id verify_token trim_space byte_length
    dict_runs
started = refl

bulk_reverify-run_example :
    (sess : Session) × (request.session ≡ some sess)
    × (verify_token request ≡ true)
    × (true ≡ true)
    × (ids ≡ take 100 (normalize_cert_ids raws))
    × (0 < length ids)
    × (length ids ≤ 100)
    × (Dict.lookup "j-1" (bulk_reverify true "j-1" 10 raws request []).jobs
        ≡ some (new_job "j-1" sess.user.email 10 ids))
bulk_reverify-run_example = bulk_reverify-run true "j-1" 10 raws request [] ids started
