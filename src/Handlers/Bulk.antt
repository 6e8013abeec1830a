-- ===== src/Handlers/Bulk.antt =====
-- apps/dashboard/internal/handlers/bulk_reverify.go: a job that verifies up to 100 certificates again.
-- Its workers run at once; each books its outcome in one critical section, so a run is a sequence
-- of bookings, in any order of the identifiers.
pub mod Accounts
pub mod Ids
use Prim.Native.Char.{code}
use Prim.Native.String.{[] as no_text, ◌∷◌ as then_char}
use lucairn_enterprise_deplo.Base.{
  ℕ, ◌+◌, String, Bool, true, false, not, ◌&&◌, ◌||◌, Option, none, some, List, [], ◌∷◌, take,
  length, any, ltb, leb, ◌==◌, str_eq, if◌then◌else◌, Result, ok, err,
}
use lucairn_enterprise_deplo.Base.Dict
use lucairn_enterprise_deplo.Base.Dict.{Dict}
use lucairn_enterprise_deplo.Base.Text.{◌++◌, trim_space, byte_length, cut_bytes}
use lucairn_enterprise_deplo.Auth.Session.{Session}
use lucairn_enterprise_deplo.Auth.Csrf.{verify_token}
use lucairn_enterprise_deplo.Web.{Request, Response, redirect, error}

pub record BulkJob : Type 0 where
  pub id : String
  pub user : String
  pub total : ℕ
  pub created_at : ℕ
  pub finished_at : Option ℕ
  pub verified : ℕ
  pub partial : ℕ
  pub failed : ℕ
  pub done : ℕ
  pub results : Dict String
  pub finished : Bool

-- What the limiter and then the verifier answer to a worker; of a result, its overall verdict.
pub data Attempt : Type 0 where
  wait_failed : String → Attempt
  verify_failed : String → Attempt
  answered : String → Attempt

-- What a worker books: an error text, or a verdict.
pub data Outcome : Type 0 where
  failure : String → Outcome
  verdict : String → Outcome

pub trunc_err : String → String
trunc_err s = if ltb 200 (byte_length s) then cut_bytes 200 s ++ "…" else s

module _ (to_lower : String → String) where
  outcome_of : Attempt → Outcome
  outcome_of (wait_failed e) = failure ("error: rate-limit wait: " ++ trunc_err e)
  outcome_of (verify_failed e) = failure ("error: " ++ trunc_err e)
  outcome_of (answered overall) = verdict (to_lower (trim_space overall))

  resolved : (String → Attempt) → Option String → Outcome
  unfolding outcome_of
  resolved attempt none = failure "error: cert_id not found in audit DB"
  resolved attempt (some request_id) =
      if str_eq request_id ""
      then failure "error: cert_id not found in audit DB"
      else outcome_of (attempt request_id)

  -- One worker. `attempt` takes the certificate's identifier and its request identifier.
  pub worker : (String → String → Attempt) → Dict String → String → Outcome
  unfolding resolved
  worker attempt request_ids cert_id = resolved (attempt cert_id) (Dict.lookup cert_id request_ids)

-- The switch over the verdict: an unknown one counts as partial.
counted : String → BulkJob → BulkJob
counted v job =
    if str_eq v "verified"
    then record job { verified = job.verified + 1 }
    else if str_eq v "partial"
    then record job { partial = job.partial + 1 }
    else if str_eq v "failed"
    then record job { failed = job.failed + 1 }
    else record job { partial = job.partial + 1 }

pub book : String → Outcome → BulkJob → BulkJob
unfolding counted
book cert_id (failure text) job = record job {
  done = job.done + 1;
  failed = job.failed + 1;
  results = Dict.insert cert_id text job.results;
}
book cert_id (verdict v) job =
    counted v (record job { done = job.done + 1; results = Dict.insert cert_id v job.results })

pub book_all : (String → Outcome) → List String → BulkJob → BulkJob
book_all outcome [] job = job
book_all outcome (id ∷ ids) job = book_all outcome ids (book id (outcome id) job)

finish : ℕ → BulkJob → BulkJob
finish now job = record job { finished = true; finished_at = some now }

-- The resolver's answer for the batch; without a resolver the map is empty.
pub data Resolution : Type 0 where
  no_resolver : Resolution
  resolve_failed : String → Resolution
  resolves : Dict String → Resolution

-- runJob. `order` is the order in which the workers come to their critical sections.
pub run_job :
    (String → String)
    → (String → String → Attempt)
    → Resolution
    → ℕ
    → List String
    → List String
    → BulkJob
    → BulkJob
unfolding finish
run_job to_lower attempt no_resolver now ids order job =
    finish now (book_all (worker to_lower attempt Dict.new) order job)
run_job to_lower attempt (resolve_failed e) now ids order job =
    finish now (book_all (λ id. failure ("error: audit-DB resolve: " ++ trunc_err e)) ids job)
run_job to_lower attempt (resolves request_ids) now ids order job =
    finish now (book_all (worker to_lower attempt request_ids) order job)

pub id_char : ℕ → Bool
id_char c =
    (leb 97 c && leb c 122)
    || (leb 65 c && leb c 90)
    || (leb 48 c && leb c 57)
    || c == 45
    || c == 95

id_chars : String → Bool
unfolding id_char
id_chars no_text = true
id_chars (then_char c s) = id_char (code c) && id_chars s

unfoldable pub valid_cert_id : String → Bool
unfolding id_chars
valid_cert_id id = if ltb (byte_length id) 8 || ltb 128 (byte_length id) then false else id_chars id

-- The loop; `seen` is the set of those put out so far.
normalize_from : List String → List String → List String
normalize_from seen [] = []
normalize_from seen (raw ∷ raws) =
    let id = trim_space raw in
    let rest = normalize_from seen raws in
    let rest' = normalize_from (id ∷ seen) raws in
    if not (valid_cert_id id) then rest else if any (str_eq id) seen then rest else id ∷ rest'

unfoldable pub normalize_cert_ids : List String → List String
unfolding normalize_from
normalize_cert_ids raws = normalize_from [] raws

abbrev pub new_job : String → String → ℕ → List String → BulkJob
new_job id user now ids = record {
  id = id;
  user = user;
  total = length ids;
  created_at = now;
  finished_at = none;
  verified = 0;
  partial = 0;
  failed = 0;
  done = 0;
  results = Dict.new;
  finished = false;
}

abbrev bulk_max_certs : ℕ
bulk_max_certs = 100

-- What the handler leaves: its response, the jobs, and the identifiers of the run that it starts.
pub record Started : Type 0 where
  pub response : Response Unit
  pub jobs : Dict BulkJob
  pub run : Option (List String)

abbrev refusal : Response Unit → Dict BulkJob → Started
refusal response jobs = record { response = response; jobs = jobs; run = none }

launched : String → String → ℕ → List String → Dict BulkJob → Started
launched id user now [] jobs = refusal (error 400 "no cert_ids") jobs
launched id user now (c ∷ cs) jobs =
    let ids = take bulk_max_certs (c ∷ cs) in
    record {
      response = redirect 303 ("/certs/bulk-reverify/" ++ id ++ "/progress");
      jobs = Dict.insert id (new_job id user now ids) jobs;
      run = some ids;
    }

admitted_user : Bool → String → ℕ → List String → Request → Option Session → Dict BulkJob → Started
unfolding launched
admitted_user configured id now cert_ids r none jobs = refusal (redirect 302 "/login") jobs
admitted_user configured id now cert_ids r (some sess) jobs =
    if not r.form_parses
    then refusal (error 400 "bad form") jobs
    else if not (verify_token r)
    then refusal (error 403 "csrf failure") jobs
    else if not configured
    then refusal (error 503 "cert surface not configured") jobs
    else launched id sess.user.email now (normalize_cert_ids cert_ids) jobs

-- BulkReverifyHandler. `id` is the new job's; `cert_ids` the form's values of that name.
unfoldable pub bulk_reverify : Bool → String → ℕ → List String → Request → Dict BulkJob → Started
unfolding admitted_user
bulk_reverify configured id now cert_ids r jobs =
    admitted_user configured id now cert_ids r r.session jobs
