-- ===== src/Handlers/Bulk/Accounts.antt =====
-- The books of a job of bulk_reverify.go, and the order of its workers.
use mathlib.Core.List.Permᴰ
use mathlib.Core.List.Permᴰ.{Permᴰ, nil, cons, swap, trans}
use lucairn_enterprise_deplo.Base.{
  ℕ, ◌+◌, String, ◌≡◌, refl, ap, suc, ◌∙◌, Bool, true, false, some, List, [], ◌∷◌, length, any,
  arith, str_eq, eq_iff, if◌then◌else◌,
}
use lucairn_enterprise_deplo.Base.Text.{◌++◌}
use lucairn_enterprise_deplo.Base.Dict
use lucairn_enterprise_deplo.Base.Dict.{lookup-insert}
use lucairn_enterprise_deplo.Handlers.Bulk.{
  BulkJob, Attempt, Outcome, failure, verdict, worker, counted, book, book_all, finish, Resolution,
  no_resolver, resolve_failed, resolves, run_job, trunc_err, new_job,
}

-- Which counter an outcome adds to, and what it leaves under the certificate.
abbrev pub verified_by : Outcome → ℕ
verified_by (failure text) = 0
verified_by (verdict v) = if str_eq v "verified" then 1 else 0

abbrev pub failed_by : Outcome → ℕ
failed_by (failure text) = 1
failed_by (verdict v) = if str_eq v "failed" then 1 else 0

abbrev pub partial_by : Outcome → ℕ
partial_by (failure text) = 0
partial_by (verdict v) = if str_eq v "verified" then 0 else if str_eq v "failed" then 0 else 1

abbrev pub text_of : Outcome → String
text_of (failure text) = text
text_of (verdict v) = v

abbrev pub total_of : (String → ℕ) → List String → ℕ
total_of g [] = 0
total_of g (id ∷ ids) = g id + total_of g ids

total_of_perm : (g : String → ℕ) {xs ys : List String} → Permᴰ xs ys → total_of g xs ≡ total_of g ys
total_of_perm g nil = refl
total_of_perm g (cons e p) = rw (e, total_of_perm g p) refl
total_of_perm g (swap e f) = rw (e, f) (omega arith)
total_of_perm g (trans p q) = total_of_perm g p ∙ total_of_perm g q

length_perm : {xs ys : List String} → Permᴰ xs ys → length xs ≡ length ys
length_perm nil = refl
length_perm (cons e p) = ap suc (length_perm p)
length_perm (swap e f) = refl
length_perm (trans p q) = length_perm p ∙ length_perm q

any_perm : (t : String → Bool) {xs ys : List String} → Permᴰ xs ys → any t xs ≡ any t ys
any_perm t nil = refl
any_perm t (cons e p) = rw (e, any_perm t p) refl
any_perm t (swap e f) = rw (e, f) (ground arith)
any_perm t (trans p q) = any_perm t p ∙ any_perm t q

-- `job'` is `job` with the outcomes of the certificates booked, each once.
pub record IsBooked (outcome : String → Outcome) (ids : List String) (job job' : BulkJob)
    : Type 0 where
  pub done : job'.done ≡ job.done + length ids
  pub verified : job'.verified ≡ job.verified + total_of (λ id. verified_by (outcome id)) ids
  pub partial : job'.partial ≡ job.partial + total_of (λ id. partial_by (outcome id)) ids
  pub failed : job'.failed ≡ job.failed + total_of (λ id. failed_by (outcome id)) ids
  pub results :
      (j : String)
      → Dict.lookup j job'.results
        ≡ (if any (str_eq j) ids then some (text_of (outcome j)) else Dict.lookup j job.results)

partial_not_failed : (v : String) → str_eq v "partial" ≡ true → str_eq v "failed" ≡ false
partial_not_failed v h = rw ((eq_iff v "partial").0 h) refl

verified_not_failed : (v : String) → str_eq v "verified" ≡ true → str_eq v "failed" ≡ false
verified_not_failed v h = rw ((eq_iff v "verified").0 h) refl

module _ (id : String) (job : BulkJob) where
  done-book : (o : Outcome) → (book id o job).done ≡ job.done + 1
  unfolding book counted
  done-book (failure text) = refl
  done-book (verdict v) = ground arith

  verified-book : (o : Outcome) → (book id o job).verified ≡ job.verified + verified_by o
  unfolding book counted
  verified-book (failure text) = ground arith
  verified-book (verdict v) = ground arith

  partial-book : (o : Outcome) → (book id o job).partial ≡ job.partial + partial_by o
  unfolding book counted
  partial-book (failure text) = ground arith
  partial-book (verdict v) = ground (arith, partial_not_failed v, verified_not_failed v)

  failed-book : (o : Outcome) → (book id o job).failed ≡ job.failed + failed_by o
  unfolding book counted
  failed-book (failure text) = ground arith
  failed-book (verdict v) = ground (arith, partial_not_failed v, verified_not_failed v)

  results-book :
      (o : Outcome) (j : String)
      → Dict.lookup j (book id o job).results
        ≡ (if str_eq id j then some (text_of o) else Dict.lookup j job.results)
  unfolding book counted
  results-book (failure text) j = lookup-insert id j text job.results
  results-book (verdict v) j = ground (arith, lookup-insert id j v job.results)

book_all-IsBooked :
    (outcome : String → Outcome) (ids : List String) (job : BulkJob)
    → IsBooked outcome ids job (book_all outcome ids job)
unfolding book_all
book_all-IsBooked outcome [] job = record {
  done = omega arith;
  verified = omega arith;
  partial = omega arith;
  failed = omega arith;
  results = λ j. refl;
}
book_all-IsBooked outcome (id ∷ ids) job =
    let o = outcome id in
    let rest = book_all-IsBooked outcome ids (book id o job) in
    record {
      done = rest.done ∙ omega (arith, done-book id job o);
      verified = rest.verified ∙ omega (arith, verified-book id job o);
      partial = rest.partial ∙ omega (arith, partial-book id job o);
      failed = rest.failed ∙ omega (arith, failed-book id job o);
      results =
          λ j. rest.results j ∙ ground (arith, results-book id job o j, eq_iff id j, eq_iff j id);
    }

abbrev pub outcome_for :
    (String → String) → (String → String → Attempt) → Resolution → String → Outcome
outcome_for to_lower attempt no_resolver = worker to_lower attempt Dict.new
outcome_for to_lower attempt (resolve_failed e) =
    λ id. failure ("error: audit-DB resolve: " ++ trunc_err e)
outcome_for to_lower attempt (resolves request_ids) = worker to_lower attempt request_ids

IsBooked-perm :
    (outcome : String → Outcome) (ids order : List String) (job job' : BulkJob)
    → Permᴰ order ids
    → IsBooked outcome order job job'
    → IsBooked outcome ids job job'
IsBooked-perm outcome ids order job job' p b = record {
  done = b.done ∙ rw (length_perm p) refl;
  verified = b.verified ∙ rw (total_of_perm (λ id. verified_by (outcome id)) p) refl;
  partial = b.partial ∙ rw (total_of_perm (λ id. partial_by (outcome id)) p) refl;
  failed = b.failed ∙ rw (total_of_perm (λ id. failed_by (outcome id)) p) refl;
  results = λ j. b.results j ∙ rw (any_perm (str_eq j) p) refl;
}

rebooked :
    (outcome : String → Outcome) (now : ℕ) (ids order : List String) (job : BulkJob)
    → Permᴰ order ids
    → IsBooked outcome ids job (finish now (book_all outcome order job))
unfolding finish
rebooked outcome now ids order job p =
    let b =
      IsBooked-perm outcome ids order job (book_all outcome order job) p
        (book_all-IsBooked outcome order job) in
    record {
      done = b.done;
      verified = b.verified;
      partial = b.partial;
      failed = b.failed;
      results = b.results;
    }

-- However the workers are scheduled, a job books every certificate exactly once, and what it books
-- does not depend on the schedule: after the run the job is finished, its counters have grown by
-- the number of certificates with each kind of outcome, and each certificate has its text.
pub run_job-IsBooked :
    (to_lower : String → String) (attempt : String → String → Attempt) (resolution : Resolution)
    (now : ℕ) (ids order : List String) (job : BulkJob)
    → Permᴰ order ids
    → IsBooked
        (outcome_for to_lower attempt resolution)
        ids
        job
        (run_job to_lower attempt resolution now ids order job)
      × ((run_job to_lower attempt resolution now ids order job).finished ≡ true)
unfolding run_job finish
run_job-IsBooked to_lower attempt no_resolver now ids order job p =
    (rebooked (worker to_lower attempt Dict.new) now ids order job p, refl)
run_job-IsBooked to_lower attempt (resolve_failed e) now ids order job p = (
  rebooked (λ id. failure ("error: audit-DB resolve: " ++ trunc_err e)) now ids ids job
      (Permᴰ.refl ids),
  refl,
)
run_job-IsBooked to_lower attempt (resolves request_ids) now ids order job p =
    (rebooked (worker to_lower attempt request_ids) now ids order job p, refl)

one_kind : (o : Outcome) → verified_by o + partial_by o + failed_by o ≡ 1
one_kind (failure text) = refl
one_kind (verdict v) = ground (arith, verified_not_failed v)

total_of_kinds :
    (outcome : String → Outcome) (ids : List String)
    → total_of (λ id. verified_by (outcome id)) ids
        + total_of (λ id. partial_by (outcome id)) ids
        + total_of (λ id. failed_by (outcome id)) ids
      ≡ length ids
total_of_kinds outcome [] = refl
total_of_kinds outcome (id ∷ ids) = omega (arith, one_kind (outcome id), total_of_kinds outcome ids)

-- The counters of a new job balance when it has run: done is the total, and verified, partial and
-- failed add up to it.
pub run_job_balance :
    (to_lower : String → String) (attempt : String → String → Attempt) (resolution : Resolution)
    (id user : String) (made now : ℕ) (ids order : List String)
    → Permᴰ order ids
    → let job = run_job to_lower attempt resolution now ids order (new_job id user made ids) in
      (job.done ≡ length ids) × (job.verified + job.partial + job.failed ≡ job.done)
run_job_balance to_lower attempt resolution id user made now ids order p =
    let (b, _) =
      run_job-IsBooked to_lower attempt resolution now ids order (new_job id user made ids) p in
    let kinds = total_of_kinds (outcome_for to_lower attempt resolution) ids in
    (b.done ∙ omega arith, omega (arith, b.done, b.verified, b.partial, b.failed, kinds))
