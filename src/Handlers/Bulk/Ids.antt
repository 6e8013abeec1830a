-- ===== src/Handlers/Bulk/Ids.antt =====
-- Which certificates a job of bulk_reverify.go is started on.
use lucairn_enterprise_deplo.Base.{
  ℕ, zero, ◌≤◌, ◌<◌, String, ◌≡◌, refl, sym, ap, suc, ◌∙◌, Bool, true, false, not, ◌&&◌, ◌||◌,
  Option, none, some, List, [], ◌∷◌, take, length, any, arith, str_eq, eq_iff, if◌then◌else◌,
  Bool-cases, inl, inr,
}
use lucairn_enterprise_deplo.Base.Text.{trim_space}
use lucairn_enterprise_deplo.Base.Dict
use lucairn_enterprise_deplo.Base.Dict.{Dict, lookup-insert}
use lucairn_enterprise_deplo.Auth.Session.{Session}
use lucairn_enterprise_deplo.Auth.Csrf.{verify_token}
use lucairn_enterprise_deplo.Web.{Request}
use lucairn_enterprise_deplo.Handlers.Bulk.{
  BulkJob, valid_cert_id, normalize_from, normalize_cert_ids, new_job, Started, launched,
  admitted_user, bulk_reverify,
}

abbrev pub occurrences : String → List String → ℕ
occurrences x [] = 0
occurrences x (y ∷ ys) = let rest = occurrences x ys in if str_eq x y then suc rest else rest

abbrev once : Bool → ℕ
once b = if b then 1 else 0

module _ (x : String) (seen rest rest' : List String) (later : Bool) where
  other_step :
      (id : String)
      → str_eq x id ≡ false
      → occurrences x rest ≡ once (valid_cert_id x && not (any (str_eq x) seen) && later)
      → occurrences x rest'
        ≡ once (valid_cert_id x && not (str_eq x id || any (str_eq x) seen) && later)
      → occurrences x (
          if not (valid_cert_id id)
          then rest
          else if any (str_eq id) seen
          then rest
          else id ∷ rest')
        ≡ once (valid_cert_id x && not (any (str_eq x) seen) && (str_eq x id || later))
  other_step id d h h' = elim (Bool-cases (valid_cert_id id)) [
    | inr e ↦ rw (e, d) h
    | inl e ↦ rw e (elim (Bool-cases (any (str_eq id) seen)) [
      | inl e' ↦ rw (e', d) h
      | inr e' ↦ rw (e', d) (rw d at h')
    ])
  ]

  same_step :
      occurrences x rest ≡ once (valid_cert_id x && not (any (str_eq x) seen) && later)
      → occurrences x rest'
        ≡ once (valid_cert_id x && not (str_eq x x || any (str_eq x) seen) && later)
      → occurrences x
          (if not (valid_cert_id x) then rest else if any (str_eq x) seen then rest else x ∷ rest')
        ≡ once (valid_cert_id x && not (any (str_eq x) seen) && (str_eq x x || later))
  same_step h h' =
      let self = (eq_iff x x).1 refl in
      elim (Bool-cases (valid_cert_id x)) [
        | inr e ↦ rw e (rw e at h)
        | inl e ↦ elim (Bool-cases (any (str_eq x) seen)) [
          | inl e' ↦ rw (e, e') (rw (e, e') at h)
          | inr e' ↦ rw (e, e', self) (rw (e, e', self) at (ap suc h'))
        ]
      ]

  step :
      (id : String)
      → occurrences x rest ≡ once (valid_cert_id x && not (any (str_eq x) seen) && later)
      → occurrences x rest'
        ≡ once (valid_cert_id x && not (str_eq x id || any (str_eq x) seen) && later)
      → occurrences x (
          if not (valid_cert_id id)
          then rest
          else if any (str_eq id) seen
          then rest
          else id ∷ rest')
        ≡ once (valid_cert_id x && not (any (str_eq x) seen) && (str_eq x id || later))
  step id h h' = elim (Bool-cases (str_eq x id)) [
    | inl e ↦ rw (← (eq_iff x id).0 e) (same_step h (rw (← (eq_iff x id).0 e) at h'))
    | inr e ↦ other_step id e h h'
  ]

occurrences-normalize_from :
    (x : String) (seen raws : List String)
    → occurrences x (normalize_from seen raws)
      ≡ once (
          valid_cert_id x
          && not (any (str_eq x) seen)
          && any (λ raw. str_eq x (trim_space raw)) raws)
unfolding normalize_from
occurrences-normalize_from x seen [] = ground arith
occurrences-normalize_from x seen (raw ∷ raws) =
    step x seen (normalize_from seen raws) (normalize_from (trim_space raw ∷ seen) raws)
      (any (λ raw. str_eq x (trim_space raw)) raws) (trim_space raw)
      (occurrences-normalize_from x seen raws)
      (occurrences-normalize_from x (trim_space raw ∷ seen) raws)

-- The identifiers of a form come out once each, and only the valid ones: an identifier stands in the
-- result exactly once if it is valid and some value of the form is it but for spaces around it, and
-- not at all otherwise.
pub occurrences-normalize_cert_ids :
    (x : String) (raws : List String)
    → occurrences x (normalize_cert_ids raws)
      ≡ (if valid_cert_id x && any (λ raw. str_eq x (trim_space raw)) raws then 1 else 0)
unfolding normalize_cert_ids
occurrences-normalize_cert_ids x raws = occurrences-normalize_from x [] raws ∙ ground arith

length-take : (n : ℕ) (xs : List String) → length (take n xs) ≤ n
length-take zero xs = omega arith
length-take (suc n) [] = omega arith
length-take (suc n) (x ∷ xs) = omega (arith, length-take n xs)

launched-run :
    (id user : String) (now : ℕ) (found : List String) (jobs : Dict BulkJob) (ids : List String)
    → (launched id user now found jobs).run ≡ some ids
    → (ids ≡ take 100 found)
      × (0 < length ids)
      × (Dict.lookup id (launched id user now found jobs).jobs ≡ some (new_job id user now ids))
unfolding launched
launched-run id user now [] jobs ids e = absurd (ground arith)
launched-run id user now (c ∷ cs) jobs ids e =
    let same : take 100 (c ∷ cs) ≡ ids = ground arith in
    (
      sym same,
      rw (← same) (omega arith),
      lookup-insert id id _ jobs
          ∙ rw ((eq_iff id id).1 refl) (ap (λ l. some (new_job id user now l)) same),
    )

-- Three guards in front of an outcome, each with a refusal that starts no run.
guarded :
    (form token up : Bool) (a b c x : Started) (ids : List String)
    → a.run ≡ none
    → b.run ≡ none
    → c.run ≡ none
    → (if not form then a else if not token then b else if not up then c else x).run ≡ some ids
    → (token ≡ true)
      × (up ≡ true)
      × (x.run ≡ some ids)
      × ((if not form then a else if not token then b else if not up then c else x) ≡ x)
guarded false token up a b c x ids ha hb hc e = cc (ha, e)
guarded true false up a b c x ids ha hb hc e = cc (hb, e)
guarded true true false a b c x ids ha hb hc e = cc (hc, e)
guarded true true true a b c x ids ha hb hc e = (refl, refl, e, refl)

admitted_user-run :
    (configured : Bool) (id : String) (now : ℕ) (cert_ids : List String) (r : Request)
    (o : Option Session) (jobs : Dict BulkJob) (ids : List String)
    → (admitted_user configured id now cert_ids r o jobs).run ≡ some ids
    → (sess : Session) × (o ≡ some sess)
      × (verify_token r ≡ true)
      × (configured ≡ true)
      × ((launched id sess.user.email now (normalize_cert_ids cert_ids) jobs).run ≡ some ids)
      × (admitted_user configured id now cert_ids r o jobs
          ≡ launched id sess.user.email now (normalize_cert_ids cert_ids) jobs)
unfolding admitted_user
admitted_user-run configured id now cert_ids r none jobs ids e = absurd (ground arith)
admitted_user-run configured id now cert_ids r (some sess) jobs ids e =
    let (token, up, run, same) =
      guarded r.form_parses (verify_token r) configured _ _ _ _ ids refl refl refl e in
    (sess, refl, token, up, run, same)

-- A run is started only for a signed-in user with a matching CSRF token, on at least one and at most
-- 100 of the form's identifiers, and its job stands in the ledger before it runs.
pub bulk_reverify-run :
    (configured : Bool) (id : String) (now : ℕ) (cert_ids : List String) (r : Request)
    (jobs : Dict BulkJob) (ids : List String)
    → (bulk_reverify configured id now cert_ids r jobs).run ≡ some ids
    → (sess : Session) × (r.session ≡ some sess)
      × (verify_token r ≡ true)
      × (configured ≡ true)
      × (ids ≡ take 100 (normalize_cert_ids cert_ids))
      × (0 < length ids)
      × (length ids ≤ 100)
      × (Dict.lookup id (bulk_reverify configured id now cert_ids r jobs).jobs
          ≡ some (new_job id sess.user.email now ids))
unfolding bulk_reverify
bulk_reverify-run configured id now cert_ids r jobs ids e =
    let (sess, signed_in, token, up, run, same) =
      admitted_user-run configured id now cert_ids r r.session jobs ids e in
    let (taken, some_id, registered) =
      launched-run id sess.user.email now (normalize_cert_ids cert_ids) jobs ids run in
    (
      sess,
      signed_in,
      token,
      up,
      taken,
      some_id,
      rw taken (length-take 100 (normalize_cert_ids cert_ids)),
      rw same registered,
    )
