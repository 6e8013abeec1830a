-- ===== src/Handlers/Certs.antt =====
-- apps/dashboard/internal/handlers/certs.go: the certificate browser, the inspector and its validator
-- view, and the request to verify again. The state is the cache of the witness client.
pub mod Filter
pub mod Browser
pub mod Again
use lucairn_enterprise_deplo.Base.{
  ℕ, String, Bool, true, false, not, Option, none, some, str_eq, if◌then◌else◌, Result, ok, err,
}
use lucairn_enterprise_deplo.Base.Text.{◌++◌, trim_prefix, trim_suffix}
use lucairn_enterprise_deplo.Base.Text.Search.{cut}
use lucairn_enterprise_deplo.Auth.Session.{Session}
use lucairn_enterprise_deplo.Auth.Csrf.{issue_token, verify_token}
use lucairn_enterprise_deplo.Web.{Request, Response, redirect, error, not_found, page}
use lucairn_enterprise_deplo.Handlers.Bulk.{valid_cert_id}
use lucairn_enterprise_deplo.Store.CertQuery.{CertSummary}
use lucairn_enterprise_deplo.Witness.Client.{
  Cache, VerifyError, Rpc, Clock, Meanwhile, verify, invalidate,
}
use lucairn_enterprise_deplo.Witness.Client.Report.{VerifyResult, Unicode}

-- What Store.Get answers.
pub data CertFound : Type 0 where
  cert_found : CertSummary → CertFound
  no_rows unavailable : CertFound

before_slash : String → Option (String × String) → String
before_slash s none = s
before_slash s (some (before, after)) = before

-- extractCertID with the prefix "/certs/"
unfoldable pub extract_cert_id : String → String
unfolding trim_prefix before_slash
extract_cert_id path = let s = trim_prefix "/certs/" path in before_slash s (cut "/" s)

-- rekorDeepLink
pub rekor_deep_link : String → String
rekor_deep_link uuid =
    if str_eq uuid "" then "" else "https://rekor.sigstore.dev/api/v1/log/entries/" ++ uuid

pub record InspectorPage : Type 0 where
  pub cert : CertSummary
  pub result : Option VerifyResult
  pub witness_err : String
  pub rekor_url : String

pub data CertPage : Type 0 where
  not_configured : CertPage
  inspector : InspectorPage → CertPage

abbrev pub Handled : Type 0
Handled = Response CertPage × Cache

inspected : CertSummary → Result VerifyError VerifyResult × Cache → Handled
unfolding rekor_deep_link
inspected cert (ok result, c) = (
  page 200 (
      inspector (record {
        cert = cert;
        result = some result;
        witness_err = "";
        rekor_url = rekor_deep_link result.rekor_uuid;
      })),
  c,
)
inspected cert (err e, c) = (
  page 200 (
      inspector (record {
        cert = cert;
        result = none;
        witness_err =
            "Witness unreachable. The cert chain renders from the audit DB, but live signature re-verification is unavailable. Retry once connectivity is restored.";
        rekor_url = "";
      })),
  c,
)

module _ (u : Unicode) (rpc : Rpc) (at : Clock) (meanwhile : Meanwhile)
    (get : String → CertFound) where
  inspect_found : CertFound → Cache → Handled
  unfolding inspected
  inspect_found (cert_found cert) c = inspected cert (verify u rpc at meanwhile cert.request_id c)
  inspect_found no_rows c = (not_found, c)
  inspect_found unavailable c = (error 503 "cert store unavailable", c)

  inspect_id : String → Cache → Handled
  unfolding inspect_found
  inspect_id id c = if not (valid_cert_id id) then (not_found, c) else inspect_found (get id) c

  inspect_with : Bool → String → Option String → Cache → Handled
  unfolding inspect_id
  inspect_with configured id none c = (error 500 "internal error", c)
  inspect_with configured id (some tok) c =
      if not configured then (page 200 not_configured, c) else inspect_id id c

  inspect_for : Bool → String → Option String → Request → Option Session → Cache → Handled
  unfolding inspect_with
  inspect_for configured id fresh r none c = (redirect 302 "/login", c)
  inspect_for configured id fresh r (some sess) c =
      inspect_with configured id (issue_token fresh r) c

  -- InspectorHandler, whose page has a CSRF token too
  unfoldable pub inspect : Bool → Option String → Request → Cache → Handled
  unfolding inspect_for
  inspect configured fresh r c = inspect_for configured (extract_cert_id r.path) fresh r r.session c

  -- ValidatorHandler
  pub validate : Bool → Option String → Request → Cache → Handled
  unfolding inspect_for trim_suffix
  validate configured fresh r c =
      inspect_for configured (trim_suffix "/validator" (extract_cert_id r.path)) fresh r r.session c

reverify_found : String → CertFound → Cache → Handled
reverify_found id (cert_found cert) c =
    (redirect 303 ("/certs/" ++ id), invalidate cert.request_id c)
reverify_found id no_rows c = (not_found, c)
reverify_found id unavailable c = (error 503 "cert store unavailable", c)

reverify_id : (String → CertFound) → String → Cache → Handled
unfolding reverify_found
reverify_id get id c =
    if not (valid_cert_id id) then (not_found, c) else reverify_found id (get id) c

reverify_for : (String → CertFound) → Bool → Request → Option Session → Cache → Handled
unfolding reverify_id trim_suffix
reverify_for get configured r none c = (redirect 302 "/login", c)
reverify_for get configured r (some sess) c =
    if not r.form_parses
    then (error 400 "bad form", c)
    else if not (verify_token r)
    then (error 403 "csrf failure", c)
    else if not configured
    then (error 503 "cert surface not configured", c)
    else reverify_id get (trim_suffix "/reverify" (extract_cert_id r.path)) c

-- ReverifyHandler
unfoldable pub reverify : (String → CertFound) → Bool → Request → Cache → Handled
unfolding reverify_for
reverify get configured r c = reverify_for get configured r r.session c
