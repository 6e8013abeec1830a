-- ===== src/Tests/Certs.antt =====
-- The certificate pages at concrete requests.
use lucairn_enterprise_deplo.Base.{
  ℕ, ◌*◌, String, ◌≡◌, refl, true, Option, none, some, List, [], ◌∷◌, take, arith,
}
use lucairn_enterprise_deplo.Auth.{role_viewer}
use lucairn_enterprise_deplo.Auth.Session.{Session}
use lucairn_enterprise_deplo.Web.{Request}
use lucairn_enterprise_deplo.Store.CertQuery.{CertSummary, CertFilter, Row, Db}
use lucairn_enterprise_deplo.Store.CertQuery.Pages.{pages, matching, pages_join}
use lucairn_enterprise_deplo.Witness.Client.{Cache, alone, verify}
use lucairn_enterprise_deplo.Handlers.Certs.{CertFound, cert_found, InspectorPage}
use lucairn_enterprise_deplo.Tests.Client.{plain, up, clock, answer}

abbrev cert : CertSummary
cert = record {
  id = "veil_001";
  request_id = "r-1";
  customer_id = "acme";
  created_at = 4;
  verdict = "verified";
  redaction_count = 2;
  claim_count = 1;
}

abbrev get : String → CertFound
get id = cert_found cert

abbrev session : Session
session = record {
  id = "s-1";
  user = record { email = "v@b"; role = role_viewer };
  created_at = 0;
  last_seen = 50;
}

abbrev request : String → Request
request path = record {
  method = "POST";
  path = path;
  request_uri = path;
  session_cookie = some "s-1";
  csrf_cookie = some "t";
  form_parses = true;
  post_form = ("csrf", "t") ∷ [];
  query = [];
  session = some session;
}

-- The witness could not be reached at first.
abbrev cache : Cache
cache = record { m = ("r-1", record { val = answer 3; expires_at = 40 }) ∷ []; ttl = 30 }

abbrev emptied : Cache
emptied = record { m = []; ttl = 30 }

abbrev shown : InspectorPage
shown = record { cert = cert; result = some (answer 20); witness_err = ""; rekor_url = "" }

abbrev refilled : Cache
refilled = (verify plain up (clock 20) alone "r-1" emptied).1

abbrev row : String → String → Row
row id raw = record {
  certificate_id = id;
  request_id = "r";
  customer_id = "acme";
  created_at = 7;
  verdict = "VERDICT_VERIFIED";
  certificate_raw = raw;
}

abbrev rows : List Row
rows = row "c-1" "two" ∷ row "c-2" "" ∷ row "c-3" "two" ∷ row "c-4" "two" ∷ []

abbrev db : Db
db = record { rows = λ q. some rows; count = λ q. some 4 }

abbrev claims : String → Option (List (Option ℕ))
claims raw = some (some 2 ∷ none ∷ [])

abbrev filter : CertFilter
filter = record { from = none; to = none; verdicts = []; customer_id = "acme"; redaction_min = 1 }

pages_join_example :
    pages (λ s. s) claims (λ k. db) filter 2 2
    ≡ take (2 * 2) (matching (λ s. s) claims filter (take 2000 rows))
pages_join_example =
    pages_join (λ s. s) claims (λ k. db) filter 2 2 (λ k. 4) rows (omega arith) (omega arith)
      (omega arith) (λ k. refl) (λ k. refl)
