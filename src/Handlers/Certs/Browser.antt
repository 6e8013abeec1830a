-- ===== src/Handlers/Certs/Browser.antt =====
-- BrowserHandler and CSVExportHandler of apps/dashboard/internal/handlers/certs.go.
use lucairn_enterprise_deplo.Base.{
  ℕ, ◌+◌, ◌-◌, ◌*◌, ◌/◌, String, Bool, not, ◌&&◌, Option, none, some, List, [], ◌∷◌, ltb,
  if◌then◌else◌,
}
use lucairn_enterprise_deplo.Base.Int.{ℤ, pos}
use lucairn_enterprise_deplo.Base.Text.{◌++◌, decimal}
use lucairn_enterprise_deplo.Auth.Session.{Session}
use lucairn_enterprise_deplo.Auth.Csrf.{issue_token}
use lucairn_enterprise_deplo.Web.{Request, Response, redirect, error, page}
use lucairn_enterprise_deplo.Store.CertQuery.{CertSummary, CertFilter, Page}
use lucairn_enterprise_deplo.Store.CertQuery.Single.{StreamRow}
use lucairn_enterprise_deplo.Handlers.Certs.Filter.{
  CertFilterView, parse_cert_filter, build_filter_query, append_page, parse_page_num,
}

pub record BrowserPage : Type 0 where
  pub csrf_token : String
  pub filter : CertFilterView
  pub rows : List CertSummary
  pub total : ℕ
  pub page : ℕ
  pub total_pages : ℕ
  pub page_size : ℕ
  pub prev_page_query : Option String
  pub next_page_query : Option String
  pub csv_export_query : String

pub data BrowserView : Type 0 where
  not_configured : BrowserView
  browser : BrowserPage → BrowserView

-- What List answers for a filter and a page.
abbrev Listing : Type 0
Listing = CertFilter → Page → Option (List CertSummary × ℕ)

abbrev size_of_page : ℕ
size_of_page = 50

browsed : String → CertFilterView → ℕ → Option (List CertSummary × ℕ) → Response BrowserView
browsed tok view n none = error 503 "cert store unavailable"
browsed tok view n (some (rows, total)) =
    let q = build_filter_query view in
    let counted = (total + size_of_page - 1) / size_of_page in
    let total_pages = if ltb counted 1 then 1 else counted in
    page 200 (
      browser (record {
        csrf_token = tok;
        filter = view;
        rows = rows;
        total = total;
        page = n;
        total_pages = total_pages;
        page_size = size_of_page;
        prev_page_query = if ltb 1 n then some (append_page q (n - 1)) else none;
        next_page_query = if ltb n total_pages then some (append_page q (n + 1)) else none;
        csv_export_query = "/certs.csv?" ++ q;
      }))

module _ (parse_day : String → Option ℕ) (atoi : String → Option ℤ) where
  browse_with : Bool → Listing → List String → Request → Option String → Response BrowserView
  unfolding browsed
  browse_with configured list verdicts r none = error 500 "internal error"
  browse_with configured list verdicts r (some tok) =
      if not configured
      then page 200 not_configured
      else (let (f, view) = parse_cert_filter parse_day atoi r verdicts in
          let n = parse_page_num atoi r in
          browsed tok view n
            (list f (record { limit = pos size_of_page; offset = pos ((n - 1) * size_of_page) })))

  browse_for :
      Bool → Listing → List String → Option String → Request → Option Session → Response BrowserView
  unfolding browse_with
  browse_for configured list verdicts fresh r none = redirect 302 "/login"
  browse_for configured list verdicts fresh r (some sess) =
      browse_with configured list verdicts r (issue_token fresh r)

  -- BrowserHandler
  pub browse : Bool → Listing → List String → Option String → Request → Response BrowserView
  unfolding browse_for
  browse configured list verdicts fresh r = browse_for configured list verdicts fresh r r.session

abbrev line_of : (ℕ → String) → StreamRow → List String
line_of rfc3339 row =
    row.cert_id
    ∷ row.customer_id
    ∷ rfc3339 row.created_at
    ∷ row.verdict
    ∷ decimal row.redaction_count
    ∷ decimal row.claim_count
    ∷ []

-- The rows of the stream as they are scanned; `none` is a failed scan or the end of the request, at
-- which the export stops.
export_lines : (ℕ → String) → ℕ → List (Option StreamRow) → List (List String)
export_lines rfc3339 least [] = []
export_lines rfc3339 least (none ∷ rows) = []
export_lines rfc3339 least (some row ∷ rows) =
    let rest = export_lines rfc3339 least rows in
    if ltb 0 least && ltb row.redaction_count least then rest else line_of rfc3339 row ∷ rest

pub data Export : Type 0 where
  csv : List (List String) → Export

exported : (ℕ → String) → ℕ → Option (List (Option StreamRow)) → Response Export
unfolding export_lines
exported rfc3339 least none = error 503 "cert store unavailable"
exported rfc3339 least (some rows) = page 200 (
    csv (
      ("cert_id" ∷ "customer_id" ∷ "created_at_utc" ∷ "verdict" ∷ "redaction_count" ∷ "claim_count"
        ∷ [])
      ∷ export_lines rfc3339 least rows))

module _ (parse_day : String → Option ℕ) (atoi : String → Option ℤ) (rfc3339 : ℕ → String) where
  export_for :
      Bool
      → (CertFilter → Option (List (Option StreamRow)))
      → List String
      → Request
      → Option Session
      → Response Export
  unfolding exported
  export_for configured stream verdicts r none = redirect 302 "/login"
  export_for configured stream verdicts r (some sess) =
      if not configured
      then error 503 "cert surface not configured"
      else (let (f, _) = parse_cert_filter parse_day atoi r verdicts in
          exported rfc3339 f.redaction_min (stream f))

  -- CSVExportHandler
  pub csv_export_certs :
      Bool
      → (CertFilter → Option (List (Option StreamRow)))
      → List String
      → Request
      → Response Export
  unfolding export_for
  csv_export_certs configured stream verdicts r = export_for configured stream verdicts r r.session
