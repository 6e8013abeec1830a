-- ===== src/Store/CertQuery/Single.antt =====
-- One row at a time in store/certs.go: Get, and ScanStreamRow for the rows of Stream.
use lucairn_enterprise_deplo.Base.{ℕ, String, Option, none, some, List, [], ◌∷◌}
use lucairn_enterprise_deplo.Base.Text.{◌++◌}
use lucairn_enterprise_deplo.Store.AuditQuery.{Arg, text}
use lucairn_enterprise_deplo.Store.CertQuery.{
  CertSummary, Row, Unmarshal, normalise_verdict, parse_claim_counts, scan_cert_row,
}

pub record StreamRow : Type 0 where
  pub cert_id : String
  pub customer_id : String
  pub created_at : ℕ
  pub verdict : String
  pub redaction_count : ℕ
  pub claim_count : ℕ

module _ (to_lower : String → String) (unmarshal : Unmarshal) where
  -- ScanStreamRow, of a row that scans; the stream has no column for the request.
  pub scan_stream_row : Row → StreamRow
  scan_stream_row row = record {
    cert_id = row.certificate_id;
    customer_id = row.customer_id;
    created_at = row.created_at;
    verdict = normalise_verdict to_lower row.verdict;
    redaction_count = (parse_claim_counts unmarshal row.certificate_raw).0;
    claim_count = (parse_claim_counts unmarshal row.certificate_raw).1;
  }

  -- The query, white space aside.
  get_query : String → String × List Arg
  get_query id = (
    "SELECT certificate_id::text, COALESCE(request_id::text, '') AS request_id, customer_id::text, "
        ++ "created_at, COALESCE(verdict, '') AS verdict, certificate_raw FROM veil_certificates "
        ++ "WHERE certificate_id = $1",
    text id ∷ [],
  )

  got : Option Row → Option CertSummary
  got none = none
  got (some row) = some (scan_cert_row to_lower unmarshal row)

  -- Get; `none` is an error, pgx.ErrNoRows among them.
  pub get : (String × List Arg → Option Row) → String → Option CertSummary
  unfolding get_query got
  get query_row id = got (query_row (get_query id))
