-- ===== src/Store/CertQuery.antt =====
-- apps/dashboard/internal/store/certs.go: the SQL of the certificate browser and what is made of its
-- rows. The database is a parameter: what it answers to a query with its arguments.
pub mod Pages
pub mod Single
use Prim.Native.String.{[] as no_text, ◌∷◌ as then_char}
use mathlib.Core.List.{◌++◌ as append}
use lucairn_enterprise_deplo.Base.{
  ℕ, ◌+◌, ◌-◌, String, Bool, true, false, not, ◌&&◌, ◌||◌, Option, none, some, List, [], ◌∷◌, map,
  take, drop, length, ltb, leb, ◌==◌, str_eq, if◌then◌else◌,
}
use lucairn_enterprise_deplo.Base.Int.{ℤ, is_positive, pos_part}
use lucairn_enterprise_deplo.Base.Dict
use lucairn_enterprise_deplo.Base.Dict.{Dict}
use lucairn_enterprise_deplo.Base.Text.{◌++◌, decimal, join, trim_prefix}
use lucairn_enterprise_deplo.Store.AuditQuery.{Arg, instant, text, texts, number}

pub record CertSummary : Type 0 where
  pub id : String
  pub request_id : String
  pub customer_id : String
  pub created_at : ℕ
  pub verdict : String
  pub redaction_count : ℕ
  pub claim_count : ℕ

-- `none` is the zero time. A minimum that is not positive is 0 here.
pub record CertFilter : Type 0 where
  pub from : Option ℕ
  pub to : Option ℕ
  pub verdicts : List String
  pub customer_id : String
  pub redaction_min : ℕ

pub record Page : Type 0 where
  pub limit : ℤ
  pub offset : ℤ

-- The columns of a row.
pub record Row : Type 0 where
  pub certificate_id : String
  pub request_id : String
  pub customer_id : String
  pub created_at : ℕ
  pub verdict : String
  pub certificate_raw : String

-- The claims of a certificate that unmarshals, each with the count of its sanitizer part, if any.
abbrev pub Unmarshal : Type 0
Unmarshal = String → Option (List (Option ℕ))

-- NormaliseVerdict
pub normalise_verdict : (String → String) → String → String
unfolding trim_prefix
normalise_verdict to_lower raw =
    if str_eq raw "VERDICT_VERIFIED"
    then "verified"
    else if str_eq raw "VERDICT_PARTIAL"
    then "partial"
    else if str_eq raw "VERDICT_FAILED"
    then "failed"
    else if str_eq raw "" || str_eq raw "VERDICT_UNSPECIFIED"
    then ""
    else to_lower (trim_prefix "VERDICT_" raw)

-- dbVerdictsFromUI
pub db_verdicts_from_ui : List String → List String
db_verdicts_from_ui [] = []
db_verdicts_from_ui (v ∷ vs) =
    let rest = db_verdicts_from_ui vs in
    if str_eq v "verified"
    then "VERDICT_VERIFIED" ∷ rest
    else if str_eq v "partial"
    then "VERDICT_PARTIAL" ∷ rest
    else if str_eq v "failed"
    then "VERDICT_FAILED" ∷ rest
    else rest

redactions_of : List (Option ℕ) → ℕ
redactions_of [] = 0
redactions_of (none ∷ cs) = redactions_of cs
redactions_of (some n ∷ cs) = n + redactions_of cs

counts_of : Option (List (Option ℕ)) → ℕ × ℕ
unfolding redactions_of
counts_of none = (0, 0)
counts_of (some claims) = (redactions_of claims, length claims)

-- parseClaimCounts, where the counts that are not there are 0 as in a fresh CertSummary
pub parse_claim_counts : Unmarshal → String → ℕ × ℕ
unfolding counts_of
parse_claim_counts unmarshal raw = if str_eq raw "" then (0, 0) else counts_of (unmarshal raw)

-- scanCertRow
pub scan_cert_row : (String → String) → Unmarshal → Row → CertSummary
unfolding normalise_verdict parse_claim_counts
scan_cert_row to_lower unmarshal row = record {
  id = row.certificate_id;
  request_id = row.request_id;
  customer_id = row.customer_id;
  created_at = row.created_at;
  verdict = normalise_verdict to_lower row.verdict;
  redaction_count = (parse_claim_counts unmarshal row.certificate_raw).0;
  claim_count = (parse_claim_counts unmarshal row.certificate_raw).1;
}

-- The builder, its arguments and the next index.
pub record Builder : Type 0 where
  pub sql : String
  pub args : List Arg
  pub idx : ℕ

clause : String → Option Arg → Builder → Builder
clause before none b = b
clause before (some arg) b = record {
  sql = b.sql ++ before ++ decimal b.idx;
  args = append b.args (arg ∷ []);
  idx = b.idx + 1;
}

abbrev instant_arg : Option ℕ → Option Arg
instant_arg none = none
instant_arg (some t) = some (instant t)

abbrev text_arg : String → Option Arg
text_arg s = if str_eq s "" then none else some (text s)

placeholders : ℕ → List String → List String
placeholders idx [] = []
placeholders idx (v ∷ vs) = ("$" ++ decimal idx) ∷ placeholders (idx + 1) vs

in_clause : List String → Builder → Builder
unfolding placeholders
in_clause [] b = b
in_clause (v ∷ vs) b = record {
  sql = b.sql ++ " AND verdict IN (" ++ join (placeholders b.idx (v ∷ vs)) "," ++ ")";
  args = append b.args (map text (v ∷ vs));
  idx = b.idx + length (v ∷ vs);
}

build : CertFilter → Builder → Builder
unfolding clause in_clause
build f b = clause " AND customer_id = $" (text_arg f.customer_id) (
    in_clause f.verdicts (
      clause " AND created_at < $" (instant_arg f.to)
        (clause " AND created_at >= $" (instant_arg f.from) b)))

-- buildWhere
pub build_where : CertFilter → ℕ → String × List Arg × ℕ
unfolding build
build_where f start_idx =
    let b = build f (record { sql = ""; args = []; idx = start_idx }) in (b.sql, b.args, b.idx)

-- The limit and the offset that List goes by.
pub limit_of : Page → ℕ
limit_of p =
    if not (is_positive p.limit)
    then 50
    else if ltb 200 (pos_part p.limit)
    then 200
    else pos_part p.limit

pub offset_of : Page → ℕ
offset_of p = pos_part p.offset

db_filter : CertFilter → CertFilter
unfolding db_verdicts_from_ui
db_filter f = record f { verdicts = db_verdicts_from_ui f.verdicts; redaction_min = 0 }

-- The columns, white space aside.
abbrev select_certs : String
select_certs =
    "SELECT certificate_id::text, COALESCE(request_id::text, '') AS request_id, customer_id::text, "
    ++ "created_at, COALESCE(verdict, '') AS verdict, certificate_raw FROM veil_certificates WHERE 1=1"

pub list_query : CertFilter → Page → String × List Arg
unfolding build_where db_filter limit_of offset_of
list_query f p =
    let (where_sql, args, _) = build_where (db_filter f) 1 in
    if ltb 0 f.redaction_min
    then (select_certs ++ where_sql ++ " ORDER BY created_at DESC LIMIT 2000", args)
    else (
      select_certs
          ++ where_sql
          ++ " ORDER BY created_at DESC LIMIT $"
          ++ decimal (length args + 1)
          ++ " OFFSET $"
          ++ decimal (length args + 2),
      append args (number (limit_of p) ∷ number (offset_of p) ∷ []),
    )

pub count_query : CertFilter → String × List Arg
unfolding build_where db_filter
count_query f =
    let (where_sql, args, _) = build_where (db_filter f) 1 in
    ("SELECT COUNT(*) FROM veil_certificates WHERE 1=1" ++ where_sql, args)

-- What the database answers; `none` is an error.
pub record Db : Type 0 where
  pub rows : String × List Arg → Option (List Row)
  pub count : String × List Arg → Option ℕ

-- The rows with enough redactions.
pub enough : ℕ → List CertSummary → List CertSummary
enough n [] = []
enough n (c ∷ cs) = let rest = enough n cs in if leb n c.redaction_count then c ∷ rest else rest

abbrev at_most : ℕ → ℕ → ℕ
at_most n k = if ltb n k then n else k

-- filtered[start:end]
pub slice : ℕ → ℕ → List CertSummary → List CertSummary
slice offset limit filtered =
    let start = at_most (length filtered) offset in
    let end' = at_most (length filtered) (start + limit) in
    take (end' - start) (drop start filtered)

selected : CertFilter → Page → List CertSummary → ℕ → List CertSummary × ℕ
unfolding enough slice
selected f p out total =
    if ltb 0 f.redaction_min
    then (
      slice (offset_of p) (limit_of p) (enough f.redaction_min out),
      length (enough f.redaction_min out),
    )
    else (out, total)

listed :
    (String → String)
    → Unmarshal
    → CertFilter
    → Page
    → Option (List Row)
    → Option ℕ
    → Option (List CertSummary × ℕ)
unfolding selected
listed to_lower unmarshal f p none total = none
listed to_lower unmarshal f p (some rows) none = none
listed to_lower unmarshal f p (some rows) (some total) =
    some (selected f p (map (scan_cert_row to_lower unmarshal) rows) total)

-- CertStore.List
pub list : (String → String) → Unmarshal → Db → CertFilter → Page → Option (List CertSummary × ℕ)
unfolding listed
list to_lower unmarshal db f p =
    listed to_lower unmarshal f p (db.rows (list_query f p)) (db.count (count_query f))

-- The query of CertStore.Stream, white space aside.
pub stream_query : CertFilter → String × List Arg
unfolding build_where db_filter
stream_query f =
    let (where_sql, args, _) = build_where (db_filter f) 1 in
    (
      "SELECT certificate_id::text, customer_id::text, created_at, COALESCE(verdict, '') AS verdict, certificate_raw FROM veil_certificates WHERE 1=1"
          ++ where_sql ++ " ORDER BY created_at DESC",
      args,
    )

-- CertStore.GetRequestIDsByCertIDs, with the rows that the database answers for some identifiers.
request_ids_from : Option (List (String × String)) → Option (Dict String)
request_ids_from none = none
request_ids_from (some []) = some Dict.new
request_ids_from (some ((id, request_id) ∷ rows)) = elim (request_ids_from (some rows)) [
  | none ↦ none
  | some m ↦ some (elim (Dict.lookup id m) [ none ↦ Dict.insert id request_id m | some later ↦ m ])
]

pub get_request_ids_by_cert_ids :
    (List String → Option (List (String × String))) → List String → Option (Dict String)
unfolding request_ids_from
get_request_ids_by_cert_ids query ids =
    if length ids == 0
    then some Dict.new
    else request_ids_from (query (if ltb 1000 (length ids) then take 1000 ids else ids))
