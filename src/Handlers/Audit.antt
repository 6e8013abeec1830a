-- ===== src/Handlers/Audit.antt =====
-- apps/dashboard/internal/handlers/audit.go: the raw payload of one audit event, the CSV export, and
-- the arithmetic of the pages. The state is the audit trail; an emit may fail.
pub mod Trail
pub mod Pages
pub mod Query
use lucairn_enterprise_deplo.Base.{
  ℕ, zero, suc, ◌+◌, ◌-◌, ◌*◌, ◌/◌, String, Bool, true, false, not, ◌&&◌, ◌||◌, Option, none, some,
  List, [], ◌∷◌, map, length, ltb, leb, ◌==◌, str_eq, if◌then◌else◌,
}
use lucairn_enterprise_deplo.Base.Int64.{less, plus, minus, times, quotient}
use lucairn_enterprise_deplo.Base.Text.{
  ◌++◌, decimal, has_prefix, contains_code, trim_prefix, trim_suffix,
}
use lucairn_enterprise_deplo.Auth.{User, role_admin}
use lucairn_enterprise_deplo.Auth.Session.{Session}
use lucairn_enterprise_deplo.Auth.Gate.{same_role}
use lucairn_enterprise_deplo.Auth.Csrf.{issue_token, verify_token}
use lucairn_enterprise_deplo.Web.{
  Request, query_value, or_empty, Response, redirect, error, not_found, page,
}

-- One row of audit_events; the timestamp is its text in RFC 3339.
pub record AuditEvent : Type 0 where
  pub event_id : String
  pub event_type : String
  pub source_service : String
  pub actor : String
  pub timestamp : String
  pub request_id : String
  pub previous_event_hash : String
  pub event_hash : String
  pub payload : String
  pub payload_type : String

-- What the dashboard emits itself.
pub data Emitted : Type 0 where
  reveal_raw_event : (user : String) → (target : AuditEvent) → Emitted
  csv_export_event : (user : String) → (row_count : String) → (filter_query : String) → Emitted

-- What a request gets out: one event with its payload, or the rows of the export.
pub data Page : Type 0 where
  detail : (csrf_token : String) → AuditEvent → (payload : String) → Page
  csv : List (List String) → Page

id_of_rest : String → String
id_of_rest rest =
    if contains_code 47 rest
    then ""
    else if str_eq rest "" || str_eq rest "export.csv" || has_prefix "saved-filters" rest
    then ""
    else rest

unfoldable pub extract_event_id_from_path : String → String
unfolding trim_prefix trim_suffix id_of_rest
extract_event_id_from_path path =
    if not (has_prefix "/audit/" path)
    then ""
    else id_of_rest (trim_suffix "/reveal-raw" (trim_suffix "/" (trim_prefix "/audit/" path)))

-- What GetEvent answers.
pub data Found : Type 0 where
  found : AuditEvent → Found
  no_rows : Found
  unavailable : Found

-- `accepts` says whether the emitter takes an event; what it takes is added to the trail.
emit : (Emitted → Bool) → Emitted → List Emitted → Bool × List Emitted
emit accepts e trail = if accepts e then (true, e ∷ trail) else (false, trail)

revealed : Option String → AuditEvent → Bool × List Emitted → Response Page × List Emitted
revealed fresh ev (false, trail) = (error 500 "audit emit failed", trail)
revealed fresh ev (true, trail) = (page 200 (detail (or_empty fresh) ev ev.payload), trail)

reveal_found :
    (Emitted → Bool) → Option String → String → Found → List Emitted → Response Page × List Emitted
unfolding emit revealed
reveal_found accepts token user (found ev) trail =
    revealed token ev (emit accepts (reveal_raw_event user ev) trail)
reveal_found accepts token user no_rows trail = (not_found, trail)
reveal_found accepts token user unavailable trail = (error 502 "audit log unavailable", trail)

reveal_for :
    Bool
    → (Emitted → Bool)
    → (String → Found)
    → Option String
    → Request
    → Option Session
    → List Emitted
    → Response Page × List Emitted
unfolding reveal_found
reveal_for configured accepts get_event fresh r none trail = (redirect 302 "/login", trail)
reveal_for configured accepts get_event fresh r (some sess) trail =
    if not (same_role sess.user.role role_admin)
    then (not_found, trail)
    else if not configured
    then (not_found, trail)
    else if not r.form_parses
    then (error 400 "bad form", trail)
    else if not (verify_token r)
    then (error 403 "csrf invalid", trail)
    else if str_eq (extract_event_id_from_path r.path) ""
    then (not_found, trail)
    else reveal_found accepts (issue_token fresh r) sess.user.email
        (get_event (extract_event_id_from_path r.path)) trail

-- RevealRawHandler
unfoldable pub reveal_raw :
    Bool
    → (Emitted → Bool)
    → (String → Found)
    → Option String
    → Request
    → List Emitted
    → Response Page × List Emitted
unfolding reveal_for
reveal_raw configured accepts get_event fresh r trail =
    reveal_for configured accepts get_event fresh r r.session trail

abbrev pub csv_header : List String
csv_header =
    "event_id" ∷ "event_type" ∷ "source_service" ∷ "actor" ∷ "timestamp" ∷ "request_id"
    ∷ "previous_event_hash" ∷ "event_hash" ∷ "payload" ∷ []

abbrev row_of : (String → String) → (String → String) → AuditEvent → List String
row_of actor payload ev =
    ev.event_id
    ∷ ev.event_type
    ∷ ev.source_service
    ∷ actor ev.actor
    ∷ ev.timestamp
    ∷ ev.request_id
    ∷ ev.previous_event_hash
    ∷ ev.event_hash
    ∷ payload ev.payload
    ∷ []

-- The redactions of piiguard: of an actor, and of a payload.
pub record Redaction : Type 0 where
  pub actor : String → String
  pub payload : String → String

abbrev pub raw_rows : List AuditEvent → List (List String)
raw_rows events = csv_header ∷ map (row_of (λ s. s) (λ s. s)) events

abbrev pub redacted_rows : Redaction → List AuditEvent → List (List String)
redacted_rows red events = csv_header ∷ map (row_of red.actor red.payload) events

exported : List AuditEvent → Bool × List Emitted → Response Page × List Emitted
exported events (false, trail) = (error 500 "audit emit failed", trail)
exported events (true, trail) = (page 200 (csv (raw_rows events)), trail)

export_found :
    (Emitted → Bool)
    → Redaction
    → String
    → String
    → Bool
    → Option (List AuditEvent)
    → List Emitted
    → Response Page × List Emitted
unfolding emit exported
export_found accepts red user query reveal none trail = (error 502 "audit log unavailable", trail)
export_found accepts red user query reveal (some events) trail =
    if reveal
    then exported events
        (emit accepts (csv_export_event user (decimal (length events)) query) trail)
    else (page 200 (csv (redacted_rows red events)), trail)

export_for :
    Bool
    → (Emitted → Bool)
    → Redaction
    → String
    → Bool
    → Option (List AuditEvent)
    → Option Session
    → List Emitted
    → Response Page × List Emitted
unfolding export_found
export_for configured accepts red query reveal listed none trail = (redirect 302 "/login", trail)
export_for configured accepts red query reveal listed (some sess) trail =
    if not configured
    then (not_found, trail)
    else if reveal && not (same_role sess.user.role role_admin)
    then (not_found, trail)
    else export_found accepts red sess.user.email query reveal listed trail

-- CSVExportHandler. `equal_fold` is strings.EqualFold, `listed` what ListEvents answers for the
-- filter of the query, `query` the query as it is written into the audit trail.
unfoldable pub csv_export :
    (String → String → Bool)
    → Bool
    → (Emitted → Bool)
    → Redaction
    → String
    → Option (List AuditEvent)
    → Request
    → List Emitted
    → Response Page × List Emitted
unfolding export_for
csv_export equal_fold configured accepts red query listed r trail =
    export_for configured accepts red query (equal_fold (query_value r "reveal") "true") listed
      r.session trail

-- The numbers of a page of results, each an int (Base/Int64).
pub record Pagination : Type 0 where
  pub total : ℕ
  pub page : ℕ
  pub page_size : ℕ
  pub total_pages : ℕ
  pub prev_page : Option ℕ
  pub next_page : Option ℕ
  pub start_index : ℕ
  pub end_index : ℕ
  pub page_list : List ℕ

-- The loop from `i` over `n` numbers.
pub run_from : ℕ → ℕ → List ℕ
run_from i zero = []
run_from i (suc n) = i ∷ run_from (i + 1) n

abbrev at_least_1 : ℕ → ℕ
at_least_1 n = if ltb n 1 then 1 else n

abbrev window_start : ℕ → ℕ → ℕ → ℕ
window_start current total width =
    let start = at_least_1 (current - width / 2) in
    if ltb total (start + width - 1) then at_least_1 (total - width + 1) else start

abbrev window_end : ℕ → ℕ → ℕ → ℕ
window_end current total width =
    let start = at_least_1 (current - width / 2) in
    if ltb total (start + width - 1) then total else start + width - 1

-- pageWindow, where `total` stays so far below 2 ^ 63 that `start + width - 1` does not wrap.
unfoldable pub page_window : ℕ → ℕ → ℕ → List ℕ
unfolding run_from
page_window current total width =
    if not (less 0 total)
    then []
    else (let width' = if width == 0 then 5 else width in
        if leb total width'
        then run_from 1 total
        else run_from (window_start current total width')
            (window_end current total width' + 1 - window_start current total width'))

-- populatePagination
unfoldable pub populate_pagination : ℕ → ℕ → ℕ → Pagination
populate_pagination total asked page_size =
    let size = if not (less 0 page_size) then 50 else page_size in
    let pages = if not (less 0 total) then 1 else quotient (minus (plus total size) 1) size in
    let p = if less asked 1 then 1 else asked in
    let p' = if less pages p then pages else p in
    let last = times p' size in
    record {
      total = total;
      page = p';
      page_size = size;
      total_pages = pages;
      prev_page = if less 1 p' then some (minus p' 1) else none;
      next_page = if less p' pages then some (plus p' 1) else none;
      start_index = if total == 0 then 0 else plus (times (minus p' 1) size) 1;
      end_index = if total == 0 then 0 else if less total last then total else last;
      page_list = page_window p' pages 7;
    }
