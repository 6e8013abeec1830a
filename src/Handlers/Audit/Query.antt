-- ===== src/Handlers/Audit/Query.antt =====
-- The filter of the audit browser, its rows and the detail page in handlers/audit.go. The redactions of
-- piiguard, time.Parse and strconv.Atoi are parameters.
use lucairn_enterprise_deplo.Base.{
  ℕ, String, Bool, not, ◌&&◌, Option, none, some, List, [], ◌∷◌, map, ltb, str_eq, if◌then◌else◌,
}
use lucairn_enterprise_deplo.Base.Int.{ℤ, is_positive, pos_part}
use lucairn_enterprise_deplo.Base.Text.{◌++◌, trim_space, byte_length, cut_bytes, split_commas}
use lucairn_enterprise_deplo.Base.Sort.{sort_by_key}
use lucairn_enterprise_deplo.Base.Sort.Order.{text_order}
use lucairn_enterprise_deplo.Base.Dict
use lucairn_enterprise_deplo.Base.Dict.{Dict}
use lucairn_enterprise_deplo.Auth.{role_admin}
use lucairn_enterprise_deplo.Auth.Session.{Session}
use lucairn_enterprise_deplo.Auth.Gate.{same_role}
use lucairn_enterprise_deplo.Auth.Csrf.{issue_token}
use lucairn_enterprise_deplo.Web.{Request, or_empty, Response, redirect, error, not_found, page}
use lucairn_enterprise_deplo.Store.AuditQuery.{AuditFilter}
use lucairn_enterprise_deplo.Handlers.Audit.{
  AuditEvent, Found, found, no_rows, unavailable, extract_event_id_from_path,
}

without_blanks : List String → List (String × Unit {0})
without_blanks [] = []
without_blanks (v ∷ vs) =
    let rest = without_blanks vs in
    if str_eq (trim_space v) "" then rest else (trim_space v, tt) ∷ rest

-- csvList
csv_list : String → List String
unfolding without_blanks
csv_list s =
    if str_eq (trim_space s) ""
    then []
    else map (λ (e : String × Unit {0}). e.0)
        (sort_by_key text_order (without_blanks (split_commas s)))

positive_of : ℕ → Option ℤ → ℕ
positive_of fallback none = fallback
positive_of fallback (some n) = if is_positive n then pos_part n else fallback

module _ (parse : String → String → Option ℕ) (atoi : String → Option ℤ) where
  -- parseFilterTimestamp; `parse` is given the layout.
  parse_filter_timestamp : String → Option ℕ
  parse_filter_timestamp s = elim (parse "2006-01-02T15:04:05Z07:00" s) [
    | some t ↦ some t
    | none ↦ elim (parse "2006-01-02T15:04" s) [ some t ↦ some t | none ↦ parse "2006-01-02" s ]
  ]

  instant_of : String → Option ℕ
  unfolding parse_filter_timestamp
  instant_of s = if str_eq s "" then none else parse_filter_timestamp s

  number_of : ℕ → String → ℕ
  unfolding positive_of
  number_of fallback s = if str_eq s "" then fallback else positive_of fallback (atoi s)

  -- parseFilterFromQuery, whose page and page size stand in the filter
  pub parse_filter_from_query : ℕ → Dict String → AuditFilter
  unfolding csv_list instant_of number_of
  parse_filter_from_query max_pages_allowed q =
      let value : String → String = λ k. or_empty (Dict.lookup k q) in
      let contains = trim_space (value "payload_contains") in
      let asked = number_of 1 (trim_space (value "page")) in
      record {
        event_types = csv_list (value "event_type");
        source_services = csv_list (value "source_service");
        actors = csv_list (value "actor");
        request_id = trim_space (value "request_id");
        timestamp_from = instant_of (trim_space (value "from"));
        timestamp_to = instant_of (trim_space (value "to"));
        payload_contains =
            if ltb 256 (byte_length contains) then cut_bytes 256 contains else contains;
        page =
            if ltb 0 max_pages_allowed && ltb max_pages_allowed asked
            then max_pages_allowed
            else asked;
        page_size = number_of 50 (trim_space (value "page_size"));
      }

-- piiguard.Redact and piiguard.RedactJSON
pub record Guard : Type 0 where
  pub redact : String → String
  pub redact_json : String → Option String

abbrev sentinel : String
sentinel = "[REDACTED — render error]"

redacted_or_sentinel : Option String → String
redacted_or_sentinel none = sentinel
redacted_or_sentinel (some out) = if str_eq out "" then sentinel else out

-- redactPayloadJSON
redact_payload_json : Guard → String → String
unfolding redacted_or_sentinel
redact_payload_json g payload =
    if str_eq payload "" then "" else redacted_or_sentinel (g.redact_json payload)

pub record RenderedRow : Type 0 where
  pub event_id : String
  pub event_type : String
  pub source_service : String
  pub actor : String
  pub timestamp : String
  pub request_id : String
  pub payload_preview : String

clipped : String → String
clipped preview = if ltb 80 (byte_length preview) then cut_bytes 80 preview ++ "…" else preview

-- populateRedactedRows
pub populate_redacted_rows : Guard → List AuditEvent → List RenderedRow
unfolding clipped redacted_or_sentinel
populate_redacted_rows g events =
    map
      (λ (ev : AuditEvent). record {
        event_id = ev.event_id;
        event_type = ev.event_type;
        source_service = ev.source_service;
        actor = g.redact ev.actor;
        timestamp = ev.timestamp;
        request_id = ev.request_id;
        payload_preview = clipped (redacted_or_sentinel (g.redact_json ev.payload));
      })
      events

pub record DetailPage : Type 0 where
  pub csrf_token : String
  pub detail_event : AuditEvent
  pub detail_redacted : String
  pub reveal_enabled : Bool

detail_found : Guard → String → Bool → Found → Response DetailPage
unfolding redact_payload_json
detail_found g tok admin no_rows = not_found
detail_found g tok admin unavailable = error 502 "audit log unavailable"
detail_found g tok admin (found ev) = page 200 (record {
  csrf_token = tok;
  detail_event = record ev { actor = g.redact ev.actor };
  detail_redacted = redact_payload_json g ev.payload;
  reveal_enabled = admin;
})

detail_with : Guard → (String → Found) → String → Bool → Option String → Response DetailPage
unfolding detail_found
detail_with g get_event id admin none = error 500 "internal error"
detail_with g get_event id admin (some tok) = detail_found g tok admin (get_event id)

detail_for :
    Guard → Bool → (String → Found) → Option String → Request → Option Session → Response DetailPage
unfolding detail_with
detail_for g configured get_event fresh r none = redirect 302 "/login"
detail_for g configured get_event fresh r (some sess) =
    if not configured
    then not_found
    else if str_eq (extract_event_id_from_path r.path) ""
    then not_found
    else detail_with g get_event (extract_event_id_from_path r.path)
        (same_role sess.user.role role_admin) (issue_token fresh r)

-- DetailHandler
pub show_detail : Guard → Bool → (String → Found) → Option String → Request → Response DetailPage
unfolding detail_for
show_detail g configured get_event fresh r = detail_for g configured get_event fresh r r.session
