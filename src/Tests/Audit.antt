-- ===== src/Tests/Audit.antt =====
-- The audit handlers at concrete requests.
use lucairn_enterprise_deplo.Base.{
  String, ◌≡◌, refl, Bool, true, Option, some, List, [], ◌∷◌, arith,
}
use lucairn_enterprise_deplo.Base.Text.{byte_length, contains_code}
use lucairn_enterprise_deplo.Base.Dict.{dict_runs}
use lucairn_enterprise_deplo.Auth.{role_admin}
use lucairn_enterprise_deplo.Auth.Session.{Session}
use lucairn_enterprise_deplo.Auth.Gate.{same_role}
use lucairn_enterprise_deplo.Auth.Csrf.{verify_token, issue_token}
use lucairn_enterprise_deplo.Web.{Request, or_empty, page}
use lucairn_enterprise_deplo.Handlers.Audit.{
  AuditEvent, Emitted, reveal_raw_event, csv_export_event, detail, Found, found,
  extract_event_id_from_path, reveal_raw, Redaction, populate_pagination,
}
use lucairn_enterprise_deplo.Handlers.Audit.Trail.{reveal_raw-recorded}
use lucairn_enterprise_deplo.Base.Int64.{less, minus, plus, times, quotient, wrap, is_negative}
use lucairn_enterprise_deplo.Handlers.Audit.Pages.{IsPaginated, populate_pagination-IsPaginated}

abbrev event : AuditEvent
event = record {
  event_id = "e-1";
  event_type = "chat";
  source_service = "gateway";
  actor = "a@b";
  timestamp = "2026-01-01T00:00:00Z";
  request_id = "r-1";
  previous_event_hash = "";
  event_hash = "h";
  payload = "secret";
  payload_type = "FLAT_JSON";
}

abbrev session : Session
session = record {
  id = "s-1";
  user = record { email = "a@b"; role = role_admin };
  created_at = 0;
  last_seen = 50;
}

abbrev request : Request
request = record {
  method = "POST";
  path = "/audit/e-1/reveal-raw";
  request_uri = "/audit/e-1/reveal-raw";
  session_cookie = some "s-1";
  csrf_cookie = some "t";
  form_parses = true;
  post_form = ("csrf", "t") ∷ [];
  query = ("reveal", "true") ∷ [];
  session = some session;
}

abbrev get_event : String → Found
get_event id = found event

abbrev takes : Emitted → Bool
takes e = true

abbrev recorded : List Emitted
recorded = reveal_raw_event "a@b" event ∷ []

reveals :
    reveal_raw true takes get_event (some "t2") request []
    ≡ (page 200 (detail "t2" event "secret"), recorded)
unfolding reveal_raw extract_event_id_from_path verify_token issue_token byte_length contains_code
    dict_runs
reveals = refl

reveal_raw-recorded_example :
    (sess : Session) × (ev : AuditEvent) × (request.session ≡ some sess)
    × (same_role sess.user.role role_admin ≡ true)
    × (verify_token request ≡ true)
    × (get_event (extract_event_id_from_path request.path) ≡ found ev)
    × (detail "t2" event "secret"
        ≡ detail (or_empty (issue_token (some "t2") request)) ev ev.payload)
    × (recorded ≡ reveal_raw_event sess.user.email ev ∷ [])
reveal_raw-recorded_example =
    reveal_raw-recorded true takes get_event (some "t2") request [] recorded 200
      (detail "t2" event "secret") reveals

abbrev redaction : Redaction
redaction = record { actor = λ s. "[actor]"; payload = λ s. "[payload]" }

abbrev listed : Option (List AuditEvent)
listed = some (event ∷ [])

abbrev exported : List Emitted
exported = csv_export_event "a@b" "1" "q" ∷ []

populate_pagination-IsPaginated_example : IsPaginated (populate_pagination 101 9 50)
populate_pagination-IsPaginated_example =
    populate_pagination-IsPaginated 101 9 50 (omega arith) (omega arith) (omega arith) (omega arith)

-- With the greatest page size the sum wraps: there are no pages, and page 0 is shown.
wraps :
    (populate_pagination 101 1 9223372036854775807).total_pages ≡ 0
    × (populate_pagination 101 1 9223372036854775807).page ≡ 0
unfolding populate_pagination less minus plus times quotient wrap is_negative
wraps = (refl, refl)
