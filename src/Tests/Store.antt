-- ===== src/Tests/Store.antt =====
-- The audit query at concrete filters.
use lucairn_enterprise_deplo.Base.{String, ◌≡◌, ◌≢◌, ◌⊎◌, none, some, [], ◌∷◌}
use lucairn_enterprise_deplo.Base.Text.{trim_space}
use lucairn_enterprise_deplo.Store.AuditQuery.{AuditFilter, text, contains_arg, build_audit_where}
use lucairn_enterprise_deplo.Store.AuditQuery.Like.{like, contains, like-contains_arg}
use lucairn_enterprise_deplo.Store.AuditQuery.Binding.{
  conditions, numbered, arguments, build_audit_where-numbered,
}

abbrev filter : AuditFilter
filter = record {
  event_types = "chat" ∷ [];
  source_services = [];
  actors = [];
  request_id = "";
  timestamp_from = some 10;
  timestamp_to = none;
  payload_contains = "100%";
  page = 2;
  page_size = 50;
}

like-contains_arg_example :
    ((trim_space "100%" ≡ "") × (contains_arg "100%" ≡ none))
    ⊎ ((trim_space "100%" ≢ "")
        × ((pattern : String) × (contains_arg "100%" ≡ some (text pattern))
            × ((s : String) → like pattern s ≡ contains "100%" s)))
like-contains_arg_example = like-contains_arg "100%"

build_audit_where-numbered_example :
    build_audit_where filter 1 ≡ (numbered 1 (conditions filter), arguments (conditions filter))
build_audit_where-numbered_example = build_audit_where-numbered filter 1
