-- ===== src/Store/AuditQuery.antt =====
-- apps/dashboard/internal/store/audit.go: the SQL of the audit browser and its positional
-- arguments.
pub mod Binding
pub mod Like
pub mod Window
use Prim.Native.Char.{code}
use Prim.Native.String.{[] as no_text, ◌∷◌ as then_char}
use mathlib.Core.List.{◌++◌ as append}
use lucairn_enterprise_deplo.Base.{
  ℕ, ◌+◌, ◌-◌, ◌*◌, String, Bool, true, false, not, ◌||◌, Option, none, some, List, [], ◌∷◌, length,
  ltb, ◌==◌, str_eq, if◌then◌else◌,
}
use lucairn_enterprise_deplo.Base.Text.{◌++◌, decimal, trim_space}
use lucairn_enterprise_deplo.Handlers.Audit.{AuditEvent}

-- Of an instant, `none` stands for a nil pointer or the zero time.
pub record AuditFilter : Type 0 where
  pub event_types : List String
  pub source_services : List String
  pub actors : List String
  pub request_id : String
  pub timestamp_from : Option ℕ
  pub timestamp_to : Option ℕ
  pub payload_contains : String
  pub page : ℕ
  pub page_size : ℕ

pub data Arg : Type 0 where
  instant : ℕ → Arg
  texts : List String → Arg
  text : String → Arg
  number : ℕ → Arg

-- strings.NewReplacer with three one-character patterns
pub special : ℕ → Bool
special c = c == 92 || c == 37 || c == 95

pub escape_like_pattern : String → String
unfolding special
escape_like_pattern no_text = ""
escape_like_pattern (then_char c s) =
    let rest = escape_like_pattern s in
    if special (code c) then "\\" ++ then_char c rest else then_char c rest

-- The builder, its arguments and the next index.
pub record Builder : Type 0 where
  pub sql : String
  pub args : List Arg
  pub idx : ℕ

-- One `if` of the function: the condition's clause goes in with its argument.
clause : String → String → Option Arg → Builder → Builder
clause before after none b = b
clause before after (some arg) b = record {
  sql = b.sql ++ before ++ decimal b.idx ++ after;
  args = append b.args (arg ∷ []);
  idx = b.idx + 1;
}

abbrev instant_arg : Option ℕ → Option Arg
instant_arg none = none
instant_arg (some t) = some (instant t)

abbrev texts_arg : List String → Option Arg
texts_arg [] = none
texts_arg (t ∷ ts) = some (texts (t ∷ ts))

abbrev request_arg : String → Option Arg
request_arg s = if str_eq (trim_space s) "" then none else some (text (trim_space s))

pub contains_arg : String → Option Arg
contains_arg s =
    if str_eq (trim_space s) "" then none else some (text ("%" ++ escape_like_pattern s ++ "%"))

build : AuditFilter → Builder → Builder
unfolding clause contains_arg
build f b = clause " AND payload::text LIKE $" " ESCAPE '\\'" (contains_arg f.payload_contains) (
    clause " AND request_id = $" "" (request_arg f.request_id) (
      clause " AND actor = ANY($" "::text[])" (texts_arg f.actors) (
        clause " AND source_service = ANY($" "::text[])" (texts_arg f.source_services) (
          clause " AND event_type = ANY($" "::text[])" (texts_arg f.event_types) (
            clause " AND timestamp < $" "" (instant_arg f.timestamp_to)
              (clause " AND timestamp >= $" "" (instant_arg f.timestamp_from) b))))))

-- buildAuditWhere
pub build_audit_where : AuditFilter → ℕ → String × List Arg
unfolding build
build_audit_where f start_idx =
    let b = build f (record { sql = ""; args = []; idx = start_idx }) in (b.sql, b.args)

abbrev positive_or : ℕ → ℕ → ℕ
positive_or fallback n = if n == 0 then fallback else n

-- The page size and the offset that ListEvents asks for, under the configured MaxPageSize.
pub page_request : ℕ → AuditFilter → ℕ × ℕ
page_request max_page_size f =
    let wanted = positive_or 50 f.page_size in
    let max_page = positive_or 200 max_page_size in
    let size = if ltb max_page wanted then max_page else wanted in
    let page = if ltb f.page 1 then 1 else f.page in (size, (page - 1) * size)

-- The columns, white space aside.
abbrev select_events : String
select_events =
    "SELECT id, event_id, event_type, source_service, actor, timestamp, COALESCE(previous_event_hash, ''), "
    ++ "COALESCE(event_hash, ''), COALESCE(payload, ''::bytea), COALESCE(request_id, ''), "
    ++ "COALESCE(payload_type, 'FLAT_JSON'), COALESCE(payload_bytes, ''::bytea) FROM audit_events WHERE 1=1"

pub list_query : ℕ → AuditFilter → String × List Arg
unfolding build_audit_where page_request
list_query max_page_size f =
    let (where_sql, args) = build_audit_where f 1 in
    let (size, offset) = page_request max_page_size f in
    (
      select_events
          ++ where_sql
          ++ " ORDER BY timestamp DESC, id DESC LIMIT $"
          ++ decimal (length args + 1)
          ++ " OFFSET $"
          ++ decimal (length args + 2),
      append args (number size ∷ number offset ∷ []),
    )

pub count_query : AuditFilter → String × List Arg
unfolding build_audit_where
count_query f =
    let (where_sql, args) = build_audit_where f 1 in
    ("SELECT COUNT(*) FROM audit_events WHERE 1=1" ++ where_sql, args)
