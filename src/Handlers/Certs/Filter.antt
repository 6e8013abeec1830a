-- ===== src/Handlers/Certs/Filter.antt =====
-- The filter of the certificate browser in apps/dashboard/internal/handlers/certs.go: parseCertFilter,
-- buildFilterQuery, appendPage and parsePageNum. time.Parse of a day and strconv.Atoi are parameters.
use lucairn_enterprise_deplo.Base.{
  ℕ, ◌+◌, String, Bool, false, not, ◌&&◌, ◌||◌, Option, none, some, List, [], ◌∷◌, leb, ltb, str_eq,
  if◌then◌else◌,
}
use mathlib.Core.List.{◌++◌ as append}
use lucairn_enterprise_deplo.Base.Int.{ℤ, pos, negsuc}
use lucairn_enterprise_deplo.Base.Text.{◌++◌, trim_space, byte_length, decimal, join}
use lucairn_enterprise_deplo.Web.{Request, query_value}
use lucairn_enterprise_deplo.Store.CertQuery.{CertFilter}

pub record CertFilterView : Type 0 where
  pub from : String
  pub to : String
  pub customer_id : String
  pub redaction_min : String
  pub verified : Bool
  pub partial : Bool
  pub failed : Bool

-- 24 * time.Hour
abbrev day : ℕ
day = 86400000000000

within : ℕ → Option ℤ → Option ℕ
within limit none = none
within limit (some (negsuc n)) = none
within limit (some (pos n)) = if ltb 0 n && ltb n limit then some n else none

next_day : Option ℕ → Option ℕ
next_day none = none
next_day (some t) = some (t + day)

minimum : Option ℕ → ℕ
minimum none = 0
minimum (some n) = n

kept_text : Option ℕ → String → String
kept_text none s = ""
kept_text (some n) s = s

-- VerdictAllowed
verdict_allowed : String → Bool
verdict_allowed v = str_eq v "verified" || str_eq v "partial" || str_eq v "failed"

verdict_step : String → CertFilter × CertFilterView → CertFilter × CertFilterView
unfolding verdict_allowed
verdict_step v (f, view) =
    if verdict_allowed v
    then (
      record f { verdicts = append f.verdicts (v ∷ []) },
      record view {
        verified = view.verified || str_eq v "verified";
        partial = view.partial || str_eq v "partial";
        failed = view.failed || str_eq v "failed";
      },
    )
    else (f, view)

verdict_steps : List String → CertFilter × CertFilterView → CertFilter × CertFilterView
unfolding verdict_step
verdict_steps [] p = p
verdict_steps (v ∷ vs) p = verdict_steps vs (verdict_step (trim_space v) p)

-- parseCertFilter; `verdicts` are the values of that parameter.
pub parse_cert_filter :
    (String → Option ℕ) → (String → Option ℤ) → Request → List String → CertFilter × CertFilterView
unfolding within next_day minimum kept_text verdict_steps
parse_cert_filter parse_day atoi r verdicts =
    let from = trim_space (query_value r "from") in
    let to = trim_space (query_value r "to") in
    let customer = trim_space (query_value r "customer_id") in
    let customer_id =
      if not (str_eq customer "") && leb (byte_length customer) 128 then customer else "" in
    let least = trim_space (query_value r "redaction_min") in
    let n = if str_eq least "" then none else within 100000 (atoi least) in
    verdict_steps verdicts (
      record {
        from = parse_day from;
        to = next_day (parse_day to);
        verdicts = [];
        customer_id = customer_id;
        redaction_min = minimum n;
      },
      record {
        from = from;
        to = to;
        customer_id = customer_id;
        redaction_min = kept_text n least;
        verified = false;
        partial = false;
        failed = false;
      },
    )

part : Bool → String → List String → List String
part shown s rest = if shown then s ∷ rest else rest

abbrev given : String → Bool
given s = not (str_eq s "")

-- buildFilterQuery
pub build_filter_query : CertFilterView → String
unfolding part join
build_filter_query v =
    join
      (part (given v.customer_id) ("customer_id=" ++ v.customer_id) (
        part (given v.from) ("from=" ++ v.from) (
          part (given v.redaction_min) ("redaction_min=" ++ v.redaction_min) (
            part (given v.to) ("to=" ++ v.to) (
              part v.failed "verdict=failed"
                (part v.partial "verdict=partial" (part v.verified "verdict=verified" [])))))))
      "&"

-- appendPage
pub append_page : String → ℕ → String
append_page q n =
    if str_eq q "" then "/certs?page=" ++ decimal n else "/certs?" ++ q ++ "&page=" ++ decimal n

first_page : Option ℕ → ℕ
first_page none = 1
first_page (some n) = n

-- parsePageNum
pub parse_page_num : (String → Option ℤ) → Request → ℕ
unfolding within first_page
parse_page_num atoi r =
    let v = query_value r "page" in if str_eq v "" then 1 else first_page (within 10000 (atoi v))
