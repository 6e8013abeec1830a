-- ===== src/Auth/Csrf.antt =====
-- apps/dashboard/internal/auth/csrf.go: the double-submit token.
use lucairn_enterprise_deplo.Base.{
  String, Bool, false, Option, none, some, leb, str_eq, if◌then◌else◌,
}
use lucairn_enterprise_deplo.Base.Text.{byte_length}
use lucairn_enterprise_deplo.Web.{Request, form_value}

-- `fresh` is the token that the random source gives; `none` is its error.
unfoldable pub issue_token : Option String → Request → Option String
issue_token fresh r = elim r.csrf_cookie [
  | none ↦ fresh
  | some value ↦ if leb 24 (byte_length value) then some value else fresh
]

cookie_matches : Option String → String → Bool
cookie_matches none supplied = false
cookie_matches (some value) supplied =
    if str_eq value "" then false else if str_eq supplied "" then false else str_eq value supplied

-- VerifyToken(r) == nil
unfoldable pub verify_token : Request → Bool
unfolding cookie_matches
verify_token r = cookie_matches r.csrf_cookie (form_value r "csrf")
