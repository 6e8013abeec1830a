-- ===== src/Web.antt =====
-- What the dashboard's handlers read of an `*http.Request` and write to an `http.ResponseWriter`.
-- Header lines, log lines and rendered HTML are left out; a page is the data that its template
-- is given.
use lucairn_enterprise_deplo.Base.{ℕ, String, Bool, Option, none, some}
use lucairn_enterprise_deplo.Base.Dict
use lucairn_enterprise_deplo.Base.Dict.{Dict}
use lucairn_enterprise_deplo.Auth.Session.{Session}

pub record Request : Type 0 where
  pub method : String
  pub path : String
  -- r.URL.RequestURI()
  pub request_uri : String
  -- r.Cookie of the session's and of the CSRF token's name
  pub session_cookie : Option String
  pub csrf_cookie : Option String
  -- whether r.ParseForm() returns nil
  pub form_parses : Bool
  -- the first value of each field of the body, and of each parameter of the URL
  pub post_form : Dict String
  pub query : Dict String
  -- the session on the request's context
  pub session : Option Session

abbrev pub or_empty : Option String → String
or_empty none = ""
or_empty (some v) = v

-- r.PostFormValue and r.URL.Query().Get
abbrev pub post_form_value : Request → String → String
post_form_value r k = or_empty (Dict.lookup k r.post_form)

abbrev pub query_value : Request → String → String
query_value r k = or_empty (Dict.lookup k r.query)

abbrev or_else : Option String → Option String → Option String
or_else none o = o
or_else (some v) o = some v

-- r.FormValue: the body takes precedence.
abbrev pub form_value : Request → String → String
form_value r k = or_empty (or_else (Dict.lookup k r.post_form) (Dict.lookup k r.query))

-- http.Redirect, http.Error, http.NotFound, or a rendered page with its status
pub data Response (P : Type 0) : Type 0 where
  redirect : ℕ → String → Response P
  error : ℕ → String → Response P
  not_found : Response P
  page : ℕ → P → Response P

-- The session cookie that a response sets.
pub data Cookie : Type 0 where
  kept cleared : Cookie
  set_to : String → Cookie
