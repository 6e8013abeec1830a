-- ===== src/Handlers/Login.antt =====
-- apps/dashboard/internal/handlers/handlers.go and handlers/oidc.go: signing in and out.
pub mod Rotation
pub mod Safety
use lucairn_enterprise_deplo.Base.{
  ℕ, String, Bool, true, false, not, ◌||◌, Option, none, some, str_eq, if◌then◌else◌,
}
use lucairn_enterprise_deplo.Base.Text.{contains_code, has_prefix, trim_space}
use lucairn_enterprise_deplo.Auth.{User}
use lucairn_enterprise_deplo.Auth.Session
use lucairn_enterprise_deplo.Auth.Session.{Session, MemorySessionStore}
use lucairn_enterprise_deplo.Auth.Csrf.{issue_token, verify_token}
use lucairn_enterprise_deplo.Auth.OidcState
use lucairn_enterprise_deplo.Auth.OidcState.{OidcFlowState, MemoryOidcStateStore, Tokens}
use lucairn_enterprise_deplo.Web.{
  Request, post_form_value, query_value, Response, redirect, error, page, Cookie, kept, cleared,
  set_to,
}

pub record LoginPage : Type 0 where
  pub flash : String
  pub csrf_token : String
  pub next_path : String
  pub oidc_enabled : Bool

-- What one request meets outside the program's own state: the clock and the random source (`none`
-- is its error).
pub record World : Type 0 where
  pub now : ℕ
  pub session_id : Option String
  pub csrf_fresh : Option String
  pub tokens : Tokens

pub record Reply : Type 0 where
  pub response : Response LoginPage
  pub cookie : Cookie

abbrev answer : Response LoginPage → Reply
answer response = record { response = response; cookie = kept }

login_page : Bool → ℕ → String → String → Option String → Response LoginPage
login_page oidc_enabled status flash next_path none = error 500 "internal error"
login_page oidc_enabled status flash next_path (some tok) =
    page status (record {
      flash = flash;
      csrf_token = tok;
      next_path = next_path;
      oidc_enabled = oidc_enabled;
    })

-- Invalidates any session that the request's cookie names.
unfoldable pub rotate : Option String → MemorySessionStore → MemorySessionStore
rotate none s = s
rotate (some id) s = if str_eq id "" then s else Session.delete id s

-- The tail of LoginPost and of Callback: a new session, its cookie, and the redirect.
started : String → Option Session × MemorySessionStore → Reply × MemorySessionStore
started next (none, s) = (answer (error 500 "internal error"), s)
started next (some sess, s) = (
  record {
    response = redirect 302 (if str_eq next "" then "/dashboard" else next);
    cookie = set_to sess.id;
  },
  s,
)

-- What `url.Parse` finds in a reference.
pub record Url : Type 0 where
  pub is_abs : Bool
  pub host : String
  pub path : String
  pub request_uri : String

same_origin : Option Url → String
same_origin none = ""
same_origin (some u) =
    if u.is_abs || not (str_eq u.host "")
    then ""
    else if not (has_prefix "/" u.path)
    then ""
    else if has_prefix "//" u.path
    then ""
    else u.request_uri

unfoldable pub sanitize_next : (String → Option Url) → String → String
unfolding same_origin
sanitize_next parse s =
    if str_eq s ""
    then ""
    else if contains_code b'\\' s || contains_code 13 s || contains_code 10 s
    then ""
    else same_origin (parse s)

-- `parse` is url.Parse; `authenticate` is the configured Authenticator, whose errors all give one
-- answer.
module _ (parse : String → Option Url) where
  abbrev sanitize : String → String
  sanitize = sanitize_next parse

  unfoldable pub render_login_error : Bool → World → Request → String → Response LoginPage
  unfolding login_page
  render_login_error oidc_enabled w r msg =
      login_page oidc_enabled 401 msg (sanitize (post_form_value r "next"))
        (issue_token w.csrf_fresh r)

  pub login_get : Bool → World → Request → Response LoginPage
  unfolding login_page
  login_get oidc_enabled w r = elim (issue_token w.csrf_fresh r) [
    | none ↦ error 500 "internal error"
    | some tok ↦ elim r.session [
      | some sess ↦ redirect 302 "/dashboard"
      | none ↦ login_page oidc_enabled 200 "" (sanitize (query_value r "next")) (some tok)
    ]
  ]

  admitted : Bool → World → Request → MemorySessionStore → Option User → Reply × MemorySessionStore
  unfolding started
  admitted oidc_enabled w r s none =
      (answer (render_login_error oidc_enabled w r "Invalid email or password."), s)
  admitted oidc_enabled w r s (some user) =
      started (sanitize (post_form_value r "next"))
        (Session.create w.session_id w.now user (rotate r.session_cookie s))

  unfoldable pub login_post :
      (String → String → Option User)
      → Bool
      → World
      → Request
      → MemorySessionStore
      → Reply × MemorySessionStore
  unfolding admitted
  login_post authenticate oidc_enabled w r s =
      if r.form_parses
      then (if verify_token r
          then admitted oidc_enabled w r s
              (authenticate (trim_space (post_form_value r "email")) (post_form_value r "password"))
          else (
            answer (render_login_error oidc_enabled w r "Session expired. Please try again."),
            s,
          ))
      else (answer (error 400 "bad form"), s)

  -- `login_url` is the identity provider's authorize URL for a state, a nonce and a verifier.
  kicked_off :
      (String → String → String → String)
      → Option OidcFlowState × MemoryOidcStateStore
      → Response LoginPage × MemoryOidcStateStore
  kicked_off login_url (none, s) = (error 500 "internal error", s)
  kicked_off login_url (some rec, s) =
      (redirect 302 (login_url rec.state rec.nonce rec.code_verifier), s)

  pub login_redirect :
      (String → String → String → String)
      → World
      → Request
      → MemoryOidcStateStore
      → Response LoginPage × MemoryOidcStateStore
  unfolding kicked_off
  login_redirect login_url w r s =
      if not (str_eq r.method "POST")
      then (error 405 "method not allowed", s)
      else if not r.form_parses
      then (error 400 "bad form", s)
      else if not (verify_token r)
      then (error 403 "csrf failure", s)
      else kicked_off login_url
          (OidcState.create w.tokens (sanitize (post_form_value r "next")) w.now s)

-- renderCallbackError
callback_error : World → Request → String → Reply
unfolding login_page
callback_error w r msg = answer (login_page true 401 msg "" (issue_token w.csrf_fresh r))

exchanged :
    World → Request → OidcFlowState → Option User → MemorySessionStore → Reply × MemorySessionStore
unfolding callback_error started
exchanged w r rec none s =
    (callback_error w r "Sign-in could not be completed. Please try again.", s)
exchanged w r rec (some user) s =
    started rec.next_path (Session.create w.session_id w.now user (rotate r.session_cookie s))

consumed :
    (String → String → String → Option User)
    → World
    → Request
    → Option OidcFlowState
    → MemorySessionStore
    → Reply × MemorySessionStore
unfolding exchanged
consumed exchange w r none s =
    (callback_error w r "Sign-in expired or was replayed. Please try again.", s)
consumed exchange w r (some rec) s =
    exchanged w r rec (exchange (query_value r "code") rec.code_verifier rec.nonce) s

-- `exchange` is the authenticator's Exchange: code, verifier, expected nonce. All its errors give
-- one answer.
unfoldable pub callback :
    (String → String → String → Option User)
    → World
    → Request
    → MemorySessionStore × MemoryOidcStateStore
    → Reply × (MemorySessionStore × MemoryOidcStateStore)
unfolding consumed
callback exchange w r (s, o) =
    if not (str_eq r.method "GET")
    then (answer (error 405 "method not allowed"), (s, o))
    else if not (str_eq (query_value r "error") "")
    then (callback_error w r "Sign-in could not be completed. Please try again.", (s, o))
    else if str_eq (query_value r "state") "" || str_eq (query_value r "code") ""
    then (callback_error w r "Sign-in could not be completed. Please try again.", (s, o))
    else (let (rec, o') = OidcState.consume w.now (query_value r "state") o in
        let (reply, s') = consumed exchange w r rec s in (reply, (s', o')))

-- The session that the request carries ends.
ended : Option Session → MemorySessionStore → MemorySessionStore
ended none s = s
ended (some sess) s = Session.delete sess.id s

unfoldable pub logout_post : Request → MemorySessionStore → Reply × MemorySessionStore
unfolding ended
logout_post r s =
    if r.form_parses
    then (if verify_token r
        then (record { response = redirect 302 "/login"; cookie = cleared }, ended r.session s)
        else (answer (error 403 "csrf failure"), s))
    else (answer (error 400 "bad form"), s)
