-- ===== src/Tests/Login.antt =====
-- Signing in at concrete requests.
use lucairn_enterprise_deplo.Base.{
  String, ◌≡◌, refl, true, false, Option, none, some, [], ◌∷◌, str_eq, if◌then◌else◌,
}
use lucairn_enterprise_deplo.Base.Dict.{lookup, dict_runs}
use lucairn_enterprise_deplo.Base.Text.{trim_space, byte_length}
use lucairn_enterprise_deplo.Auth.{role_admin, User}
use lucairn_enterprise_deplo.Auth.Session.{Session, MemorySessionStore, create, delete}
use lucairn_enterprise_deplo.Auth.Csrf.{verify_token, issue_token}
use lucairn_enterprise_deplo.Auth.OidcState
use lucairn_enterprise_deplo.Auth.OidcState.{OidcFlowState, MemoryOidcStateStore, Tokens}
use lucairn_enterprise_deplo.Web.{
  Request, post_form_value, query_value, redirect, page, kept, set_to,
}
use lucairn_enterprise_deplo.Handlers.Login.{
  World, Reply, Url, rotate, sanitize_next, render_login_error, login_post, callback,
}
use lucairn_enterprise_deplo.Handlers.Login.Rotation.{
  IsSignedIn, login_post-IsSignedIn, callback-IsSignedIn,
}

abbrev world : World
world = record {
  now = 500;
  session_id = some "new";
  csrf_fresh = some "fresh";
  tokens = record { state = none; verifier = none; nonce = none };
}

abbrev user : User
user = record { email = "a@b"; role = role_admin }

abbrev parse : String → Option Url
parse s = none

abbrev authenticate : String → String → Option User
authenticate email password = if str_eq password "pw" then some user else none

abbrev form : String → Request
form password = record {
  method = "POST";
  path = "/login";
  request_uri = "/login";
  session_cookie = some "old";
  csrf_cookie = some "t";
  form_parses = true;
  post_form = ("csrf", "t") ∷ ("email", "a@b") ∷ ("password", password) ∷ [];
  query = [];
  session = none;
}

abbrev old : Session
old = record { id = "old"; user = user; created_at = 0; last_seen = 450 }

abbrev fresh : Session
fresh = record { id = "new"; user = user; created_at = 500; last_seen = 500 }

abbrev before : MemorySessionStore
before = record { entries = ("old", old) ∷ []; idle_timeout = 100 }

abbrev after : MemorySessionStore
after = record { entries = ("new", fresh) ∷ []; idle_timeout = 100 }

abbrev signed_in : Reply
signed_in = record { response = redirect 302 "/dashboard"; cookie = set_to "new" }

login_runs : login_post parse authenticate false world (form "pw") before ≡ (signed_in, after)
unfolding login_post render_login_error sanitize_next rotate verify_token issue_token create delete
    trim_space dict_runs
login_runs = refl

login_post-IsSignedIn_example :
    (u : User) × (authenticate
        (trim_space (post_form_value (form "pw") "email"))
        (post_form_value (form "pw") "password")
      ≡ some u)
    × (verify_token (form "pw") ≡ true)
    × IsSignedIn world (form "pw") before after "new" u
login_post-IsSignedIn_example =
    login_post-IsSignedIn parse authenticate false world (form "pw") before after signed_in "new"
      login_runs refl

abbrev refused : Reply
refused = record {
  response = page 401 (record {
    flash = "Invalid email or password.";
    csrf_token = "fresh";
    next_path = "";
    oidc_enabled = false;
  });
  cookie = kept;
}

refusal_runs : login_post parse authenticate false world (form "no") before ≡ (refused, before)
unfolding login_post render_login_error sanitize_next rotate verify_token issue_token create delete
    trim_space byte_length dict_runs
refusal_runs = refl

abbrev flow : OidcFlowState
flow = record {
  state = "st-1";
  nonce = "n-1";
  code_verifier = "v-1";
  next_path = "/keys";
  created_at = 400;
}

abbrev flows : MemoryOidcStateStore
flows = record { entries = ("st-1", flow) ∷ []; ttl = 600 }

abbrev no_flows : MemoryOidcStateStore
no_flows = record { entries = []; ttl = 600 }

abbrev exchange : String → String → String → Option User
exchange code verifier nonce = if str_eq nonce "n-1" then some user else none

abbrev return_trip : Request
return_trip = record {
  method = "GET";
  path = "/auth/oidc/callback";
  request_uri = "/auth/oidc/callback?state=st-1&code=c";
  session_cookie = some "old";
  csrf_cookie = none;
  form_parses = true;
  post_form = [];
  query = ("state", "st-1") ∷ ("code", "c") ∷ [];
  session = none;
}

abbrev sent_on : Reply
sent_on = record { response = redirect 302 "/keys"; cookie = set_to "new" }

callback_runs : callback exchange world return_trip (before, flows) ≡ (sent_on, (after, no_flows))
unfolding callback OidcState.consume rotate create delete dict_runs
callback_runs = refl

callback-IsSignedIn_example :
    (rec : OidcFlowState) × (u : User) × (OidcState.consume 500
        (query_value return_trip "state")
        flows
      ≡ (some rec, no_flows))
    × (lookup (query_value return_trip "state") no_flows.entries ≡ none)
    × (exchange (query_value return_trip "code") rec.code_verifier rec.nonce ≡ some u)
    × IsSignedIn world return_trip before after "new" u
callback-IsSignedIn_example =
    callback-IsSignedIn exchange world return_trip before after flows no_flows sent_on "new"
      callback_runs refl
