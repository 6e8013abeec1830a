-- ===== src/Tests/Gate.antt =====
-- The gate at concrete requests.
use lucairn_enterprise_deplo.Base.{String, ◌≡◌, refl, true, false, Option, none, some, [], ◌∷◌}
use lucairn_enterprise_deplo.Auth.{role_viewer}
use lucairn_enterprise_deplo.Auth.Session.{Session, MemorySessionStore}
use lucairn_enterprise_deplo.Auth.Gate.{
  is_public_path, Handler, load_session, require_session, require_role,
}
use lucairn_enterprise_deplo.Auth.Gate.Denial.{require_session-denies, require_role-denies}
use lucairn_enterprise_deplo.Web.{Request, Response, page, error}

abbrev viewer : Session
viewer = record {
  id = "s-1";
  user = record { email = "a@b"; role = role_viewer };
  created_at = 0;
  last_seen = 50;
}

abbrev store : MemorySessionStore
store = record { entries = ("s-1", viewer) ∷ []; idle_timeout = 100 }

abbrev request : Request
request = record {
  method = "GET";
  path = "/keys";
  request_uri = "/keys";
  session_cookie = some "s-1";
  csrf_cookie = none;
  form_parses = true;
  post_form = [];
  query = [];
  session = none;
}

-- A page for everyone, which names the user.
abbrev greeting : Option Session → Response String
greeting none = page 200 "secret"
greeting (some sess) = page 200 sess.user.email

abbrev guarded : Option Session → Response String
guarded none = error 500 "no session"
guarded (some sess) = page 200 sess.user.email

abbrev open_handler : Handler String Unit
open_handler r s = (greeting r.session, s)

abbrev shut_handler : Handler String Unit
shut_handler r s = (guarded r.session, s)

private_path : is_public_path "/keys" ≡ false
unfolding is_public_path
private_path = refl

require_session-denies_example :
    load_session 60 61 (require_session (λ s. s) open_handler) request (store, tt)
    ≡ load_session 60 61 (require_session (λ s. s) shut_handler) request (store, tt)
require_session-denies_example =
    require_session-denies (λ s. s) 60 61 request store open_handler shut_handler tt private_path
      refl (λ sess st' live. refl)

require_role-denies_example :
    load_session 60 61 (require_role (λ s. s) role_viewer open_handler) request (store, tt)
    ≡ load_session 60 61 (require_role (λ s. s) role_viewer shut_handler) request (store, tt)
require_role-denies_example =
    require_role-denies (λ s. s) 60 61 role_viewer request store open_handler shut_handler tt refl
      (λ sess st' live same. refl)
