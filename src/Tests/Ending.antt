-- ===== src/Tests/Ending.antt =====
-- Signing out, redirects and the bootstrap administrator at concrete inputs.
use lucairn_enterprise_deplo.Base.{
  ℕ, String, ◌≡◌, ◌≢◌, refl, true, false, Option, none, some, [], ◌∷◌, arith, str_eq, eq_iff,
}
use lucairn_enterprise_deplo.Base.Text.{apart, trim_space, byte_length, contains_code}
use lucairn_enterprise_deplo.Base.Dict
use lucairn_enterprise_deplo.Base.Dict.{dict_runs}
use lucairn_enterprise_deplo.Auth.{role_admin}
use lucairn_enterprise_deplo.Auth.Session.{Session, MemorySessionStore, get, delete}
use lucairn_enterprise_deplo.Auth.Csrf.{verify_token}
use lucairn_enterprise_deplo.Auth.Local.{LocalAuthenticator, Hashing, new_local_authenticator}
use lucairn_enterprise_deplo.Web.{Request, redirect, cleared}
use lucairn_enterprise_deplo.Handlers.Login.{Reply, Url, sanitize_next, logout_post}
use lucairn_enterprise_deplo.Handlers.Login.Safety.{
  IsLocal, sanitize_next-IsLocal, logout_post-ends,
}

abbrev keys : Url
keys = record { is_abs = false; host = ""; path = "/keys"; request_uri = "/keys" }

abbrev parse : String → Option Url
parse s = some keys

followed : sanitize_next parse "/keys" ≢ ""
unfolding sanitize_next contains_code
followed = apart "/keys" "" refl

sanitize_next-IsLocal_example : IsLocal parse "/keys" (sanitize_next parse "/keys")
sanitize_next-IsLocal_example = sanitize_next-IsLocal parse "/keys" followed

abbrev session : Session
session = record {
  id = "s-1";
  user = record { email = "a@b"; role = role_admin };
  created_at = 0;
  last_seen = 50;
}

abbrev before : MemorySessionStore
before = record { entries = ("s-1", session) ∷ []; idle_timeout = 100 }

abbrev after : MemorySessionStore
after = record { entries = []; idle_timeout = 100 }

abbrev request : Request
request = record {
  method = "POST";
  path = "/logout";
  request_uri = "/logout";
  session_cookie = some "s-1";
  csrf_cookie = some "t";
  form_parses = true;
  post_form = ("csrf", "t") ∷ [];
  query = [];
  session = some session;
}

abbrev signed_out : Reply
signed_out = record { response = redirect 302 "/login"; cookie = cleared }

ends : logout_post request before ≡ (signed_out, after)
unfolding logout_post verify_token delete dict_runs
ends = refl

logout_post-ends_example :
    (verify_token request ≡ true)
    × ((t : ℕ) → get t "s-1" after ≡ none)
    × ((j : String) → j ≢ "s-1" → Dict.lookup j after.entries ≡ Dict.lookup j before.entries)
logout_post-ends_example = logout_post-ends request before after signed_out session ends refl refl

abbrev hashing : Hashing
hashing = record {
  to_lower = λ s. s;
  sha256 = λ s. s;
  bcrypt = λ p. some p;
  bcrypt_matches = str_eq;
}

abbrev admin : LocalAuthenticator
admin = record { email = "a@b"; hashed_pass = "correct horse" }

made : new_local_authenticator hashing " a@b" "correct horse" ≡ some admin
unfolding new_local_authenticator trim_space byte_length
made = refl

sound : (p hash : String) → some p ≡ some hash → str_eq hash p ≡ true
sound p hash h = ground (arith, eq_iff hash p)
