-- ===== src/Auth/Gate.antt =====
-- apps/dashboard/internal/auth/middleware.go: the request gate. A handler reads and writes the
-- session store, the only part of its state that the gate shares with it, and a state of its own.
pub mod Denial
use lucairn_enterprise_deplo.Base.{
  ℕ, String, Bool, true, false, not, ◌||◌, ◌&&◌, Option, none, some, List, [], ◌∷◌, any, str_eq,
  if◌then◌else◌,
}
use lucairn_enterprise_deplo.Base.Text.{◌++◌, has_prefix}
use lucairn_enterprise_deplo.Auth.{Role, role_admin, role_viewer}
use lucairn_enterprise_deplo.Auth.Session.{Session, MemorySessionStore, get_and_touch}
use lucairn_enterprise_deplo.Web.{Request, Response, redirect, not_found}

abbrev public_paths : List String
public_paths =
    "/login" ∷ "/login/" ∷ "/healthz" ∷ "/healthz/" ∷ "/auth/oidc/login" ∷ "/auth/oidc/login/"
    ∷ "/auth/oidc/callback" ∷ "/auth/oidc/callback/" ∷ []

abbrev public_prefixes : List String
public_prefixes = "/static/" ∷ []

unfoldable pub is_public_path : String → Bool
is_public_path path =
    if any (str_eq path) public_paths
    then true
    else any (λ prefix. has_prefix prefix path) public_prefixes

pub is_auth_route : String → Bool
is_auth_route path = any (str_eq path) (
    "/login" ∷ "/login/" ∷ "/auth/oidc/login" ∷ "/auth/oidc/login/" ∷ "/auth/oidc/callback"
    ∷ "/auth/oidc/callback/" ∷ [])

abbrev pub same_role : Role → Role → Bool
same_role role_admin role_admin = true
same_role role_viewer role_viewer = true
same_role _ _ = false

abbrev pub with_session : Request → Session → Request
with_session r sess = record r { session = some sess }

-- T is the rest of the handlers' state.
abbrev pub Handler : Type 0 → Type 0 → Type 0
Handler P T = Request → MemorySessionStore × T → Response P × (MemorySessionStore × T)

-- url.Values.Encode on the one pair: QueryEscape is `escape`.
pub redirect_to_login : (String → String) → {P T : Type 0} → Handler P T
redirect_to_login escape r s =
    let target =
      if not (str_eq r.path "") && not (is_auth_route r.path)
      then "/login" ++ "?" ++ "next=" ++ escape r.request_uri
      else "/login" in
    (redirect 302 target, s)

load :
    {P T : Type 0}
    → Handler P T
    → Request
    → Option Session × MemorySessionStore
    → T
    → Response P × (MemorySessionStore × T)
load next r (none, st) t = next r (st, t)
load next r (some sess, st) t = next (with_session r sess) (st, t)

load_cookie :
    ℕ
    → ℕ
    → {P T : Type 0} → Handler P T
    → Request
    → Option String
    → MemorySessionStore
    → T
    → Response P × (MemorySessionStore × T)
load_cookie now later next r none st t = next r (st, t)
load_cookie now later next r (some id) st t =
    if str_eq id "" then next r (st, t) else load next r (get_and_touch now later id st) t

-- `now` and `later` are the two readings of the clock of GetAndTouch.
pub load_session : ℕ → ℕ → {P T : Type 0} → Handler P T → Handler P T
unfolding load load_cookie
load_session now later next r (st, t) = load_cookie now later next r r.session_cookie st t

pub require_session : (String → String) → {P T : Type 0} → Handler P T → Handler P T
unfolding is_public_path redirect_to_login
require_session escape next r s =
    if is_public_path r.path
    then next r s
    else (elim r.session [ none ↦ redirect_to_login escape r s | some sess ↦ next r s ])

pub require_role : (String → String) → Role → {P T : Type 0} → Handler P T → Handler P T
unfolding redirect_to_login
require_role escape role next r s = elim r.session [
  | none ↦ redirect_to_login escape r s
  | some sess ↦ if same_role sess.user.role role then next r s else (not_found, s)
]
