-- ===== src/Handlers/Keys/Admission.antt =====
-- Who gets past the checks that open the handlers of keys.go.
use lucairn_enterprise_deplo.Base.{
  past, ◌≡◌, refl, sym, Bool, true, false, not, Option, none, some, ◌==◌, ap,
}
use lucairn_enterprise_deplo.Auth.{User, role_admin}
use lucairn_enterprise_deplo.Auth.Session.{Session}
use lucairn_enterprise_deplo.Auth.Gate.{same_role}
use lucairn_enterprise_deplo.Auth.Csrf.{verify_token}
use lucairn_enterprise_deplo.Web.{Request, Response, redirect, error, not_found, page}
use lucairn_enterprise_deplo.Handlers.Keys.{KeysState, KeysPage, Handled, admitted}

-- A page, or the redirect after a change.
abbrev pub served : Response KeysPage → Bool
served (redirect status location) = status == 303
served (error status text) = false
served not_found = false
served (page status p) = true

holds : (b : Bool) → not b ≡ false → b ≡ true
holds true h = refl
holds false h = sym h

pub refused :
    {resp resp' : Response KeysPage} {s s' : KeysState}
    → served resp ≡ false
    → served resp' ≡ true
    → ¬ (◌≡◌ {A = Handled} (resp, s) (resp', s'))
refused f h e = cc (ap (λ (x : Handled). served x.0) e)

-- A session of an administrator and a matching CSRF token.
pub record IsAdmitted (r : Request) (o : Option Session) (sess : Session) : Type 0 where
  pub session : o ≡ some sess
  pub admin : same_role sess.user.role role_admin ≡ true
  pub token : verify_token r ≡ true

pub admitted-served :
    (configured : Bool) (next : User → KeysState → Handled) (r : Request) (o : Option Session)
    (s s' : KeysState) (resp : Response KeysPage)
    → served resp ≡ true
    → admitted configured next r o s ≡ (resp, s')
    → (sess : Session) × IsAdmitted r o sess × (next sess.user s ≡ (resp, s'))
unfolding admitted
admitted-served configured next r none s s' resp h e = absurd (refused refl h e)
admitted-served configured next r (some sess) s s' resp h e =
    let (a, e1) = past (not (same_role sess.user.role role_admin)) _ _ _ e (refused refl h) in
    let (b, e2) = past (not r.form_parses) _ _ _ e1 (refused refl h) in
    let (c, e3) = past (not (verify_token r)) _ _ _ e2 (refused refl h) in
    let (d, e4) = past (not configured) _ _ _ e3 (refused refl h) in
    (sess, record { session = refl; admin = holds _ a; token = holds _ c }, e4)
