-- ===== src/Handlers/Login/Safety.antt =====
-- Where a sign-in leads, and what ends a session.
use lucairn_enterprise_deplo.Base.{
  past, ℕ, String, ◌≡◌, ◌≢◌, refl, sym, ◌∙◌, Bool, true, false, not, ◌||◌, Option, none, some,
  arith, eq_iff, str_eq,
}
use lucairn_enterprise_deplo.Base.Dict
use lucairn_enterprise_deplo.Base.Text.{contains_code, has_prefix}
use lucairn_enterprise_deplo.Auth.Session
use lucairn_enterprise_deplo.Auth.Session.{Session, MemorySessionStore, get}
use lucairn_enterprise_deplo.Auth.Session.Lookup.{get-of_lookup-none, lookup-delete}
use lucairn_enterprise_deplo.Auth.Csrf.{verify_token}
use lucairn_enterprise_deplo.Web.{Request, cleared}
use lucairn_enterprise_deplo.Handlers.Login.{
  Reply, Url, same_origin, sanitize_next, ended, logout_post,
}

-- A place on the dashboard itself, as `url.Parse` reads the text.
pub record IsLocal (parse : String → Option Url) (s target : String) : Type 0 where
  pub url : Url
  pub parsed : parse s ≡ some url
  pub relative : url.is_abs ≡ false
  pub no_host : url.host ≡ ""
  pub rooted : has_prefix "/" url.path ≡ true
  pub one_slash : has_prefix "//" url.path ≡ false
  pub no_backslash : contains_code 92 s ≡ false
  pub one_line : (contains_code 13 s ≡ false) × (contains_code 10 s ≡ false)
  pub leads : target ≡ url.request_uri

same_origin-eq :
    (o : Option Url) (target : String)
    → target ≢ ""
    → same_origin o ≡ target
    → (u : Url) × (o ≡ some u)
      × (u.is_abs ≡ false)
      × (u.host ≡ "")
      × (has_prefix "/" u.path ≡ true)
      × (has_prefix "//" u.path ≡ false)
      × (target ≡ u.request_uri)
unfolding same_origin
same_origin-eq none target full e = absurd (full (sym e))
same_origin-eq (some u) target full e =
    let (own, e1) = past (u.is_abs || not (str_eq u.host "")) "" _ target e (λ h. full (sym h)) in
    let (slash, e2) = past (not (has_prefix "/" u.path)) "" _ target e1 (λ h. full (sym h)) in
    let (one, e3) = past (has_prefix "//" u.path) "" _ target e2 (λ h. full (sym h)) in
    let host = str_eq u.host "" in
    (u, refl, ground arith, ground (arith, eq_iff u.host ""), ground arith, one, sym e3)

all_false : (x y z : Bool) → (x || y || z) ≡ false → (x ≡ false) × (y ≡ false) × (z ≡ false)
all_false x y z h = (ground arith, ground arith, ground arith)

-- No open redirect: where a `next` parameter is followed at all, it parses as a reference without
-- scheme and host whose path starts with exactly one slash, and it holds no backslash and no line
-- break.
pub sanitize_next-IsLocal :
    (parse : String → Option Url) (s : String)
    → sanitize_next parse s ≢ ""
    → IsLocal parse s (sanitize_next parse s)
unfolding sanitize_next
sanitize_next-IsLocal parse s full =
    let target = sanitize_next parse s in
    let (_, e1) = past (str_eq s "") "" _ target refl (λ h. full (sym h)) in
    let (clean, e2) =
      past (contains_code 92 s || contains_code 13 s || contains_code 10 s) "" _ target e1
        (λ h. full (sym h)) in
    let (u, parsed, relative, no_host, rooted, one_slash, leads) =
      same_origin-eq (parse s) target full e2 in
    let (a, b, d) =
      all_false (contains_code 92 s) (contains_code 13 s) (contains_code 10 s) clean in
    record {
      url = u;
      parsed = parsed;
      relative = relative;
      no_host = no_host;
      rooted = rooted;
      one_slash = one_slash;
      no_backslash = a;
      one_line = (b, d);
      leads = leads;
    }

-- Signing out clears the cookie only for a request with a matching CSRF token, and then the session
-- that the request carries is gone at every later look, while no other session changed.
pub logout_post-ends :
    (r : Request) (s s' : MemorySessionStore) (reply : Reply) (sess : Session)
    → logout_post r s ≡ (reply, s')
    → reply.cookie ≡ cleared
    → r.session ≡ some sess
    → (verify_token r ≡ true)
      × ((t : ℕ) → get t sess.id s' ≡ none)
      × ((j : String) → j ≢ sess.id → Dict.lookup j s'.entries ≡ Dict.lookup j s.entries)
unfolding logout_post ended
logout_post-ends r s s' reply sess e c live =
    let token : verify_token r ≡ true = ground arith in
    let out : ended r.session s ≡ s' = ground arith in
    let gone : Session.delete sess.id s ≡ s' = rw live at out in
    (
      token,
      (λ t. get-of_lookup-none t sess.id s' (
          rw (← gone)
            (lookup-delete sess.id sess.id s ∙ rw ((eq_iff sess.id sess.id).1 refl) refl))),
      (λ j other. rw (← gone) (lookup-delete sess.id j s ∙ ground (arith, eq_iff sess.id j))),
    )
