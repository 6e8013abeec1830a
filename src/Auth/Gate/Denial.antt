-- ===== src/Auth/Gate/Denial.antt =====
-- What the gate keeps from a handler.
use lucairn_enterprise_deplo.Base.{
  ℕ, String, ◌≡◌, refl, sym, ◌∙◌, true, false, Option, none, some, arith, str_eq, Bool-cases,
  Option-cases, inl, inr,
}
use lucairn_enterprise_deplo.Auth.{Role, role_admin, role_viewer}
use lucairn_enterprise_deplo.Auth.Session.{Session, MemorySessionStore, get, get_and_touch}
use lucairn_enterprise_deplo.Auth.Session.Lookup.{seen_at, get_and_touch-eq-get}
use lucairn_enterprise_deplo.Auth.Gate.{
  Handler, is_public_path, load, load_cookie, load_session, require_session, require_role,
  with_session, same_role,
}
use lucairn_enterprise_deplo.Web.{Request}

same_role-eq : (a b : Role) → same_role a b ≡ true → a ≡ b
same_role-eq role_admin role_admin h = refl
same_role-eq role_viewer role_viewer h = refl
same_role-eq role_admin role_viewer h = cc
same_role-eq role_viewer role_admin h = cc

-- The session on the context is the one that the store held live under the request's cookie,
-- refreshed.
pub record IsLive (now later : ℕ) (r : Request) (st : MemorySessionStore) (sess : Session)
    : Type 0 where
  pub id : String
  pub found : Session
  pub cookie : r.session_cookie ≡ some id
  pub live : get now id st ≡ some found
  pub refreshed : sess ≡ record found { last_seen = later }

IsLive-of-seen :
    (now later : ℕ) (id : String) (r : Request) (st : MemorySessionStore) (sess : Session)
    → r.session_cookie ≡ some id
    → seen_at later (get now id st) ≡ some sess
    → IsLive now later r st sess
IsLive-of-seen now later id r st sess c e = elim (Option-cases (get now id st)) [
  | inl missing ↦ cc
  | inr (found, live) ↦ record {
    id = id;
    found = found;
    cookie = c;
    live = live;
    refreshed = ground arith;
  }
]

module _ (now later : ℕ) (r : Request) (st : MemorySessionStore) {P T : Type 0} (f g : Handler P T)
    (t : T) where
  load-agrees :
      (x : Option Session × MemorySessionStore)
      → f r (x.1, t) ≡ g r (x.1, t)
      → ((sess : Session)
          → x.0 ≡ some sess
          → f (with_session r sess) (x.1, t) ≡ g (with_session r sess) (x.1, t))
      → load f r x t ≡ load g r x t
  unfolding load
  load-agrees (none, st') h k = h
  load-agrees (some sess, st') h k = k sess refl

  load_cookie-agrees :
      (c : Option String)
      → r.session_cookie ≡ c
      → ((st' : MemorySessionStore) → f r (st', t) ≡ g r (st', t))
      → ((sess : Session) (st' : MemorySessionStore)
          → IsLive now later r st sess
          → f (with_session r sess) (st', t) ≡ g (with_session r sess) (st', t))
      → load_cookie now later f r c st t ≡ load_cookie now later g r c st t
  unfolding load_cookie
  load_cookie-agrees none e h k = h st
  load_cookie-agrees (some id) e h k = elim (Bool-cases (str_eq id "")) [
    | inl empty ↦ rw empty (h st)
    | inr full ↦ rw full (
        load-agrees (get_and_touch now later id st) (h _) λ sess found. k sess _ (
          IsLive-of-seen now later id r st sess e
            (sym (get_and_touch-eq-get now later id st) ∙ found)))
  ]

  -- Two handlers that agree without a session and with each session that the cookie can yield are
  -- the same behind `load_session`.
  load_session-agrees :
      ((st' : MemorySessionStore) → f r (st', t) ≡ g r (st', t))
      → ((sess : Session) (st' : MemorySessionStore)
          → IsLive now later r st sess
          → f (with_session r sess) (st', t) ≡ g (with_session r sess) (st', t))
      → load_session now later f r (st, t) ≡ load_session now later g r (st, t)
  unfolding load_session
  load_session-agrees h k = load_cookie-agrees r.session_cookie refl h k

-- Default deny: on a path that is not public, what a handler would do with a request that carries
-- no session, or one that the store does not hold live under the request's cookie, has no effect
-- on the response or the state.
pub require_session-denies :
    (escape : String → String) (now later : ℕ) (r : Request) (st : MemorySessionStore)
    {P T : Type 0} (f g : Handler P T) (t : T)
    → is_public_path r.path ≡ false
    → r.session ≡ none
    → ((sess : Session) (st' : MemorySessionStore)
        → IsLive now later r st sess
        → f (with_session r sess) (st', t) ≡ g (with_session r sess) (st', t))
    → load_session now later (require_session escape f) r (st, t)
      ≡ load_session now later (require_session escape g) r (st, t)
unfolding require_session
require_session-denies escape now later r st f g t private fresh agree =
    load_session-agrees now later r st (require_session escape f) (require_session escape g) t
      (λ st'. rw (private, fresh) refl) (λ sess st' live. rw private (agree sess st' live))

-- The role gate: the same, and a live session of another role counts for nothing either.
pub require_role-denies :
    (escape : String → String) (now later : ℕ) (role : Role) (r : Request) (st : MemorySessionStore)
    {P T : Type 0} (f g : Handler P T) (t : T)
    → r.session ≡ none
    → ((sess : Session) (st' : MemorySessionStore)
        → IsLive now later r st sess
        → sess.user.role ≡ role
        → f (with_session r sess) (st', t) ≡ g (with_session r sess) (st', t))
    → load_session now later (require_role escape role f) r (st, t)
      ≡ load_session now later (require_role escape role g) r (st, t)
unfolding require_role
require_role-denies escape now later role r st f g t fresh agree =
    load_session-agrees now later r st (require_role escape role f) (require_role escape role g) t
      (λ st'. rw fresh refl)
      (λ sess st' live. elim (Bool-cases (same_role sess.user.role role)) [
        | inl same ↦ rw same (agree sess st' live (same_role-eq _ _ same))
        | inr other ↦ rw other
      ])
