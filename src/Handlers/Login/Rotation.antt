-- ===== src/Handlers/Login/Rotation.antt =====
-- What signing in does to the sessions, on the local path and over OIDC.
use mathlib.Core.Path.{ap₂}
use lucairn_enterprise_deplo.Base.{
  ℕ, String, ◌≡◌, ◌≢◌, refl, ◌∙◌, ap, Bool, true, Option, none, some, arith, eq_iff, str_eq,
  if◌then◌else◌,
}
use lucairn_enterprise_deplo.Base.Dict
use lucairn_enterprise_deplo.Base.Dict.{lookup-erase, lookup-insert}
use lucairn_enterprise_deplo.Base.Text.{trim_space}
use lucairn_enterprise_deplo.Auth.{User}
use lucairn_enterprise_deplo.Auth.Session
use lucairn_enterprise_deplo.Auth.Session.{Session, MemorySessionStore, get}
use lucairn_enterprise_deplo.Auth.Session.Lookup.{
  get-of_lookup-none, get-of_lookup_fresh, lookup-create, lookup-delete,
}
use lucairn_enterprise_deplo.Auth.Csrf.{verify_token}
use lucairn_enterprise_deplo.Auth.OidcState
use lucairn_enterprise_deplo.Auth.OidcState.{OidcFlowState, MemoryOidcStateStore}
use lucairn_enterprise_deplo.Handlers.Login.{
  World, Reply, Url, sanitize, rotate, started, admitted, login_post, consumed, exchanged, callback,
  callback_error,
}
use lucairn_enterprise_deplo.Web.{Request, post_form_value, query_value, kept, set_to}

-- The request signed `user` in, under the session identifier `id`.
pub record IsSignedIn (w : World) (r : Request) (s s' : MemorySessionStore) (id : String)
    (user : User) : Type 0 where
  -- The identifier is the one that the random source just gave,
  pub minted : w.session_id ≡ some id
  -- the store holds a live session of the user under it,
  pub live :
      get w.now id s'
      ≡ some (record { id = id; user = user; created_at = w.now; last_seen = w.now })
  -- whatever session the request's cookie named is gone,
  pub rotated :
      (old : String) (t : ℕ)
      → r.session_cookie ≡ some old
      → old ≢ ""
      → old ≢ id
      → get t old s' ≡ none
  -- and no other session changed.
  pub others :
      (j : String)
      → r.session_cookie ≢ some j
      → j ≢ id
      → Dict.lookup j s'.entries ≡ Dict.lookup j s.entries

abbrev unless_named : String → Option String → Option Session → Option Session
unless_named j none o = o
unless_named j (some id) o = if str_eq id "" then o else if str_eq id j then none else o

lookup-rotate :
    (j : String) (c : Option String) (s : MemorySessionStore)
    → Dict.lookup j (rotate c s).entries ≡ unless_named j c (Dict.lookup j s.entries)
unfolding rotate
lookup-rotate j none s = refl
lookup-rotate j (some id) s = ground (arith, lookup-delete id j s)

module _ (w : World) (r : Request) (user : User) (s : MemorySessionStore) where
  abbrev signed : String → MemorySessionStore
  signed id = (Session.create (some id) w.now user (rotate r.session_cookie s)).1

  lookup-signed :
      (id j : String)
      → Dict.lookup j (signed id).entries ≡ (
          if str_eq id j
          then some (record { id = id; user = user; created_at = w.now; last_seen = w.now })
          else unless_named j r.session_cookie (Dict.lookup j s.entries))
  lookup-signed id j =
      lookup-create id j w.now user (rotate r.session_cookie s)
      ∙ ap
          (λ o.
            if str_eq id j
            then some (record { id = id; user = user; created_at = w.now; last_seen = w.now })
            else o)
          (lookup-rotate j r.session_cookie s)

  unnamed :
      (j : String) (c : Option String) (o : Option Session) → c ≢ some j → unless_named j c o ≡ o
  unnamed j none o h = refl
  unnamed j (some id) o h = ground (arith, eq_iff id j)

  signed-IsSignedIn : (id : String) → w.session_id ≡ some id → IsSignedIn w r s (signed id) id user
  signed-IsSignedIn id e = record {
    minted = e;
    live =
        get-of_lookup_fresh w.now id (signed id) _
          (lookup-signed id id ∙ ground (arith, eq_iff id id)) refl;
    rotated = λ old t c full other. get-of_lookup-none t old (signed id) (
        lookup-signed id old ∙ rw c (ground (arith, eq_iff id old, eq_iff old old, eq_iff old "")));
    others = λ j c other.
        lookup-signed id j
        ∙ rw (unnamed j r.session_cookie (Dict.lookup j s.entries) c) (ground (arith, eq_iff id j));
  }

  started-IsSignedIn :
      (next : String) (g : Option String) (id : String) (reply : Reply) (s' : MemorySessionStore)
      → w.session_id ≡ g
      → started next (Session.create g w.now user (rotate r.session_cookie s)) ≡ (reply, s')
      → reply.cookie ≡ set_to id
      → IsSignedIn w r s s' id user
  unfolding started Session.create
  started-IsSignedIn next none id reply s' e h c = absurd (ground arith)
  started-IsSignedIn next (some x) id reply s' e h c =
      let same : x ≡ id = ground arith in
      let out : signed x ≡ s' = ground arith in rw (← same, ← out) (signed-IsSignedIn x e)

admitted-IsSignedIn :
    (parse : String → Option Url) (oidc_enabled : Bool) (w : World) (r : Request)
    (s s' : MemorySessionStore) (o : Option User) (reply : Reply) (id : String)
    → admitted parse oidc_enabled w r s o ≡ (reply, s')
    → reply.cookie ≡ set_to id
    → (user : User) × (o ≡ some user) × IsSignedIn w r s s' id user
unfolding admitted
admitted-IsSignedIn parse oidc_enabled w r s s' none reply id h c = absurd (ground arith)
admitted-IsSignedIn parse oidc_enabled w r s s' (some user) reply id h c = (
  user,
  refl,
  started-IsSignedIn w r user s (sanitize parse (post_form_value r "next")) w.session_id id reply s'
      refl h c,
)

-- A local sign-in that sets a session cookie: the CSRF token matched, the authenticator accepted
-- the credentials of the form, and the user is signed in under the new identifier, any session
-- that the request's cookie named being gone.
pub login_post-IsSignedIn :
    (parse : String → Option Url) (authenticate : String → String → Option User)
    (oidc_enabled : Bool) (w : World) (r : Request) (s s' : MemorySessionStore) (reply : Reply)
    (id : String)
    → login_post parse authenticate oidc_enabled w r s ≡ (reply, s')
    → reply.cookie ≡ set_to id
    → (user : User) × (authenticate
          (trim_space (post_form_value r "email"))
          (post_form_value r "password")
        ≡ some user)
      × (verify_token r ≡ true)
      × IsSignedIn w r s s' id user
unfolding login_post
login_post-IsSignedIn parse authenticate oidc_enabled w r s s' reply id h c =
    let passed : verify_token r ≡ true = ground arith in
    let (user, known, signed_in) =
      admitted-IsSignedIn parse oidc_enabled w r s s'
        (authenticate (trim_space (post_form_value r "email")) (post_form_value r "password")) reply
        id (ground arith) c in
    (user, known, passed, signed_in)

-- A local sign-in that sets no cookie has changed no session, unless the random source failed.
pub login_post_refused :
    (parse : String → Option Url) (authenticate : String → String → Option User)
    (oidc_enabled : Bool) (w : World) (r : Request) (s s' : MemorySessionStore) (reply : Reply)
    (fresh : String)
    → login_post parse authenticate oidc_enabled w r s ≡ (reply, s')
    → reply.cookie ≡ kept
    → w.session_id ≡ some fresh
    → s' ≡ s
unfolding login_post admitted started Session.create
login_post_refused parse authenticate oidc_enabled w r s s' reply fresh h c e = ground arith

exchanged-IsSignedIn :
    (w : World) (r : Request) (rec : OidcFlowState) (s s' : MemorySessionStore) (o : Option User)
    (reply : Reply) (id : String)
    → exchanged w r rec o s ≡ (reply, s')
    → reply.cookie ≡ set_to id
    → (user : User) × (o ≡ some user) × IsSignedIn w r s s' id user
unfolding exchanged callback_error
exchanged-IsSignedIn w r rec s s' none reply id h c = absurd (ground arith)
exchanged-IsSignedIn w r rec s s' (some user) reply id h c =
    (user, refl, started-IsSignedIn w r user s rec.next_path w.session_id id reply s' refl h c)

consumed-IsSignedIn :
    (exchange : String → String → String → Option User) (w : World) (r : Request)
    (s s' : MemorySessionStore) (o : Option OidcFlowState) (reply : Reply) (id : String)
    → consumed exchange w r o s ≡ (reply, s')
    → reply.cookie ≡ set_to id
    → (rec : OidcFlowState) × (user : User) × (o ≡ some rec)
      × (exchange (query_value r "code") rec.code_verifier rec.nonce ≡ some user)
      × IsSignedIn w r s s' id user
unfolding consumed callback_error
consumed-IsSignedIn exchange w r s s' none reply id h c = absurd (ground arith)
consumed-IsSignedIn exchange w r s s' (some rec) reply id h c =
    let (user, known, signed_in) =
      exchanged-IsSignedIn w r rec s s'
        (exchange (query_value r "code") rec.code_verifier rec.nonce) reply id h c in
    (rec, user, refl, known, signed_in)

consumed-lookup :
    (now : ℕ) (state : String) (o : MemoryOidcStateStore)
    → Dict.lookup state (OidcState.consume now state o).1.entries ≡ none
unfolding OidcState.consume
consumed-lookup now state o =
    lookup-erase state state o.entries ∙ ground (arith, eq_iff state state)

-- A callback that sets a session cookie: the state token of the request named a flow that was
-- still open, the flow is consumed, so that the store afterwards has no flow for the token, the
-- exchange of the code with that flow's verifier and nonce yielded the user, and the user is signed
-- in under the new identifier, any session that the cookie named being gone and no other changed.
pub callback-IsSignedIn :
    (exchange : String → String → String → Option User) (w : World) (r : Request)
    (s s' : MemorySessionStore) (o o' : MemoryOidcStateStore) (reply : Reply) (id : String)
    → callback exchange w r (s, o) ≡ (reply, (s', o'))
    → reply.cookie ≡ set_to id
    → (rec : OidcFlowState) × (user : User) × (OidcState.consume w.now (query_value r "state") o
        ≡ (some rec, o'))
      × (Dict.lookup (query_value r "state") o'.entries ≡ none)
      × (exchange (query_value r "code") rec.code_verifier rec.nonce ≡ some user)
      × IsSignedIn w r s s' id user
unfolding callback callback_error
callback-IsSignedIn exchange w r s s' o o' reply id h c =
    let state = query_value r "state" in
    let (rec, user, open_flow, known, signed_in) =
      consumed-IsSignedIn exchange w r s s' (OidcState.consume w.now state o).0 reply id
        (ground arith) c in
    let kept_store : (OidcState.consume w.now state o).1 ≡ o' = ground arith in
    (
      rec,
      user,
      ap₂ (λ (x : Option OidcFlowState) (y : MemoryOidcStateStore). (x, y)) open_flow kept_store,
      rw (← kept_store) (consumed-lookup w.now state o),
      known,
      signed_in,
    )
