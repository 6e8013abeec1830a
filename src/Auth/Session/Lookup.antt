-- ===== src/Auth/Session/Lookup.antt =====
-- The operations of the session store (auth/session.go) on single entries.
use lucairn_enterprise_deplo.Base.{
  ℕ, String, ◌≡◌, refl, Option, none, some, arith, str_eq, if◌then◌else◌,
}
use lucairn_enterprise_deplo.Base.Dict
use lucairn_enterprise_deplo.Base.Dict.{lookup-erase, lookup-insert}
use lucairn_enterprise_deplo.Auth.{User}
use lucairn_enterprise_deplo.Auth.Session.{
  Session, MemorySessionStore, create, get, get_and_touch, delete, live_at, refresh,
}

abbrev pub seen_at : ℕ → Option Session → Option Session
seen_at later none = none
seen_at later (some sess) = some (record sess { last_seen = later })

refresh-eq-live_at :
    (now later : ℕ) (id : String) (o : Option Session) (s : MemorySessionStore)
    → (refresh now later id o s).0 ≡ seen_at later (live_at now s.idle_timeout o)
unfolding refresh live_at
refresh-eq-live_at now later id none s = refl
refresh-eq-live_at now later id (some sess) s = ground arith

pub get_and_touch-eq-get :
    (now later : ℕ) (id : String) (s : MemorySessionStore)
    → (get_and_touch now later id s).0 ≡ seen_at later (get now id s)
unfolding get_and_touch get
get_and_touch-eq-get now later id s = refresh-eq-live_at now later id (Dict.lookup id s.entries) s

pub get-of_lookup-none :
    (t : ℕ) (id : String) (s : MemorySessionStore)
    → Dict.lookup id s.entries ≡ none
    → get t id s ≡ none
unfolding get live_at
get-of_lookup-none t id s e = rw e

pub get-of_lookup_fresh :
    (t : ℕ) (id : String) (s : MemorySessionStore) (sess : Session)
    → Dict.lookup id s.entries ≡ some sess
    → sess.last_seen ≡ t
    → get t id s ≡ some sess
unfolding get live_at
get-of_lookup_fresh t id s sess e h = rw e (ground arith)

pub lookup-delete :
    (id j : String) (s : MemorySessionStore)
    → Dict.lookup j (delete id s).entries ≡ (if str_eq id j then none else Dict.lookup j s.entries)
unfolding delete
lookup-delete id j s = lookup-erase id j s.entries

pub lookup-create :
    (id j : String) (now : ℕ) (user : User) (s : MemorySessionStore)
    → Dict.lookup j (create (some id) now user s).1.entries ≡ (
        if str_eq id j
        then some (record { id = id; user = user; created_at = now; last_seen = now })
        else Dict.lookup j s.entries)
unfolding create
lookup-create id j now user s = lookup-insert id j _ s.entries
