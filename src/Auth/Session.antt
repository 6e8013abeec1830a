-- ===== src/Auth/Session.antt =====
-- apps/dashboard/internal/auth/session.go: the in-memory session store. Every method holds the
-- store's one mutex, so a concurrent run is a sequence of calls. Instants are nanoseconds since
-- the start of the clock; their differences stay below 2^63 (292 years), where Go's
-- `Sub` does not saturate. A method takes the readings of `s.now()` that it makes.
pub mod Trace
pub mod Machine
pub mod Expiry
pub mod Lookup
use lucairn_enterprise_deplo.Base.{
  ℕ, ◌-◌, String, Bool, true, false, not, Option, none, some, ltb, if◌then◌else◌,
}
use lucairn_enterprise_deplo.Base.Dict
use lucairn_enterprise_deplo.Base.Dict.{Dict}
use lucairn_enterprise_deplo.Auth.{User}

pub record Session : Type 0 where
  pub id : String
  pub user : User
  pub created_at : ℕ
  pub last_seen : ℕ

pub record MemorySessionStore : Type 0 where
  pub entries : Dict Session
  pub idle_timeout : ℕ

pub new_memory_session_store : ℕ → MemorySessionStore
new_memory_session_store idle_timeout = record { entries = Dict.new; idle_timeout = idle_timeout }

-- now.Sub(sess.LastSeen) > idleTimeout
abbrev pub expired : ℕ → ℕ → Session → Bool
expired now idle sess = ltb idle (now - sess.last_seen)

-- `generated` is what the random source gives for the identifier; `none` is its error.
unfoldable pub create :
    Option String → ℕ → User → MemorySessionStore → Option Session × MemorySessionStore
create none now user s = (none, s)
create (some id) now user s =
    let sess : Session = record { id = id; user = user; created_at = now; last_seen = now } in
    (some sess, record s { entries = Dict.insert id sess s.entries })

live_at : ℕ → ℕ → Option Session → Option Session
live_at now idle none = none
live_at now idle (some sess) = if expired now idle sess then none else some sess

unfoldable pub get : ℕ → String → MemorySessionStore → Option Session
unfolding live_at
get now id s = live_at now s.idle_timeout (Dict.lookup id s.entries)

-- `now` is read for the test, `later` for the refresh.
refresh : ℕ → ℕ → String → Option Session → MemorySessionStore → Option Session × MemorySessionStore
refresh now later id none s = (none, s)
refresh now later id (some sess) s =
    if expired now s.idle_timeout sess
    then (none, record s { entries = Dict.erase id s.entries })
    else (let sess' : Session = record sess { last_seen = later } in
        (some sess', record s { entries = Dict.insert id sess' s.entries }))

unfoldable pub get_and_touch :
    ℕ → ℕ → String → MemorySessionStore → Option Session × MemorySessionStore
unfolding refresh
get_and_touch now later id s = refresh now later id (Dict.lookup id s.entries) s

refresh_only : ℕ → ℕ → String → Option Session → MemorySessionStore → Bool × MemorySessionStore
refresh_only now later id none s = (false, s)
refresh_only now later id (some sess) s =
    if expired now s.idle_timeout sess
    then (false, record s { entries = Dict.erase id s.entries })
    else (true, record s { entries = Dict.insert id (record sess { last_seen = later }) s.entries })

pub touch_locked : ℕ → ℕ → String → MemorySessionStore → Bool × MemorySessionStore
unfolding refresh_only
touch_locked now later id s = refresh_only now later id (Dict.lookup id s.entries) s

pub touch : ℕ → ℕ → String → MemorySessionStore → Bool × MemorySessionStore
unfolding touch_locked
touch now later id s = touch_locked now later id s

unfoldable pub delete : String → MemorySessionStore → MemorySessionStore
delete id s = record s { entries = Dict.erase id s.entries }

-- !sess.LastSeen.Before(now - idleTimeout)
abbrev pub outlasts : ℕ → ℕ → Session → Bool
outlasts now idle sess = not (ltb sess.last_seen (now - idle))

pub collect : ℕ → MemorySessionStore → MemorySessionStore
collect now s = record s { entries = Dict.retain (outlasts now s.idle_timeout) s.entries }
