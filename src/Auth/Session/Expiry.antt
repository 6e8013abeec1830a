-- ===== src/Auth/Session/Expiry.antt =====
-- What expiry and collection do, as a client sees it.
use lucairn_enterprise_deplo.Base.{
  ℕ, ◌≤◌, ◌<◌, ◌+◌, ◌-◌, String, ◌≡◌, ◌∙◌, refl, Option, none, some, List, [], ◌∷◌, arith, eq_iff,
  All,
}
use lucairn_enterprise_deplo.Base.Dict
use lucairn_enterprise_deplo.Base.Dict.{kept, lookup-retain, lookup-erase, lookup-insert}
use lucairn_enterprise_deplo.Auth.{User}
use lucairn_enterprise_deplo.Auth.Session.{
  Session, MemorySessionStore, get, get_and_touch, collect, live_at, refresh, outlasts,
}
use lucairn_enterprise_deplo.Auth.Session.Machine.{
  entry_step, lookup-step_call, idle_timeout-step_call,
}
use lucairn_enterprise_deplo.Auth.Session.Trace.{
  Call, creates, gets, touches, gets_and_touches, deletes, collects, Event, step, run,
}

live_at-kept :
    (now later idle : ℕ) (o : Option Session)
    → now ≤ later
    → live_at later idle (kept (outlasts now idle) o) ≡ live_at later idle o
unfolding live_at
live_at-kept now later idle none h = refl
live_at-kept now later idle (some sess) h = ground arith

-- The garbage collector is invisible to readers: collecting at `now` changes no answer of `get`
-- at that instant or later.
pub get-collect :
    (now later : ℕ) (id : String) (s : MemorySessionStore)
    → now ≤ later
    → get later id (collect now s) ≡ get later id s
unfolding get collect
get-collect now later id s h = rw lookup-retain (live_at-kept now later s.idle_timeout _ h)

-- A call that could give the identifier to a session.
abbrev pub Mints : String → Call → Type 0
Mints id (creates (some fresh) user) = fresh ≡ id
Mints id _ = ⊥

-- The entry is not live at `t`, and so at no later instant.
abbrev Dead : ℕ → ℕ → Option Session → Type 0
Dead t idle none = Unit
Dead t idle (some sess) = idle < t - sess.last_seen

-- The entry is a session of `user` that was seen at `t` or later.
abbrev Seen : ℕ → User → Option Session → Type 0
Seen t user none = ⊥
Seen t user (some sess) = (sess.user ≡ user) × (t ≤ sess.last_seen)

-- A call that may end a session under `id` other than by expiry.
abbrev pub Ends : String → Call → Type 0
Ends id (creates (some fresh) user) = fresh ≡ id
Ends id (deletes x) = x ≡ id
Ends id _ = ⊥

entry_step-Dead :
    (t idle now later : ℕ) (id : String) (call : Call) (o : Option Session)
    → t ≤ now
    → now ≤ later
    → ¬ Mints id call
    → Dead t idle o
    → Dead t idle (entry_step idle now later call id o)
entry_step-Dead t idle now later id (creates none user) o h k m d = d
entry_step-Dead t idle now later id (creates (some fresh) user) o h k m d =
    ground (arith, eq_iff fresh id)
entry_step-Dead t idle now later id (gets x) o h k m d = d
entry_step-Dead t idle now later id (touches x) o h k m d = ground arith
entry_step-Dead t idle now later id (gets_and_touches x) o h k m d = ground arith
entry_step-Dead t idle now later id (deletes x) o h k m d = ground arith
entry_step-Dead t idle now later id collects o h k m d = ground arith

entry_step-Seen :
    (t idle now later : ℕ) (user : User) (id : String) (call : Call) (o : Option Session)
    → t ≤ now
    → now ≤ later
    → now ≤ t + idle
    → ¬ Ends id call
    → Seen t user o
    → Seen t user (entry_step idle now later call id o)
entry_step-Seen t idle now later user id (creates none u) o h k w m d = d
entry_step-Seen t idle now later user id (creates (some fresh) u) o h k w m d =
    ground (arith, eq_iff fresh id)
entry_step-Seen t idle now later user id (gets x) o h k w m d = d
entry_step-Seen t idle now later user id (touches x) o h k w m d = ground arith
entry_step-Seen t idle now later user id (gets_and_touches x) o h k w m d = ground arith
entry_step-Seen t idle now later user id (deletes x) o h k w m d = ground (arith, eq_iff x id)
entry_step-Seen t idle now later user id collects o h k w m d = ground arith

Dead-of-live_at : (t idle : ℕ) (o : Option Session) → live_at t idle o ≡ none → Dead t idle o
unfolding live_at
Dead-of-live_at t idle none e = tt
Dead-of-live_at t idle (some sess) e = ground arith

refresh-Dead :
    (t now later : ℕ) (id : String) (o : Option Session) (s : MemorySessionStore)
    → Dead t s.idle_timeout o
    → t ≤ now
    → (refresh now later id o s).0 ≡ none
unfolding refresh
refresh-Dead t now later id none s d h = refl
refresh-Dead t now later id (some sess) s d h = ground arith

refresh-some :
    (t now later : ℕ) (id : String) (user : User) (o : Option Session) (s : MemorySessionStore)
    → Seen t user o
    → now ≤ t + s.idle_timeout
    → (sess : Session) × ((refresh now later id o s).0 ≡ some sess) × (sess.user ≡ user)
unfolding refresh
refresh-some t now later id user none s d h = absurd d
refresh-some t now later id user (some sess) s d h =
    (record sess { last_seen = later }, ground arith, d.0)

refresh-Seen :
    (before t : ℕ) (id : String) (o : Option Session) (s : MemorySessionStore) (sess : Session)
    → (refresh before t id o s).0 ≡ some sess
    → Seen t sess.user (Dict.lookup id (refresh before t id o s).1.entries)
      × ((refresh before t id o s).1.idle_timeout ≡ s.idle_timeout)
unfolding refresh
refresh-Seen before t id none s sess e = cc
refresh-Seen before t id (some x) s sess e =
    ground (arith, lookup-insert id id (record x { last_seen = t }) s.entries, eq_iff id id)

-- The events happen from `t` on, and each reads its clock in order.
abbrev pub From : ℕ → List Event → Type 0
From t = All (λ e. (t ≤ e.now) × (e.now ≤ e.later))

run-Dead :
    (t : ℕ) (id : String) (es : List Event) (s : MemorySessionStore)
    → From t es
    → All (λ e. ¬ Mints id e.call) es
    → Dead t s.idle_timeout (Dict.lookup id s.entries)
    → Dead t (run es s).idle_timeout (Dict.lookup id (run es s).entries)
run-Dead t id [] s f m d = d
run-Dead t id (e ∷ es) s ((from, order), fs) (m, ms) d = run-Dead t id es (step e s) fs ms (
    rw
      (idle_timeout-step_call e.now e.later id s e.call, lookup-step_call e.now e.later id s e.call)
      (entry_step-Dead t s.idle_timeout e.now e.later id e.call _ from order m d))

run-Seen :
    (t : ℕ) (user : User) (id : String) (es : List Event) (s : MemorySessionStore)
    → From t es
    → All (λ e. e.now ≤ t + s.idle_timeout) es
    → All (λ e. ¬ Ends id e.call) es
    → Seen t user (Dict.lookup id s.entries)
    → Seen t user (Dict.lookup id (run es s).entries) × ((run es s).idle_timeout ≡ s.idle_timeout)
run-Seen t user id [] s f w m d = (d, refl)
run-Seen t user id (e ∷ es) s ((from, order), fs) (w, ws) (m, ms) d =
    let same = idle_timeout-step_call e.now e.later id s e.call in
    let (seen, kept_idle) = run-Seen t user id es (step e s) fs (rw same ws) ms (
      rw (lookup-step_call e.now e.later id s e.call)
        (entry_step-Seen t s.idle_timeout e.now e.later user id e.call _ from order w m d)) in
    (seen, kept_idle ∙ same)

-- A session that `get` does not return at `t`, because it expired, was deleted or never was, does
-- not come back: after any calls from `t` on that do not mint its identifier anew, in any order,
-- `get_and_touch` does not return it either.
pub get_and_touch-run_gone :
    (t now later : ℕ) (id : String) (es : List Event) (s : MemorySessionStore)
    → get t id s ≡ none
    → From t es
    → All (λ e. ¬ Mints id e.call) es
    → t ≤ now
    → (get_and_touch now later id (run es s)).0 ≡ none
unfolding get get_and_touch
get_and_touch-run_gone t now later id es s gone f m h =
    refresh-Dead t now later id _ (run es s)
      (run-Dead t id es s f m (Dead-of-live_at t s.idle_timeout (Dict.lookup id s.entries) gone)) h

-- Each use of a session grants it the whole idle timeout again: if `get_and_touch` returns it and
-- refreshes it at `t`, it also returns it, for the same user, at every instant up to
-- `t + idle_timeout`, whatever calls come between that do not delete it or mint its identifier.
pub get_and_touch-run_live :
    (before t now later : ℕ) (id : String) (es : List Event) (s : MemorySessionStore)
    (sess : Session)
    → (get_and_touch before t id s).0 ≡ some sess
    → From t es
    → All (λ e. e.now ≤ t + s.idle_timeout) es
    → All (λ e. ¬ Ends id e.call) es
    → now ≤ t + s.idle_timeout
    → (sess' : Session) × ((get_and_touch now later id (run es (get_and_touch before t id s).1)).0
        ≡ some sess')
      × (sess'.user ≡ sess.user)
unfolding get_and_touch
get_and_touch-run_live before t now later id es s sess e f w m h =
    let s' = (get_and_touch before t id s).1 in
    let (seen, same) = refresh-Seen before t id (Dict.lookup id s.entries) s sess e in
    let (seen', same') = run-Seen t sess.user id es s' f (rw same w) m seen in
    refresh-some t now later id sess.user _ (run es s') seen' (rw (same', same) h)
