-- ===== src/Auth/Session/Machine.antt =====
-- The session store as one small machine for each identifier: what a call does to the entry under
-- an identifier depends on that entry alone.
use lucairn_enterprise_deplo.Base.{
  ℕ, String, ◌≡◌, refl, Option, none, some, arith, str_eq, if◌then◌else◌, eq_iff, Option-cases, inl,
  inr,
}
use lucairn_enterprise_deplo.Base.Dict
use lucairn_enterprise_deplo.Base.Dict.{kept, lookup-retain, lookup-erase, lookup-insert}
use lucairn_enterprise_deplo.Auth.Session.{
  Session, MemorySessionStore, create, get, get_and_touch, touch, delete, collect, outlasts,
  expired,
}
use lucairn_enterprise_deplo.Auth.Session.Trace.{
  Call, creates, gets, touches, gets_and_touches, deletes, collects, step_call,
}

abbrev pub refreshed : ℕ → ℕ → ℕ → Option Session → Option Session
refreshed idle now later none = none
refreshed idle now later (some sess) =
    if expired now idle sess then none else some (record sess { last_seen = later })

-- The entry under `j` after a call.
abbrev pub entry_step : ℕ → ℕ → ℕ → Call → String → Option Session → Option Session
entry_step idle now later (creates none user) j o = o
entry_step idle now later (creates (some id) user) j o =
    if str_eq id j
    then some (record { id = id; user = user; created_at = now; last_seen = now })
    else o
entry_step idle now later (gets id) j o = o
entry_step idle now later (touches id) j o = if str_eq id j then refreshed idle now later o else o
entry_step idle now later (gets_and_touches id) j o =
    if str_eq id j then refreshed idle now later o else o
entry_step idle now later (deletes id) j o = if str_eq id j then none else o
entry_step idle now later collects j o = kept (outlasts now idle) o

module _ (now later : ℕ) (j : String) (s : MemorySessionStore) where
  -- Whatever the call, the entry under each identifier makes the step of its own machine.
  pub lookup-step_call :
      (call : Call)
      → Dict.lookup j (step_call now later call s).entries
        ≡ entry_step s.idle_timeout now later call j (Dict.lookup j s.entries)
  unfolding create get get_and_touch touch delete collect
  lookup-step_call (creates none user) = refl
  lookup-step_call (creates (some id) user) = lookup-insert id j _ s.entries
  lookup-step_call (gets id) = refl
  lookup-step_call (touches id) = elim (Option-cases (Dict.lookup id s.entries)) [
    | inl e ↦ ground (arith, eq_iff id j)
    | inr (x, e) ↦ ground (
      arith,
      eq_iff id j,
      lookup-erase id j s.entries,
      lookup-insert id j (record x { last_seen = later }) s.entries,
    )
  ]
  lookup-step_call (gets_and_touches id) = elim (Option-cases (Dict.lookup id s.entries)) [
    | inl e ↦ ground (arith, eq_iff id j)
    | inr (x, e) ↦ ground (
      arith,
      eq_iff id j,
      lookup-erase id j s.entries,
      lookup-insert id j (record x { last_seen = later }) s.entries,
    )
  ]
  lookup-step_call (deletes id) = lookup-erase id j s.entries
  lookup-step_call collects = lookup-retain _ j s.entries

  pub idle_timeout-step_call :
      (call : Call) → (step_call now later call s).idle_timeout ≡ s.idle_timeout
  unfolding create get get_and_touch touch delete collect
  idle_timeout-step_call (creates none user) = refl
  idle_timeout-step_call (creates (some id) user) = refl
  idle_timeout-step_call (gets id) = refl
  idle_timeout-step_call (touches id) = ground arith
  idle_timeout-step_call (gets_and_touches id) = ground arith
  idle_timeout-step_call (deletes id) = refl
  idle_timeout-step_call collects = refl
