-- ===== src/Auth/Session/Trace.antt =====
-- Runs of the session store: any sequence of calls, as the mutex orders them.
use lucairn_enterprise_deplo.Base.{ℕ, String, Option, List, [], ◌∷◌}
use lucairn_enterprise_deplo.Auth.{User}
use lucairn_enterprise_deplo.Auth.Session.{
  MemorySessionStore, create, get_and_touch, touch, delete, collect,
}

pub data Call : Type 0 where
  creates : Option String → User → Call
  gets touches gets_and_touches deletes : String → Call
  collects : Call

-- A call with the two readings of the clock that it may make.
pub record Event : Type 0 where
  pub now : ℕ
  pub later : ℕ
  pub call : Call

abbrev pub step_call : ℕ → ℕ → Call → MemorySessionStore → MemorySessionStore
step_call now later (creates generated user) s = (create generated now user s).1
step_call now later (gets id) s = s
step_call now later (touches id) s = (touch now later id s).1
step_call now later (gets_and_touches id) s = (get_and_touch now later id s).1
step_call now later (deletes id) s = delete id s
step_call now later collects s = collect now s

abbrev pub step : Event → MemorySessionStore → MemorySessionStore
step e s = step_call e.now e.later e.call s

abbrev pub run : List Event → MemorySessionStore → MemorySessionStore
run [] s = s
run (e ∷ es) s = run es (step e s)
