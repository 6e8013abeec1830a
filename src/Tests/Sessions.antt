-- ===== src/Tests/Sessions.antt =====
-- Runs of the session store.
use lucairn_enterprise_deplo.Base.{◌≡◌, refl, none, some, List, [], ◌∷◌, arith}
use lucairn_enterprise_deplo.Base.Text.{apart}
use lucairn_enterprise_deplo.Base.Dict
use lucairn_enterprise_deplo.Base.Dict.{Dict, dict_runs}
use lucairn_enterprise_deplo.Auth.{role_admin, User}
use lucairn_enterprise_deplo.Auth.Session.{Session, MemorySessionStore, get, get_and_touch}
use lucairn_enterprise_deplo.Auth.Session.Trace.{
  Event, run, step_call, creates, touches, gets_and_touches,
}
use lucairn_enterprise_deplo.Auth.Session.Machine.{entry_step, lookup-step_call}
use lucairn_enterprise_deplo.Auth.Session.Expiry.{get_and_touch-run_gone, get_and_touch-run_live}

abbrev user : User
user = record { email = "a@b"; role = role_admin }

abbrev seen_at_50 : Session
seen_at_50 = record { id = "s-1"; user = user; created_at = 0; last_seen = 50 }

abbrev store : MemorySessionStore
store = record { entries = ("s-1", seen_at_50) ∷ []; idle_timeout = 100 }

lookup-step_call_example :
    Dict.lookup "s-1" (step_call 60 61 (touches "s-1") store).entries
    ≡ entry_step 100 60 61 (touches "s-1") "s-1" (Dict.lookup "s-1" store.entries)
lookup-step_call_example = lookup-step_call 60 61 "s-1" store (touches "s-1")

abbrev between : List Event
between =
    record { now = 155; later = 156; call = gets_and_touches "s-1" }
    ∷ record { now = 160; later = 160; call = creates (some "s-2") user }
    ∷ []

late : get 151 "s-1" store ≡ none
unfolding get dict_runs
late = refl

get_and_touch-run_gone_example : (get_and_touch 170 171 "s-1" (run between store)).0 ≡ none
get_and_touch-run_gone_example =
    get_and_touch-run_gone 151 170 171 "s-1" between store late
      ((omega arith, omega arith), ((omega arith, omega arith), tt))
      ((λ h. h), (apart "s-2" "s-1" refl, tt)) (omega arith)

abbrev touched : Session
touched = record { id = "s-1"; user = user; created_at = 0; last_seen = 150 }

in_time : (get_and_touch 149 150 "s-1" store).0 ≡ some touched
unfolding get_and_touch dict_runs
in_time = refl

get_and_touch-run_live_example :
    (sess : Session) × ((get_and_touch 250 251 "s-1"
        (run between (get_and_touch 149 150 "s-1" store).1)).0
      ≡ some sess)
    × (sess.user ≡ user)
get_and_touch-run_live_example =
    get_and_touch-run_live 149 150 250 251 "s-1" between store touched in_time
      ((omega arith, omega arith), ((omega arith, omega arith), tt))
      (omega arith, (omega arith, tt)) ((λ h. h), (apart "s-2" "s-1" refl, tt)) (omega arith)
