-- ===== src/Tests/Flows.antt =====
-- Runs of the OIDC state store and of the mapping to roles.
use lucairn_enterprise_deplo.Base.{◌≡◌, refl, none, some, List, [], ◌∷◌, arith, ok}
use lucairn_enterprise_deplo.Base.Text.{apart, some_apart}
use lucairn_enterprise_deplo.Base.Dict
use lucairn_enterprise_deplo.Base.Dict.{Dict, dict_runs}
use lucairn_enterprise_deplo.Auth.{role_admin}
use lucairn_enterprise_deplo.Auth.OidcState.{
  OidcFlowState, MemoryOidcStateStore, Tokens, create, consume,
}
use lucairn_enterprise_deplo.Auth.OidcState.Replay.{
  Event, run, creates, consumes, collects, consume-run_replayed, consume-run-create,
}
use lucairn_enterprise_deplo.Auth.Oidc.{
  Claim, array, OidcConfig, Provider, exchange, map_groups_to_role, normalize_groups_claim,
  role_of_groups,
}
use lucairn_enterprise_deplo.Auth.Oidc.Roles.{IsGranted, exchange-IsGranted}

abbrev flow : OidcFlowState
flow = record {
  state = "st-1";
  nonce = "n-1";
  code_verifier = "v-1";
  next_path = "/keys";
  created_at = 100;
}

abbrev tokens : Tokens
tokens = record { state = some "st-1"; verifier = some "v-1"; nonce = some "n-1" }

abbrev other_tokens : Tokens
other_tokens = record { state = some "st-2"; verifier = some "v-2"; nonce = some "n-2" }

abbrev open_flows : MemoryOidcStateStore
open_flows = record { entries = ("st-1", flow) ∷ []; ttl = 600 }

abbrev no_flows : MemoryOidcStateStore
no_flows = record { entries = Dict.new; ttl = 600 }

abbrev between : List Event
between =
    record { now = 150; call = creates other_tokens "" }
    ∷ record { now = 200; call = collects }
    ∷ record { now = 210; call = consumes "st-2" }
    ∷ []

consume-run_replayed_example :
    (consume 300 "st-1" (run between (consume 120 "st-1" open_flows).1)).0 ≡ none
consume-run_replayed_example =
    consume-run_replayed 120 300 "st-1" between open_flows
      (some_apart "st-2" "st-1" refl, ((λ h. h), ((λ h. h), tt)))

made_flow : (create tokens "/keys" 100 no_flows).0 ≡ some flow
unfolding create dict_runs
made_flow = refl

consume-run-create_example :
    (consume 300 "st-1" (run between (create tokens "/keys" 100 no_flows).1)).0 ≡ some flow
consume-run-create_example =
    consume-run-create 100 300 tokens "/keys" flow between no_flows made_flow
      (some_apart "st-2" "st-1" refl, ((λ h. h), (apart "st-2" "st-1" refl, tt)))
      (omega arith, (omega arith, (omega arith, tt)))

abbrev config : OidcConfig
config = record { groups_claim = ""; admin_group = "admins"; viewer_group = "staff" }

abbrev claims : Dict Claim
claims = ("groups", array (some "staff" ∷ some "admins" ∷ [])) ∷ []

abbrev provider : Provider
provider = record {
  to_lower = λ s. s;
  token = λ code verifier. some "raw";
  verify = λ raw. some (record { nonce = "n-1"; subject = "u-1"; claims = some claims });
}

ran : exchange provider config "code" "v-1" "n-1" ≡ ok (record { email = "u-1"; role = role_admin })
unfolding exchange map_groups_to_role normalize_groups_claim role_of_groups dict_runs
ran = refl

exchange-IsGranted_example :
    IsGranted provider config "code" "v-1" "n-1" (record { email = "u-1"; role = role_admin })
exchange-IsGranted_example =
    exchange-IsGranted provider config "code" "v-1" "n-1"
      (record { email = "u-1"; role = role_admin }) ran
