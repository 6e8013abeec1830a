-- ===== src/Handlers/Keys/Mint.antt =====
-- MintHandler of apps/dashboard/internal/handlers/keys.go.
pub mod Shown
use lucairn_enterprise_deplo.Base.{
  String, Bool, true, false, Option, none, some, List, [], ◌∷◌, str_eq, if◌then◌else◌, Result, ok,
  err,
}
use lucairn_enterprise_deplo.Base.Text.{trim_space}
use lucairn_enterprise_deplo.Auth.{User}
use lucairn_enterprise_deplo.Web.{Request, post_form_value, Response, error, page}
use lucairn_enterprise_deplo.Gateway.Client.{
  AdminError, max_keys_reached, token_rejected, CustomerEntry, ListKeysResult, MintKeyResult,
}
use lucairn_enterprise_deplo.Handlers.Keys.{
  KeyEvent, mint_requested, minting, KeysState, emit, ask, Lookup, get_customers, KeysPage,
  new_page, populate_customer_state, Handled, admitted, cached,
}

-- What the gateway answers to the calls of one request, and whether the page renders.
pub record Minter : Type 0 where
  pub accepts : KeyEvent → Bool
  pub mint_key : String → Result AdminError MintKeyResult
  pub list_keys : String → Result AdminError ListKeysResult
  pub before : Lookup
  pub after : Lookup
  pub renders : KeysPage → Bool

listed : Result AdminError ListKeysResult → Option ListKeysResult
listed (ok keys) = some keys
listed (err e) = none

-- The customers of the page after the mint, with the entry that stands in for an empty list.
shown_customers : String → Result AdminError (List CustomerEntry) → List CustomerEntry
shown_customers customer_id (ok (c ∷ cs)) = c ∷ cs
shown_customers customer_id _ =
    record {
      api_key_prefix = "";
      customer_id = customer_id;
      tier = "";
      vertical = "";
      managed_ai = false;
    }
    ∷ []

-- renderMint
rendered : Minter → KeysPage → Response KeysPage
rendered m p =
    if m.renders p
    then page 200 p
    else error 500 "render error after successful mint — see server logs to revoke the orphan key"

minted : Minter → Request → User → String → Result AdminError MintKeyResult → KeysState → Handled
unfolding listed shown_customers rendered
minted m r user customer_id (err max_keys_reached) s = (
  error 409 "Customer is already at the per-tier key cap. Revoke one before minting a fresh key.",
  s,
)
minted m r user customer_id (err token_rejected) s =
    (error 502 "Gateway admin token rejected. Check LUCAIRN_DASHBOARD_GATEWAY_ADMIN_TOKEN.", s)
minted m r user customer_id (err _) s = (error 502 "Gateway admin temporarily unreachable.", s)
minted m r user customer_id (ok key) s =
    let s' = emit m.accepts (mint_requested user.email customer_id key.key_id key.key_prefix) s in
    let (customers, c) = get_customers m.after s'.cache in
    let p : KeysPage = record (new_page (post_form_value r "csrf") true) {
      keys_result = listed (m.list_keys customer_id);
      just_minted = some key;
    } in
    (
      rendered m (populate_customer_state (shown_customers customer_id customers) customer_id p),
      record s' { cache = c },
    )

mint_for : Minter → Request → User → String → KeysState → Handled
unfolding minted
mint_for m r user customer_id s =
    minted m r user customer_id (m.mint_key customer_id) (ask (minting customer_id) s)

mint_first : Minter → Request → User → Result AdminError (List CustomerEntry) → KeysState → Handled
unfolding mint_for
mint_first m r user (err e) s = (error 502 "gateway admin unavailable", s)
mint_first m r user (ok []) s = (error 409 "no customers configured in gateway keystore", s)
mint_first m r user (ok (c ∷ cs)) s = mint_for m r user c.customer_id s

mint_next : Minter → Request → User → KeysState → Handled
unfolding mint_for mint_first
mint_next m r user s =
    let customer_id = trim_space (post_form_value r "customer_id") in
    if str_eq customer_id ""
    then mint_first m r user ((get_customers m.before s.cache).0) (cached m.before s)
    else mint_for m r user customer_id s

-- MintHandler
unfoldable pub mint : Bool → Minter → Request → KeysState → Handled
unfolding mint_next
mint configured m r s = admitted configured (mint_next m r) r r.session s
