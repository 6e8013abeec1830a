-- ===== src/Handlers/Keys.antt =====
-- apps/dashboard/internal/handlers/keys.go: the API keys of the gateway's customers. The state is the
-- cached list of customers, the audit trail, and what the gateway was asked to change.
pub mod Mint
pub mod Revoke
pub mod Admission
pub mod Escape
use lucairn_enterprise_deplo.Base.{
  ℕ, ◌-◌, String, Bool, true, false, not, ◌&&◌, ◌||◌, Option, none, some, List, [], ◌∷◌, any, ltb,
  str_eq, if◌then◌else◌, Result, ok, err,
}
use lucairn_enterprise_deplo.Base.Text.{◌++◌}
use lucairn_enterprise_deplo.Auth.{User, role_admin}
use lucairn_enterprise_deplo.Auth.Session.{Session}
use lucairn_enterprise_deplo.Auth.Gate.{same_role}
use lucairn_enterprise_deplo.Auth.Csrf.{issue_token, verify_token}
use lucairn_enterprise_deplo.Web.{
  Request, query_value, or_empty, Response, redirect, error, not_found, page,
}
use lucairn_enterprise_deplo.Gateway.Client.{
  AdminError, customer_not_found, CustomerEntry, ListKeysResult, MintKeyResult,
}

-- The 5-minute snapshot; `none` is the zero time.
pub record CustomerCache : Type 0 where
  pub cached_at : Option ℕ
  pub cached_list : List CustomerEntry

pub data KeyEvent : Type 0 where
  mint_requested :
      (user : String)
      → (customer_id : String) → (key_id : String) → (key_prefix : String) → KeyEvent
  revoke_requested :
      (user : String)
      → (customer_id : String) → (key_id : String) → (outcome : String) → (bulk : Bool) → KeyEvent

-- What the gateway is asked to change.
pub data Change : Type 0 where
  minting : (customer_id : String) → Change
  revoking : (customer_id : String) → (key_id : String) → Change

pub record KeysState : Type 0 where
  pub cache : CustomerCache
  pub trail : List KeyEvent
  pub changes : List Change

-- Audit.Emit, whose failure is only logged: `accepts` says whether the emitter takes an event.
pub emit : (KeyEvent → Bool) → KeyEvent → KeysState → KeysState
emit accepts e s = if accepts e then record s { trail = e ∷ s.trail } else s

pub ask : Change → KeysState → KeysState
ask c s = record s { changes = c ∷ s.changes }

-- 5 * time.Minute
abbrev pub cache_ttl : ℕ
cache_ttl = 300000000000

fresh_since : ℕ → Option ℕ → Bool
fresh_since now none = false
fresh_since now (some t) = ltb (now - t) cache_ttl

-- One look under the read lock.
pub look : ℕ → CustomerCache → Option (List CustomerEntry)
unfolding fresh_since
look now c = if fresh_since now c.cached_at then some c.cached_list else none

-- What one call of getCustomers meets: its three readings of the clock, what other requests make of the
-- cache between its first look and its flight, and what ListCustomers answers. A call that joins the
-- flight of another one gets that one's result.
pub record Lookup : Type 0 where
  pub now : ℕ
  pub recheck : ℕ
  pub stored : ℕ
  pub meanwhile : CustomerCache → CustomerCache
  pub answer : Result AdminError (List CustomerEntry)

abbrev pub Customers : Type 0
Customers = Result AdminError (List CustomerEntry) × CustomerCache

fetched : ℕ → Result AdminError (List CustomerEntry) → CustomerCache → Customers
fetched stored (ok fresh) c = (ok fresh, record { cached_at = some stored; cached_list = fresh })
fetched stored (err e) c = (err e, c)

flight : Lookup → CustomerCache → Customers
unfolding fetched
flight l c = elim (look l.recheck c) [
  | some cached ↦ (ok cached, c)
  | none ↦ fetched l.stored l.answer c
]

pub get_customers : Lookup → CustomerCache → Customers
unfolding flight
get_customers l c = elim (look l.now c) [
  | some cached ↦ (ok cached, c)
  | none ↦ flight l (l.meanwhile c)
]

pub record KeysPage : Type 0 where
  pub csrf_token : String
  pub configured : Bool
  pub not_configured : String
  pub customers : List CustomerEntry
  pub selected_id : String
  pub show_selector : Bool
  pub no_customers : Bool
  pub customers_warn : String
  pub keys_result : Option ListKeysResult
  pub keys_err : String
  pub just_minted : Option MintKeyResult

abbrev pub new_page : String → Bool → KeysPage
new_page csrf_token configured = record {
  csrf_token = csrf_token;
  configured = configured;
  not_configured = "";
  customers = [];
  selected_id = "";
  show_selector = false;
  no_customers = false;
  customers_warn = "";
  keys_result = none;
  keys_err = "";
  just_minted = none;
}

several : List CustomerEntry → Bool
several [] = false
several (c ∷ []) = false
several (c ∷ d ∷ cs) = true

default_customer : CustomerEntry → Bool → KeysPage → KeysPage
default_customer c many p = record p {
  selected_id = c.customer_id;
  customers_warn =
      if many then p.customers_warn else "Single customer auto-detected (" ++ c.customer_id ++ ").";
}

-- populateCustomerState
pub populate_customer_state : List CustomerEntry → String → KeysPage → KeysPage
unfolding several default_customer
populate_customer_state [] requested p = record p { customers = []; no_customers = true }
populate_customer_state (c ∷ cs) requested p =
    let p' : KeysPage = record p {
      customers = c ∷ cs;
      show_selector = several (c ∷ cs) || p.show_selector;
    } in
    if not (str_eq requested "") && any (λ d. str_eq d.customer_id requested) (c ∷ cs)
    then record p' { selected_id = requested }
    else default_customer c (several (c ∷ cs)) p'

abbrev pub Handled : Type 0
Handled = Response KeysPage × KeysState

with_keys : Result AdminError ListKeysResult → KeysPage → KeysPage
with_keys (ok keys) p = record p { keys_result = some keys }
with_keys (err customer_not_found) p = record p {
  keys_err =
      "Customer not found in the gateway keystore. The customer-list cache may be stale; reload to refresh.";
}
with_keys (err _) p = record p {
  keys_err = "Gateway admin temporarily unreachable. Keys cannot be listed right now.";
}

browse :
    (String → Result AdminError ListKeysResult)
    → String
    → KeysPage
    → Customers
    → KeysState
    → Handled
unfolding with_keys populate_customer_state
browse list_keys requested p (err e, c) s =
    (error 502 "gateway admin unavailable", record s { cache = c })
browse list_keys requested p (ok customers, c) s =
    let p' = populate_customer_state customers requested p in
    (
      if p'.no_customers then page 200 p' else page 200 (with_keys (list_keys p'.selected_id) p'),
      record s { cache = c },
    )

browse_with :
    Bool
    → (String → Result AdminError ListKeysResult)
    → Lookup
    → Request
    → Option String
    → KeysState
    → Handled
unfolding browse
browse_with configured list_keys l r none s = (error 500 "internal error", s)
browse_with configured list_keys l r (some tok) s =
    if not configured
    then (
      page 200 (record (new_page tok false) {
        not_configured =
            "API key management is not configured on this install. Set LUCAIRN_DASHBOARD_GATEWAY_ADMIN_URL and LUCAIRN_DASHBOARD_GATEWAY_ADMIN_TOKEN (or the matching Helm values) and restart the dashboard. See INSTALL.md § \"Enable API key management\".";
      }),
      s,
    )
    else browse list_keys (query_value r "customer_id") (new_page tok true)
        (get_customers l s.cache) s

browse_for :
    Bool
    → (String → Result AdminError ListKeysResult)
    → Lookup
    → Option String
    → Request
    → Option Session
    → KeysState
    → Handled
unfolding browse_with
browse_for configured list_keys l fresh r none s = (redirect 302 "/login", s)
browse_for configured list_keys l fresh r (some sess) s =
    if not (same_role sess.user.role role_admin)
    then (not_found, s)
    else browse_with configured list_keys l r (issue_token fresh r) s

-- BrowserHandler
pub browser :
    Bool
    → (String → Result AdminError ListKeysResult)
    → Lookup
    → Option String
    → Request
    → KeysState
    → Handled
unfolding browse_for
browser configured list_keys l fresh r s = browse_for configured list_keys l fresh r r.session s

-- The checks that open every handler that changes something.
pub admitted : Bool → (User → KeysState → Handled) → Request → Option Session → KeysState → Handled
admitted configured next r none s = (redirect 302 "/login", s)
admitted configured next r (some sess) s =
    if not (same_role sess.user.role role_admin)
    then (not_found, s)
    else if not r.form_parses
    then (error 400 "bad form", s)
    else if not (verify_token r)
    then (error 403 "csrf failure", s)
    else if not configured
    then (error 503 "API key management not configured", s)
    else next sess.user s

-- The cache of a state after a call of getCustomers.
abbrev pub cached : Lookup → KeysState → KeysState
cached l s = record s { cache = (get_customers l s.cache).1 }

unfoldable pub keys_runs : Unit {0}
unfolding emit ask look fresh_since get_customers populate_customer_state admitted
keys_runs = tt
