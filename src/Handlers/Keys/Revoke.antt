-- ===== src/Handlers/Keys/Revoke.antt =====
-- RevokeHandler and BulkRevokeHandler of apps/dashboard/internal/handlers/keys.go. The workers of a
-- bulk job run at once; each ends with one entry in the audit trail, so a run is an order of entries.
pub mod Cancelled
pub mod Recorded
use Prim.Native.Nat.{◌/◌, ◌%◌}
use Prim.Native.Char.{code}
use Prim.Native.String.{[] as no_text, ◌∷◌ as then_char}
use mathlib.Core.List.{◌++◌ as append}
use lucairn_enterprise_deplo.Base.{
  ℕ, ◌+◌, String, Bool, true, false, not, ◌&&◌, ◌||◌, Option, none, some, List, [], ◌∷◌, map, take,
  drop, length, ltb, leb, ◌==◌, str_eq, if◌then◌else◌, Result, ok, err,
}
use lucairn_enterprise_deplo.Base.Text.{
  ◌++◌, trim_space, has_prefix, has_suffix, trim_prefix, trim_suffix, contains_code,
}
use lucairn_enterprise_deplo.Auth.{User}
use lucairn_enterprise_deplo.Web.{Request, post_form_value, redirect, error}
use lucairn_enterprise_deplo.Gateway.Client.{
  AdminError, key_not_found, token_rejected, cancelled, CustomerEntry, RevokeKeyResult,
}
use lucairn_enterprise_deplo.Handlers.Keys.Escape.{escape_query_value}
use lucairn_enterprise_deplo.Handlers.Keys.{
  KeyEvent, revoke_requested, Change, revoking, KeysState, emit, ask, Lookup, get_customers,
  Handled, admitted, cached,
}

-- extractKeyIDFromRevokePath
pub extract_key_id_from_revoke_path : String → String
unfolding trim_prefix trim_suffix has_suffix contains_code
extract_key_id_from_revoke_path path =
    if not (has_prefix "/keys/" path) || not (has_suffix "/revoke" path)
    then ""
    else (let mid = trim_suffix "/revoke" (trim_prefix "/keys/" path) in
        if contains_code 47 mid then "" else mid)

first_customer : Result AdminError (List CustomerEntry) → Option String
first_customer (err e) = none
first_customer (ok []) = none
first_customer (ok (c ∷ cs)) = some c.customer_id

-- resolveCustomerID; `none` is its error.
pub resolve_customer_id : Lookup → Request → KeysState → Option String × KeysState
unfolding first_customer
resolve_customer_id l r s =
    let v = trim_space (post_form_value r "customer_id") in
    if str_eq v "" then (first_customer ((get_customers l s.cache).0), cached l s) else (some v, s)

-- redirectBackToBrowser
pub redirect_back_to_browser : String → String
unfolding escape_query_value
redirect_back_to_browser customer_id =
    if str_eq customer_id ""
    then "/keys"
    else "/keys?customer_id=" ++ escape_query_value customer_id

pub record Revoker : Type 0 where
  pub accepts : KeyEvent → Bool
  pub revoke_key : String → String → Result AdminError RevokeKeyResult
  pub lookup : Lookup

module _ (v : Revoker) (user : User) (customer_id : String) where
  -- The single revocation, after its call.
  revoked : String → Result AdminError RevokeKeyResult → KeysState → Handled
  unfolding redirect_back_to_browser
  revoked key_id (ok _) s = (
    redirect 303 (redirect_back_to_browser customer_id),
    emit v.accepts (revoke_requested user.email customer_id key_id "revoked" false) s,
  )
  revoked key_id (err key_not_found) s = (
    redirect 303 (redirect_back_to_browser customer_id),
    emit v.accepts (revoke_requested user.email customer_id key_id "already_revoked" false) s,
  )
  revoked key_id (err token_rejected) s = (error 502 "Gateway admin token rejected.", s)
  revoked key_id (err _) s = (error 502 "Gateway admin temporarily unreachable.", s)

revoke_resolved : Revoker → User → String → Option String × KeysState → Handled
unfolding revoked
revoke_resolved v user key_id (none, s) = (error 502 "gateway admin unavailable", s)
revoke_resolved v user key_id (some customer_id, s) =
    revoked v user customer_id key_id (v.revoke_key customer_id key_id)
      (ask (revoking customer_id key_id) s)

revoke_next : Revoker → Request → User → KeysState → Handled
unfolding extract_key_id_from_revoke_path resolve_customer_id revoke_resolved
revoke_next v r user s =
    let key_id = extract_key_id_from_revoke_path r.path in
    if str_eq key_id ""
    then (error 400 "missing key_id in path", s)
    else revoke_resolved v user key_id (resolve_customer_id v.lookup r s)

-- RevokeHandler
unfoldable pub revoke : Bool → Revoker → Request → KeysState → Handled
unfolding revoke_next
revoke configured v r s = admitted configured (revoke_next v r) r r.session s

-- The values of the form, without surrounding spaces and without the empty ones.
pub normalized : List String → List String
normalized [] = []
normalized (k ∷ ks) =
    let rest = normalized ks in if str_eq (trim_space k) "" then rest else trim_space k ∷ rest

-- What a worker meets: the limiter's wait ends with the request, or the gateway answers.
pub data Attempt : Type 0 where
  wait_ended : Attempt
  called : Result AdminError RevokeKeyResult → Attempt

pub outcome_of : Attempt → String
outcome_of wait_ended = "cancelled"
outcome_of (called (ok _)) = "revoked"
outcome_of (called (err key_not_found)) = "already_revoked"
outcome_of (called (err cancelled)) = "cancelled"
outcome_of (called (err _)) = "failed"

-- The run of a bulk job: how many keys get a worker before the request ends, what the worker of each
-- position meets, and the order in which the entries are made.
pub record Run : Type 0 where
  pub acquired : ℕ
  pub attempt : ℕ → Attempt
  pub order : List KeyEvent → List KeyEvent

module _ (user : User) (customer_id : String) where
  bulk_event : String → String → KeyEvent
  bulk_event key outcome = revoke_requested user.email customer_id key outcome true

  -- The workers, for the keys from position `i` on.
  worked : (ℕ → Attempt) → ℕ → List String → List KeyEvent
  unfolding bulk_event
  worked attempt i [] = []
  worked attempt i (k ∷ ks) = bulk_event k (outcome_of (attempt i)) ∷ worked attempt (i + 1) ks

  asked_one : Attempt → String → List Change → List Change
  asked_one wait_ended k changes = changes
  asked_one (called _) k changes = revoking customer_id k ∷ changes

  asked : (ℕ → Attempt) → ℕ → List String → List Change → List Change
  unfolding asked_one
  asked attempt i [] changes = changes
  asked attempt i (k ∷ ks) changes = asked attempt (i + 1) ks (asked_one (attempt i) k changes)

  -- cancelRemainder
  cancel_remainder : List String → List KeyEvent
  unfolding bulk_event
  cancel_remainder ks = map (λ k. bulk_event k "cancelled") ks

  -- The entries of the job.
  pub events_of : Run → List String → List KeyEvent
  unfolding worked cancel_remainder
  events_of run ks =
      append (worked run.attempt 0 (take run.acquired ks)) (cancel_remainder (drop run.acquired ks))

pub emit_all : (KeyEvent → Bool) → List KeyEvent → KeysState → KeysState
emit_all accepts [] s = s
emit_all accepts (e ∷ es) s = emit_all accepts es (emit accepts e s)

run_bulk : Revoker → Run → User → String → List String → KeysState → Handled
unfolding asked events_of redirect_back_to_browser
run_bulk v run user customer_id ks s = (
  redirect 303 (redirect_back_to_browser customer_id),
  emit_all v.accepts (run.order (events_of user customer_id run ks)) (record s {
    changes = asked user customer_id run.attempt 0 (take run.acquired ks) s.changes;
  }),
)

bulk_resolved : Revoker → Run → User → List String → Option String × KeysState → Handled
unfolding run_bulk
bulk_resolved v run user key_ids (none, s) = (error 502 "gateway admin unavailable", s)
bulk_resolved v run user key_ids (some customer_id, s) =
    if length key_ids == 0
    then (error 400 "no key_id values supplied", s)
    else if ltb 100 (length key_ids)
    then (error 413 "bulk job too large (max 100 keys per request)", s)
    else run_bulk v run user customer_id (normalized key_ids) s

bulk_next : Revoker → Run → List String → Request → User → KeysState → Handled
unfolding bulk_resolved
bulk_next v run key_ids r user s =
    bulk_resolved v run user key_ids (resolve_customer_id v.lookup r s)

-- BulkRevokeHandler; `key_ids` are the form's values of that name.
unfoldable pub bulk_revoke : Bool → Revoker → Run → List String → Request → KeysState → Handled
unfolding bulk_next
bulk_revoke configured v run key_ids r s =
    admitted configured (bulk_next v run key_ids r) r r.session s

unfoldable pub revoke_runs : Unit {0}
unfolding resolve_customer_id normalized outcome_of emit_all worked asked cancel_remainder events_of
revoke_runs = tt
