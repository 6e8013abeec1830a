-- ===== src/Handlers/Keys/Revoke/Recorded.antt =====
-- The audit trail of a bulk revocation.
use mathlib.Core.List.{◌++◌ as append}
use mathlib.Core.List.Permᴰ
use mathlib.Core.List.Permᴰ.{Permᴰ, nil, cons, swap, trans}
use lucairn_enterprise_deplo.Base.{
  ℕ, zero, suc, if◌then◌else◌, eq_iff, ◌+◌, ◌≤◌, String, ◌≡◌, refl, sym, ap, ◌∙◌, Bool, true, ◌||◌,
  Option, none, some, List, [], ◌∷◌, All, map, take, drop, length, ltb, ◌==◌, str_eq, arith, past,
  ok, err,
}
use lucairn_enterprise_deplo.Base.Text.{trim_space}
use lucairn_enterprise_deplo.Auth.{User}
use lucairn_enterprise_deplo.Auth.Session.{Session}
use lucairn_enterprise_deplo.Web.{Request, redirect}
use lucairn_enterprise_deplo.Gateway.Client.{
  token_rejected, customer_not_found, key_not_found, max_keys_reached, cancelled, rate_limited,
  failed,
}
use lucairn_enterprise_deplo.Handlers.Keys.{
  KeyEvent, mint_requested, revoke_requested, KeysState, Lookup, emit, Handled,
}
use lucairn_enterprise_deplo.Handlers.Keys.Admission.{refused, IsAdmitted, admitted-served}
use lucairn_enterprise_deplo.Handlers.Keys.Revoke.{
  Revoker, Run, Attempt, wait_ended, called, outcome_of, normalized, bulk_event, worked,
  cancel_remainder, events_of, emit_all, run_bulk, bulk_resolved, bulk_next, bulk_revoke,
  resolve_customer_id, asked,
}

-- The key that an entry is about.
abbrev pub key_of : KeyEvent → String
key_of (mint_requested user customer_id key_id key_prefix) = key_id
key_of (revoke_requested user customer_id key_id outcome bulk) = key_id

abbrev known : String → Bool
known o =
    str_eq o "revoked" || str_eq o "already_revoked" || str_eq o "cancelled" || str_eq o "failed"

-- An entry of a bulk job, by the user, for the customer.
abbrev pub OfJob : String → String → KeyEvent → Type 0
OfJob user customer (mint_requested _ _ _ _) = ⊥
OfJob user customer (revoke_requested u c k outcome bulk) =
    (u ≡ user) × (c ≡ customer) × (known outcome ≡ true) × (bulk ≡ true)

outcome_known : (a : Attempt) → known (outcome_of a) ≡ true
unfolding outcome_of
outcome_known wait_ended = refl
outcome_known (called (ok _)) = refl
outcome_known (called (err token_rejected)) = refl
outcome_known (called (err customer_not_found)) = refl
outcome_known (called (err key_not_found)) = refl
outcome_known (called (err max_keys_reached)) = refl
outcome_known (called (err cancelled)) = refl
outcome_known (called (err (rate_limited n))) = refl
outcome_known (called (err (failed e))) = refl

module _ (user : User) (customer_id : String) where
  keys-cancel_remainder :
      (ks : List String) → map key_of (cancel_remainder user customer_id ks) ≡ ks
  unfolding cancel_remainder bulk_event
  keys-cancel_remainder [] = refl
  keys-cancel_remainder (k ∷ ks) = ap (λ l. k ∷ l) (keys-cancel_remainder ks)

  keys-worked :
      (attempt : ℕ → Attempt) (n i : ℕ) (ks : List String)
      → map key_of (
          append
            (worked user customer_id attempt i (take n ks))
            (cancel_remainder user customer_id (drop n ks)))
        ≡ ks
  unfolding worked bulk_event
  keys-worked attempt zero i ks = keys-cancel_remainder ks
  keys-worked attempt (suc n) i [] = keys-cancel_remainder []
  keys-worked attempt (suc n) i (k ∷ ks) = ap (λ l. k ∷ l) (keys-worked attempt n (i + 1) ks)

  cancel_remainder-OfJob :
      (ks : List String) → All (OfJob user.email customer_id) (cancel_remainder user customer_id ks)
  unfolding cancel_remainder bulk_event
  cancel_remainder-OfJob [] = tt
  cancel_remainder-OfJob (k ∷ ks) = ((refl, refl, refl, refl), cancel_remainder-OfJob ks)

  worked-OfJob :
      (attempt : ℕ → Attempt) (n i : ℕ) (ks : List String)
      → All (OfJob user.email customer_id) (
          append
            (worked user customer_id attempt i (take n ks))
            (cancel_remainder user customer_id (drop n ks)))
  unfolding worked bulk_event
  worked-OfJob attempt zero i ks = cancel_remainder-OfJob ks
  worked-OfJob attempt (suc n) i [] = cancel_remainder-OfJob []
  worked-OfJob attempt (suc n) i (k ∷ ks) =
      ((refl, refl, outcome_known (attempt i), refl), worked-OfJob attempt n (i + 1) ks)

All-perm : (P : KeyEvent → Type 0) {xs ys : List KeyEvent} → Permᴰ xs ys → All P xs → All P ys
All-perm P nil h = h
All-perm P (cons e p) (h, hs) = (rw (← e) h, All-perm P p hs)
All-perm P (swap e f) (h, rest) = (rw (← f) rest.0, (rw (← e) h, rest.1))
All-perm P (trans p q) h = All-perm P q (All-perm P p h)

append_assoc : (xs ys zs : List KeyEvent) → append (append xs ys) zs ≡ append xs (append ys zs)
append_assoc [] ys zs = refl
append_assoc (x ∷ xs) ys zs = ap (λ l. x ∷ l) (append_assoc xs ys zs)

-- The entries stand in the trail, each once.
emit_all-trail :
    (accepts : KeyEvent → Bool)
    → ((e : KeyEvent) → accepts e ≡ true)
    → (es : List KeyEvent) (s : KeysState)
    → (new : List KeyEvent) × ((emit_all accepts es s).trail ≡ append new s.trail) × Permᴰ new es
unfolding emit_all emit
emit_all-trail accepts all [] s = ([], refl, nil)
emit_all-trail accepts all (e ∷ es) s =
    let (new, eq, p) = emit_all-trail accepts all es (record s { trail = e ∷ s.trail }) in
    (
      append new (e ∷ []),
      rw (emit_all, all e) (eq ∙ sym (append_assoc new (e ∷ []) s.trail)),
      trans (Permᴰ.middle e new []) (cons refl (trans (Permᴰ.append-nil new) p)),
    )

-- How often a key is among the keys,
pub times_in : String → List String → ℕ
times_in k [] = 0
times_in k (j ∷ js) = (if str_eq j k then 1 else 0) + times_in k js

-- and how often it was submitted, with spaces around it or not.
pub submitted : String → List String → ℕ
submitted k [] = 0
submitted k (v ∷ vs) = (if str_eq (trim_space v) k then 1 else 0) + submitted k vs

times_in-normalized :
    (k : String) (vs : List String)
    → times_in k (normalized vs) ≡ (if str_eq k "" then 0 else submitted k vs)
unfolding times_in submitted normalized
times_in-normalized k [] = ground arith
times_in-normalized k (v ∷ vs) = ground (
  arith,
  times_in-normalized k vs,
  eq_iff (trim_space v) "",
  eq_iff (trim_space v) k,
  eq_iff k "",
)

times_in_perm : (k : String) {xs ys : List String} → Permᴰ xs ys → times_in k xs ≡ times_in k ys
unfolding times_in
times_in_perm k nil = refl
times_in_perm k (cons e p) = rw (e, times_in_perm k p) refl
times_in_perm k (swap e f) = rw (e, f) (omega arith)
times_in_perm k (trans p q) = times_in_perm k p ∙ times_in_perm k q

-- What a bulk revocation of the submitted values leaves in the trail: an entry for each of them that is
-- not blank, as often as it was submitted, and no other.
pub record IsRecorded (user customer_id : String) (values : List String) (s s' : KeysState)
    : Type 0 where
  pub new : List KeyEvent
  pub trail : s'.trail ≡ append new s.trail
  pub each_key :
      (k : String) → times_in k (map key_of new) ≡ (if str_eq k "" then 0 else submitted k values)
  pub of_job : All (OfJob user customer_id) new

bulk_resolved-run :
    (v : Revoker) (run : Run) (user : User) (key_ids : List String) (o : Option String)
    (s s' : KeysState) (loc : String)
    → bulk_resolved v run user key_ids (o, s) ≡ (redirect 303 loc, s')
    → (customer_id : String) × (o ≡ some customer_id)
      × (1 ≤ length key_ids)
      × (length key_ids ≤ 100)
      × (run_bulk v run user customer_id (normalized key_ids) s ≡ (redirect 303 loc, s'))
unfolding bulk_resolved
bulk_resolved-run v run user key_ids none s s' loc e = absurd (refused refl refl e)
bulk_resolved-run v run user key_ids (some c) s s' loc e =
    let (a, e1) = past (length key_ids == 0) _ _ _ e (refused refl refl) in
    let (b, e2) = past (ltb 100 (length key_ids)) _ _ _ e1 (refused refl refl) in
    (c, refl, ground arith, ground arith, e2)

run_bulk-IsRecorded :
    (v : Revoker) (run : Run) (user : User) (customer_id : String) (ks : List String)
    (s s' : KeysState) (loc : String)
    → ((e : KeyEvent) → v.accepts e ≡ true)
    → ((l : List KeyEvent) → Permᴰ (run.order l) l)
    → run_bulk v run user customer_id (normalized ks) s ≡ (redirect 303 loc, s')
    → IsRecorded user.email customer_id ks s s'
unfolding run_bulk events_of
run_bulk-IsRecorded v run user c values s s' loc accepted ordered e =
    let ks = normalized values in
    let es = events_of user c run ks in
    let s1 : KeysState = record s {
      changes = asked user c run.attempt 0 (take run.acquired ks) s.changes;
    } in
    let (new, eq, p) = emit_all-trail v.accepts accepted (run.order es) s1 in
    let p' : Permᴰ new es = trans p (ordered es) in
    let e' : emit_all v.accepts (run.order es) s1 ≡ s' = ap (λ (x : Handled). x.1) e in
    record {
      new = new;
      trail = rw (← e') eq;
      each_key = λ k.
          times_in_perm k
            (rw (keys-worked user c run.attempt run.acquired 0 ks) at (Permᴰ.map key_of p'))
          ∙ times_in-normalized k values;
      of_job =
          All-perm (OfJob user.email c) (Permᴰ.symm p')
            (worked-OfJob user c run.attempt run.acquired 0 ks);
    }

trail-resolve_customer_id :
    (l : Lookup) (r : Request) (s : KeysState) → (resolve_customer_id l r s).1.trail ≡ s.trail
unfolding resolve_customer_id
trail-resolve_customer_id l r s = ground arith

-- A bulk revocation that redirects back was asked for by an administrator with a matching CSRF token,
-- with between one and 100 values. Wherever its request ends and however its workers are scheduled, the
-- audit trail, which takes every entry, has then grown by exactly one entry for each value that is not
-- blank, as often as it was submitted, and all of them name the user, the customer and one of the four
-- outcomes.
pub bulk_revoke-IsRecorded :
    (configured : Bool) (v : Revoker) (run : Run) (key_ids : List String) (r : Request)
    (s s' : KeysState) (loc : String)
    → ((e : KeyEvent) → v.accepts e ≡ true)
    → ((l : List KeyEvent) → Permᴰ (run.order l) l)
    → bulk_revoke configured v run key_ids r s ≡ (redirect 303 loc, s')
    → (sess : Session) × IsAdmitted r r.session sess
      × (1 ≤ length key_ids)
      × (length key_ids ≤ 100)
      × ((customer_id : String) × IsRecorded sess.user.email customer_id key_ids s s')
unfolding bulk_revoke bulk_next
bulk_revoke-IsRecorded configured v run key_ids r s s' loc accepted ordered e =
    let (sess, adm, e1) =
      admitted-served configured (bulk_next v run key_ids r) r r.session s s' (redirect 303 loc)
        refl e in
    let (c, _, few, many, e2) =
      bulk_resolved-run v run sess.user key_ids (resolve_customer_id v.lookup r s).0
        (resolve_customer_id v.lookup r s).1 s' loc e1 in
    let rec' =
      run_bulk-IsRecorded v run sess.user c key_ids (resolve_customer_id v.lookup r s).1 s' loc
        accepted ordered e2 in
    (
      sess,
      adm,
      few,
      many,
      (
        c,
        record {
          new = rec'.new;
          trail = rec'.trail ∙ ap (append rec'.new) (trail-resolve_customer_id v.lookup r s);
          each_key = rec'.each_key;
          of_job = rec'.of_job;
        },
      ),
    )
