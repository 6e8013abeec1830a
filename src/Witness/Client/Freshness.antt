-- ===== src/Witness/Client/Freshness.antt =====
-- Where a verification result comes from, over any sequence of calls.
use mathlib.Core.List.{◌++◌ as append}
use lucairn_enterprise_deplo.Base.{
  All, false, ℕ, ◌+◌, ◌≤◌, String, ◌≡◌, ◌≢◌, refl, ◌∙◌, ◌⊎◌, none, some, List, [], ◌∷◌, arith,
  eq_iff, str_eq, Result, ok, err, inl, inr,
}
use lucairn_enterprise_deplo.Base.Dict
use lucairn_enterprise_deplo.Base.Dict.{lookup-nil, lookup-erase}
use lucairn_enterprise_deplo.Witness.Client.Report.{VerifyResult, Unicode}
use lucairn_enterprise_deplo.Witness.Client.{
  CacheEntry, Cache, new_cache, fresh_at, cache_get, cache_delete, VerifyError, Rpc, Clock,
  Meanwhile, alone, fetch, remembered, flown, looked_up, verify, invalidate,
}
use lucairn_enterprise_deplo.Witness.Client.Trace.{
  Call, verifies, lands, invalidates, after, entry_step, lookup-client_call,
}
use lucairn_enterprise_deplo.Witness.Client.Fetched.{IsFetched, from_cache, looked_up-ok}

-- Other calls during a `Verify`: `looking` before its flight, `flying` while it asks the witness.
abbrev pub beside : Unicode → List Call → List Call → Meanwhile
beside u looking flying = record { before_flight = after u looking; in_flight = after u flying }

after-append :
    (u : Unicode) (later calls : List Call) (c : Cache)
    → after u (append later calls) c ≡ after u later (after u calls c)
after-append u [] calls c = refl
after-append u (call ∷ later) calls c = rw (after-append u later calls c) refl

-- A result that `Verify` returns was fetched for that very key: in this call, or by an earlier
-- `Verify`, or one that landed before this one looked again, whose result has not outlived the cache's
-- time to live and after which the key was not invalidated. Other calls may run during this one.
pub verify-after_origin :
    (u : Unicode) (rpc : Rpc) (at : Clock) (looking flying : List Call) (id : String)
    (calls : List Call) (ttl : ℕ) (out : VerifyResult)
    → at.looked ≤ at.looked_again
    → (verify u rpc at (beside u looking flying) id (after u calls (new_cache ttl))).0 ≡ ok out
    → (fetch u rpc at.stamped id ≡ ok out)
      ⊎ ((entry : CacheEntry) × (entry.val ≡ out)
          × (at.looked ≤ entry.expires_at)
          × (IsFetched u ttl id entry calls ⊎ IsFetched u ttl id entry (append looking calls)))
unfolding verify
verify-after_origin u rpc at looking flying id calls ttl out order e =
    let c = after u calls (new_cache ttl) in
    elim (looked_up-ok u rpc at (beside u looking flying) id (cache_get at.looked id c) c out
      (ground arith)) [
        | inl hit ↦
            let (entry, same, in_time, found) = from_cache u at.looked id calls ttl out hit in
            inr (entry, same, in_time, inl found)
        | inr (inl hit) ↦
            let (entry, same, in_time, found) =
              from_cache u at.looked_again id (append looking calls) ttl out
                (rw (after-append u looking calls (new_cache ttl)) hit) in
            inr (entry, same, omega arith, inr found)
        | inr (inr got) ↦ inl got
      ]

-- A call that does not verify the key, nor the end of one that does.
abbrev pub Spares : String → Call → Type 0
Spares id (verifies rpc at k) = k ≢ id
Spares id (lands rpc at k) = k ≢ id
Spares id (invalidates k) = Unit

-- A call that does not invalidate the key, and verifies it only while the entry lasts; no fetch of the
-- key by a call beside others lands.
abbrev pub Keeps : String → ℕ → Call → Type 0
Keeps id expires_at (verifies rpc at k) = at.looked ≤ expires_at
Keeps id expires_at (lands rpc at k) = k ≢ id
Keeps id expires_at (invalidates k) = k ≢ id

module _ (u : Unicode) where
  entry_step_spared :
      (ttl : ℕ) (call : Call) (id : String) → Spares id call → entry_step u ttl call id none ≡ none
  entry_step_spared ttl (verifies rpc at k) id h = ground (arith, eq_iff k id)
  entry_step_spared ttl (lands rpc at k) id h = ground (arith, eq_iff k id)
  entry_step_spared ttl (invalidates k) id h = ground arith

  entry_step_kept :
      (ttl : ℕ) (call : Call) (id : String) (entry : CacheEntry)
      → Keeps id entry.expires_at call
      → entry_step u ttl call id (some entry) ≡ some entry
  entry_step_kept ttl (verifies rpc at k) id entry h = ground arith
  entry_step_kept ttl (lands rpc at k) id entry h = ground (arith, eq_iff k id)
  entry_step_kept ttl (invalidates k) id entry h = ground (arith, eq_iff k id)

  lookup-after_spared :
      (id : String) (calls : List Call) (c : Cache)
      → All (Spares id) calls
      → Dict.lookup id c.m ≡ none
      → Dict.lookup id (after u calls c).m ≡ none
  lookup-after_spared id [] c h e = e
  lookup-after_spared id (call ∷ calls) c (h, hs) e =
      lookup-client_call u call id (after u calls c)
      ∙ rw (lookup-after_spared id calls c hs e) (entry_step_spared _ call id h)

  lookup-after_kept :
      (id : String) (calls : List Call) (c : Cache) (entry : CacheEntry)
      → All (Keeps id entry.expires_at) calls
      → Dict.lookup id c.m ≡ some entry
      → Dict.lookup id (after u calls c).m ≡ some entry
  lookup-after_kept id [] c entry h e = e
  lookup-after_kept id (call ∷ calls) c entry (h, hs) e =
      lookup-client_call u call id (after u calls c)
      ∙ rw (lookup-after_kept id calls c entry hs e) (entry_step_kept _ call id entry h)

module _ (u : Unicode) (rpc : Rpc) (at : Clock) (m : Meanwhile) (id : String) (c : Cache)
    (full : id ≢ "") where
  remembered-eq :
      (r : Result VerifyError VerifyResult) (c' : Cache) → (remembered u at.stored id r c').0 ≡ r
  unfolding remembered
  remembered-eq (ok x) c' = refl
  remembered-eq (err x) c' = refl

  keyed : str_eq id "" ≡ false
  keyed = ground (arith, eq_iff id "")

  verify-of_none :
      Dict.lookup id c.m ≡ none
      → Dict.lookup id (m.before_flight c).m ≡ none
      → (verify u rpc at m id c).0 ≡ fetch u rpc at.stamped id
  unfolding verify looked_up flown cache_get
  verify-of_none e e' =
      rw (keyed, e, e')
        (remembered-eq (fetch u rpc at.stamped id) (m.in_flight (m.before_flight c)))

  verify-of_some :
      (entry : CacheEntry)
      → Dict.lookup id c.m ≡ some entry
      → at.looked ≤ entry.expires_at
      → (verify u rpc at m id c).0 ≡ ok entry.val
  unfolding verify looked_up cache_get
  verify-of_some entry e h =
      let hit : fresh_at at.looked (some entry) ≡ some entry.val = ground arith in
      rw (keyed, e, hit) refl

-- After a key was invalidated, the next `Verify` of it asks the witness again: its answer is the
-- fetch's, errors included. The condition is that from the invalidation until this call looks into its
-- flight no other `Verify` of the key runs and none that was under way at the invalidation lands. All
-- else may come between, and anything may be done to the cache while the witness is asked.
pub verify-after-invalidate :
    (u : Unicode) (rpc : Rpc) (at : Clock) (looking flying : List Call) (id : String)
    (calls : List Call) (c : Cache)
    → id ≢ ""
    → All (Spares id) calls
    → All (Spares id) looking
    → (verify u rpc at (beside u looking flying) id (after u calls (invalidate id c))).0
      ≡ fetch u rpc at.stamped id
unfolding invalidate cache_delete
verify-after-invalidate u rpc at looking flying id calls c full h h' =
    let gone =
      lookup-after_spared u id calls (invalidate id c) h
        (lookup-erase id id c.m ∙ ground (arith, eq_iff id id)) in
    let c' = after u calls (invalidate id c) in
    verify-of_none u rpc at (beside u looking flying) id c' full gone
      (lookup-after_spared u id looking c' h' gone)

-- A result that was fetched for a key without an entry is answered again, with no regard to the
-- witness, by every `Verify` of the key that looks within the time to live, unless the key was
-- invalidated in between or a fetch of it by another call landed.
pub verify-after_cached :
    (u : Unicode) (rpc rpc' : Rpc) (at at' : Clock) (m : Meanwhile) (id : String)
    (calls : List Call) (c : Cache) (out : VerifyResult)
    → id ≢ ""
    → Dict.lookup id c.m ≡ none
    → fetch u rpc at.stamped id ≡ ok out
    → All (Keeps id (at.stored + c.ttl)) calls
    → at'.looked ≤ at.stored + c.ttl
    → (verify u rpc' at' m id (after u calls (verify u rpc at alone id c).1)).0 ≡ ok out
verify-after_cached u rpc rpc' at at' m id calls c out full empty got h in_time =
    let first : Dict.lookup id (verify u rpc at alone id c).1.m
        ≡ some (record { val = out; expires_at = at.stored + c.ttl }) =
      lookup-client_call u (verifies rpc at id) id c
      ∙ rw (empty, got) (ground (arith, eq_iff id id, eq_iff id "")) in
    let later = lookup-after_kept u id calls (verify u rpc at alone id c).1 _ h first in
    verify-of_some u rpc' at' m id (after u calls (verify u rpc at alone id c).1) full _ later
      in_time
