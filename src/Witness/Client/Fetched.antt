-- ===== src/Witness/Client/Fetched.antt =====
-- Where the entry of a key comes from, over any sequence of calls.

use lucairn_enterprise_deplo.Base.{
  ℕ, ◌+◌, ◌≤◌, String, ◌≡◌, ◌≢◌, refl, sym, ◌∙◌, ◌⊎◌, Option, none, some, List, [], ◌∷◌, arith,
  eq_iff, Result, ok, err, inl, inr,
}
use lucairn_enterprise_deplo.Base.Dict
use lucairn_enterprise_deplo.Base.Dict.{lookup-nil, lookup-erase}
use lucairn_enterprise_deplo.Witness.Client.Report.{VerifyResult, Unicode}
use lucairn_enterprise_deplo.Witness.Client.{
  CacheEntry, Cache, new_cache, fresh_at, cache_get, VerifyError, Rpc, Clock, Meanwhile, fetch,
  remembered, flown, looked_up,
}
use lucairn_enterprise_deplo.Witness.Client.Trace.{
  Call, verifies, lands, invalidates, after, entry_step, ttl-client_call, lookup-client_call,
}

module _ (u : Unicode) where
  -- Among the calls, the last one first, some `Verify`, alone or beside others, fetched the entry's
  -- value for the key and stored it with that expiry, and no later call invalidated the key.
  pub data IsFetched (ttl : ℕ) (id : String) (entry : CacheEntry) : List Call → Type 0 where
    here :
        (rpc : Rpc) (at : Clock) (calls : List Call)
        → fetch u rpc at.stamped id ≡ ok entry.val
        → entry.expires_at ≡ at.stored + ttl
        → IsFetched ttl id entry (verifies rpc at id ∷ calls)
    past_verify :
        (rpc : Rpc) (at : Clock) (k : String) (calls : List Call)
        → IsFetched ttl id entry calls
        → IsFetched ttl id entry (verifies rpc at k ∷ calls)
    landed :
        (rpc : Rpc) (at : Clock) (calls : List Call)
        → fetch u rpc at.stamped id ≡ ok entry.val
        → entry.expires_at ≡ at.stored + ttl
        → IsFetched ttl id entry (lands rpc at id ∷ calls)
    past_landing :
        (rpc : Rpc) (at : Clock) (k : String) (calls : List Call)
        → IsFetched ttl id entry calls
        → IsFetched ttl id entry (lands rpc at k ∷ calls)
    past_invalidate :
        (k : String) (calls : List Call)
        → k ≢ id
        → IsFetched ttl id entry calls
        → IsFetched ttl id entry (invalidates k ∷ calls)

  ttl-after : (calls : List Call) (c : Cache) → (after u calls c).ttl ≡ c.ttl
  ttl-after [] c = refl
  ttl-after (call ∷ calls) c = ttl-client_call u call (after u calls c) ∙ ttl-after calls c

  -- A `Verify` leaves the entry as it was, or it fetched it.
  entry_step-verifies :
      (ttl : ℕ) (rpc : Rpc) (at : Clock) (k j : String) (o : Option CacheEntry) (entry : CacheEntry)
      → entry_step u ttl (verifies rpc at k) j o ≡ some entry
      → (o ≡ some entry)
        ⊎ ((k ≡ j)
            × (fetch u rpc at.stamped k ≡ ok entry.val)
            × (entry.expires_at ≡ at.stored + ttl))
  entry_step-verifies ttl rpc at k j none entry e = ground (arith, eq_iff k j)
  entry_step-verifies ttl rpc at k j (some old) entry e = ground (arith, eq_iff k j)

  entry_step-lands :
      (ttl : ℕ) (rpc : Rpc) (at : Clock) (k j : String) (o : Option CacheEntry) (entry : CacheEntry)
      → entry_step u ttl (lands rpc at k) j o ≡ some entry
      → (o ≡ some entry)
        ⊎ ((k ≡ j)
            × (fetch u rpc at.stamped k ≡ ok entry.val)
            × (entry.expires_at ≡ at.stored + ttl))
  entry_step-lands ttl rpc at k j o entry e = ground (arith, eq_iff k j)

  entry_step-invalidates :
      (ttl : ℕ) (k j : String) (o : Option CacheEntry) (entry : CacheEntry)
      → entry_step u ttl (invalidates k) j o ≡ some entry
      → (k ≢ j) × (o ≡ some entry)
  entry_step-invalidates ttl k j o entry e = (ground (arith, eq_iff k j), ground arith)

  IsFetched-of_entry :
      (id : String) (calls : List Call) (ttl : ℕ) (entry : CacheEntry)
      → Dict.lookup id (after u calls (new_cache ttl)).m ≡ some entry
      → IsFetched ttl id entry calls
  unfolding new_cache
  IsFetched-of_entry id [] ttl entry e = absurd (ground (arith, lookup-nil {V = CacheEntry} id))
  IsFetched-of_entry id (invalidates k ∷ calls) ttl entry e =
      let c = after u calls (new_cache ttl) in
      let (other, e') =
        entry_step-invalidates c.ttl k id (Dict.lookup id c.m) entry
          (sym (lookup-client_call u (invalidates k) id c) ∙ e) in
      past_invalidate k calls other (IsFetched-of_entry id calls ttl entry e')
  IsFetched-of_entry id (lands rpc at k ∷ calls) ttl entry e =
      let c = after u calls (new_cache ttl) in
      elim (entry_step-lands c.ttl rpc at k id (Dict.lookup id c.m) entry
        (sym (lookup-client_call u (lands rpc at k) id c) ∙ e)) [
          | inl e' ↦ past_landing rpc at k calls (IsFetched-of_entry id calls ttl entry e')
          | inr (same, got, expiry) ↦ rw same (
              landed rpc at calls (rw same at got)
                (expiry ∙ rw (ttl-after calls (new_cache ttl)) refl))
        ]
  IsFetched-of_entry id (verifies rpc at k ∷ calls) ttl entry e =
      let c = after u calls (new_cache ttl) in
      elim (entry_step-verifies c.ttl rpc at k id (Dict.lookup id c.m) entry
        (sym (lookup-client_call u (verifies rpc at k) id c) ∙ e)) [
          | inl e' ↦ past_verify rpc at k calls (IsFetched-of_entry id calls ttl entry e')
          | inr (same, got, expiry) ↦ rw same (
              here rpc at calls (rw same at got)
                (expiry ∙ rw (ttl-after calls (new_cache ttl)) refl))
        ]

  remembered-ok :
      (now : ℕ) (id : String) (r : Result VerifyError VerifyResult) (c : Cache) (out : VerifyResult)
      → (remembered u now id r c).0 ≡ ok out
      → r ≡ ok out
  unfolding remembered
  remembered-ok now id (ok x) c out e = e
  remembered-ok now id (err x) c out e = e

  flown-ok :
      (rpc : Rpc) (at : Clock) (m : Meanwhile) (id : String) (o : Option VerifyResult) (c : Cache)
      (out : VerifyResult)
      → (flown u rpc at m id o c).0 ≡ ok out
      → (o ≡ some out) ⊎ (fetch u rpc at.stamped id ≡ ok out)
  unfolding flown
  flown-ok rpc at m id (some hit) c out e = inl (ground arith)
  flown-ok rpc at m id none c out e =
      inr (remembered-ok at.stored id (fetch u rpc at.stamped id) (m.in_flight c) out e)

  pub looked_up-ok :
      (rpc : Rpc) (at : Clock) (m : Meanwhile) (id : String) (o : Option VerifyResult) (c : Cache)
      (out : VerifyResult)
      → (looked_up u rpc at m id o c).0 ≡ ok out
      → (o ≡ some out)
        ⊎ ((cache_get at.looked_again id (m.before_flight c) ≡ some out)
            ⊎ (fetch u rpc at.stamped id ≡ ok out))
  unfolding looked_up
  looked_up-ok rpc at m id (some hit) c out e = inl (ground arith)
  looked_up-ok rpc at m id none c out e = inr (
      flown-ok rpc at m id (cache_get at.looked_again id (m.before_flight c)) (m.before_flight c)
        out e)

  entry_of_hit :
      (now : ℕ) (o : Option CacheEntry) (out : VerifyResult)
      → fresh_at now o ≡ some out
      → (entry : CacheEntry) × (o ≡ some entry) × (entry.val ≡ out) × (now ≤ entry.expires_at)
  entry_of_hit now none out e = cc
  entry_of_hit now (some entry) out e = (entry, refl, ground arith, ground arith)

  pub from_cache :
      (now : ℕ) (id : String) (calls : List Call) (ttl : ℕ) (out : VerifyResult)
      → cache_get now id (after u calls (new_cache ttl)) ≡ some out
      → (entry : CacheEntry) × (entry.val ≡ out)
        × (now ≤ entry.expires_at)
        × IsFetched ttl id entry calls
  unfolding cache_get
  from_cache now id calls ttl out e =
      let (entry, found, same, in_time) =
        entry_of_hit now (Dict.lookup id (after u calls (new_cache ttl)).m) out e in
      (entry, same, in_time, IsFetched-of_entry id calls ttl entry found)
