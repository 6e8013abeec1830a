-- ===== src/Witness/Client/Trace.antt =====
-- What a call of the client does to the entry under one key.
use lucairn_enterprise_deplo.Base.{
  ℕ, ◌+◌, String, ◌≡◌, refl, Option, none, some, List, [], ◌∷◌, arith, eq_iff, str_eq,
  if◌then◌else◌, Result, ok, err,
}
use lucairn_enterprise_deplo.Base.Dict
use lucairn_enterprise_deplo.Base.Dict.{lookup-erase, lookup-insert}
use lucairn_enterprise_deplo.Witness.Client.Report.{VerifyResult, Unicode}
use lucairn_enterprise_deplo.Witness.Client.{
  CacheEntry, Cache, fresh_at, cache_get, cache_put, cache_delete, VerifyError, Rpc, Clock, fetch,
  alone, remembered, flown, looked_up, verify, invalidate,
}

pub data Call : Type 0 where
  -- A `Verify` during which no other call touches the cache.
  verifies : Rpc → Clock → String → Call
  -- What a `Verify` that began earlier, beside other calls, does to the cache at its end: its fetch is
  -- stored.
  lands : Rpc → Clock → String → Call
  invalidates : String → Call

module _ (u : Unicode) where
  abbrev pub client_call : Call → Cache → Cache
  client_call (verifies rpc at request_id) c = (verify u rpc at alone request_id c).1
  client_call (lands rpc at request_id) c =
      (remembered u at.stored request_id (fetch u rpc at.stamped request_id) c).1
  client_call (invalidates request_id) c = invalidate request_id c

  -- The calls made so far, the last one first.
  abbrev pub after : List Call → Cache → Cache
  after [] c = c
  after (call ∷ calls) c = client_call call (after calls c)

  abbrev remembered_entry :
      ℕ → Result VerifyError VerifyResult → Option CacheEntry → Option CacheEntry
  remembered_entry expires_at (ok out) o = some (record { val = out; expires_at = expires_at })
  remembered_entry expires_at (err e) o = o

  abbrev unless_hit :
      Option VerifyResult → Option CacheEntry → Option CacheEntry → Option CacheEntry
  unless_hit (some hit) o o' = o
  unless_hit none o o' = o'

  -- The entry under `j` after a call.
  abbrev pub entry_step : ℕ → Call → String → Option CacheEntry → Option CacheEntry
  entry_step ttl (verifies rpc at k) j o =
      if str_eq k ""
      then o
      else if str_eq k j
      then unless_hit (fresh_at at.looked o) o (
          unless_hit (fresh_at at.looked_again o) o
            (remembered_entry (at.stored + ttl) (fetch u rpc at.stamped k) o))
      else o
  entry_step ttl (lands rpc at k) j o =
      if str_eq k j then remembered_entry (at.stored + ttl) (fetch u rpc at.stamped k) o else o
  entry_step ttl (invalidates k) j o = if str_eq k j then none else o

  lookup-remembered :
      (now : ℕ) (k j : String) (r : Result VerifyError VerifyResult) (c : Cache)
      → Dict.lookup j (remembered u now k r c).1.m ≡ (
          if str_eq k j
          then remembered_entry (now + c.ttl) r (Dict.lookup j c.m)
          else Dict.lookup j c.m)
  unfolding remembered cache_put
  lookup-remembered now k j (ok out) c = lookup-insert k j _ c.m
  lookup-remembered now k j (err e) c = ground arith

  ttl-remembered :
      (now : ℕ) (k : String) (r : Result VerifyError VerifyResult) (c : Cache)
      → (remembered u now k r c).1.ttl ≡ c.ttl
  unfolding remembered cache_put
  ttl-remembered now k (ok out) c = refl
  ttl-remembered now k (err e) c = refl

  module _ (rpc : Rpc) (at : Clock) (k : String) (c : Cache) where
    lookup-flown :
        (j : String) (o : Option VerifyResult)
        → Dict.lookup j (flown u rpc at alone k o c).1.m ≡ (
            if str_eq k j
            then unless_hit o (Dict.lookup j c.m) (
                remembered_entry (at.stored + c.ttl) (fetch u rpc at.stamped k) (Dict.lookup j c.m))
            else Dict.lookup j c.m)
    unfolding flown
    lookup-flown j (some hit) = ground arith
    lookup-flown j none = lookup-remembered at.stored k j (fetch u rpc at.stamped k) c

    ttl-flown : (o : Option VerifyResult) → (flown u rpc at alone k o c).1.ttl ≡ c.ttl
    unfolding flown
    ttl-flown (some hit) = refl
    ttl-flown none = ttl-remembered at.stored k (fetch u rpc at.stamped k) c

    lookup-looked_up :
        (j : String) (o : Option VerifyResult)
        → Dict.lookup j (looked_up u rpc at alone k o c).1.m ≡ (
            if str_eq k j
            then unless_hit o (Dict.lookup j c.m) (
                unless_hit (cache_get at.looked_again k c) (Dict.lookup j c.m) (
                  remembered_entry
                    (at.stored + c.ttl)
                    (fetch u rpc at.stamped k)
                    (Dict.lookup j c.m)))
            else Dict.lookup j c.m)
    unfolding looked_up
    lookup-looked_up j (some hit) = ground arith
    lookup-looked_up j none = lookup-flown j (cache_get at.looked_again k c)

    ttl-looked_up : (o : Option VerifyResult) → (looked_up u rpc at alone k o c).1.ttl ≡ c.ttl
    unfolding looked_up
    ttl-looked_up (some hit) = refl
    ttl-looked_up none = ttl-flown (cache_get at.looked_again k c)

  pub ttl-client_call : (call : Call) (c : Cache) → (client_call call c).ttl ≡ c.ttl
  unfolding verify invalidate cache_delete
  ttl-client_call (verifies rpc at k) c =
      ground (arith, ttl-looked_up rpc at k c (cache_get at.looked k c))
  ttl-client_call (lands rpc at k) c = ttl-remembered at.stored k (fetch u rpc at.stamped k) c
  ttl-client_call (invalidates k) c = refl

  pub lookup-client_call :
      (call : Call) (j : String) (c : Cache)
      → Dict.lookup j (client_call call c).m ≡ entry_step c.ttl call j (Dict.lookup j c.m)
  unfolding verify invalidate cache_delete cache_get
  lookup-client_call (verifies rpc at k) j c =
      ground (arith, lookup-looked_up rpc at k c j (cache_get at.looked k c), eq_iff k j)
  lookup-client_call (lands rpc at k) j c =
      lookup-remembered at.stored k j (fetch u rpc at.stamped k) c
  lookup-client_call (invalidates k) j c = lookup-erase k j c.m
