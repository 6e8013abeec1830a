-- ===== src/Witness/Client.antt =====
-- apps/dashboard/internal/witness/verify_client.go: the client that verifies a certificate over two
-- RPCs and keeps the result for a time. The RPCs are parameters. No lock is held over them: what other
-- calls do to the cache between the first look and the flight, and while the RPCs run, is an argument
-- of `verify`. Of calls that share a flight (singleflight) the flight is modelled: a call that joins it
-- has its answer and changes nothing. Since Invalidate forgets the flight, a second one of the same key
-- can run beside it, so nothing is assumed of the other calls, flights of the same key included.
pub mod Report
pub mod Trace
pub mod Fetched
pub mod Freshness
use lucairn_enterprise_deplo.Base.{
  ℕ, ◌+◌, String, Option, none, some, ltb, str_eq, if◌then◌else◌, Result, ok, err,
}
use lucairn_enterprise_deplo.Base.Dict
use lucairn_enterprise_deplo.Base.Dict.{Dict}
use lucairn_enterprise_deplo.Witness.Client.Report.{
  VeilCertificate, VerificationResult, VerifyResult, Unicode, map_verify_result,
}

pub record CacheEntry : Type 0 where
  pub val : VerifyResult
  pub expires_at : ℕ

pub record Cache : Type 0 where
  pub m : Dict CacheEntry
  pub ttl : ℕ

unfoldable pub new_cache : ℕ → Cache
new_cache ttl = record { m = Dict.new; ttl = ttl }

-- c.now().After(entry.expiresAt)
abbrev pub fresh_at : ℕ → Option CacheEntry → Option VerifyResult
fresh_at now none = none
fresh_at now (some entry) = if ltb entry.expires_at now then none else some entry.val

unfoldable pub cache_get : ℕ → String → Cache → Option VerifyResult
cache_get now key c = fresh_at now (Dict.lookup key c.m)

unfoldable pub cache_put : ℕ → String → VerifyResult → Cache → Cache
cache_put now key val c =
    let entry : CacheEntry = record { val = val; expires_at = now + c.ttl } in
    record c { m = Dict.insert key entry c.m }

unfoldable pub cache_delete : String → Cache → Cache
cache_delete key c = record c { m = Dict.erase key c.m }

pub data VerifyError : Type 0 where
  request_id_required get_certificate_failed verify_certificate_failed : VerifyError

-- The two RPCs during one call; `none` is an error.
pub record Rpc : Type 0 where
  pub get_certificate : String → Option VeilCertificate
  pub verify_certificate : VeilCertificate → Option VerificationResult

-- The readings of the clock during one call, in their order.
pub record Clock : Type 0 where
  pub looked : ℕ
  pub looked_again : ℕ
  pub stamped : ℕ
  pub stored : ℕ

-- What other calls do to the cache during a call of `verify`: between its first look and the look in
-- its flight, and from there until it stores its result.
pub record Meanwhile : Type 0 where
  pub before_flight : Cache → Cache
  pub in_flight : Cache → Cache

abbrev pub alone : Meanwhile
alone = record { before_flight = λ c. c; in_flight = λ c. c }

module _ (u : Unicode) where
  answered : ℕ → VeilCertificate → Option VerificationResult → Result VerifyError VerifyResult
  answered now cert none = err verify_certificate_failed
  answered now cert (some result) = ok (map_verify_result u cert.certificate_id cert result now)

  fetched : Rpc → ℕ → Option VeilCertificate → Result VerifyError VerifyResult
  unfolding answered
  fetched rpc now none = err get_certificate_failed
  fetched rpc now (some cert) = answered now cert (rpc.verify_certificate cert)

  -- GetCertificate, then VerifyCertificate
  unfoldable pub fetch : Rpc → ℕ → String → Result VerifyError VerifyResult
  unfolding fetched
  fetch rpc now request_id = fetched rpc now (rpc.get_certificate request_id)

  pub remembered :
      ℕ → String → Result VerifyError VerifyResult → Cache → Result VerifyError VerifyResult × Cache
  remembered now request_id (ok out) c = (ok out, cache_put now request_id out c)
  remembered now request_id (err e) c = (err e, c)

  -- The body of the flight.
  flown :
      Rpc
      → Clock
      → Meanwhile
      → String
      → Option VerifyResult
      → Cache
      → Result VerifyError VerifyResult × Cache
  unfolding remembered
  flown rpc at meanwhile request_id (some hit) c = (ok hit, c)
  flown rpc at meanwhile request_id none c =
      remembered at.stored request_id (fetch rpc at.stamped request_id) (meanwhile.in_flight c)

  pub looked_up :
      Rpc
      → Clock
      → Meanwhile
      → String
      → Option VerifyResult
      → Cache
      → Result VerifyError VerifyResult × Cache
  unfolding flown
  looked_up rpc at meanwhile request_id (some hit) c = (ok hit, c)
  looked_up rpc at meanwhile request_id none c =
      let c' = meanwhile.before_flight c in
      flown rpc at meanwhile request_id (cache_get at.looked_again request_id c') c'

  unfoldable pub verify :
      Rpc → Clock → Meanwhile → String → Cache → Result VerifyError VerifyResult × Cache
  unfolding looked_up
  verify rpc at meanwhile request_id c =
      if str_eq request_id ""
      then (err request_id_required, c)
      else looked_up rpc at meanwhile request_id (cache_get at.looked request_id c) c

-- The flight that is forgotten with the entry goes on: it stores its result after this.
unfoldable pub invalidate : String → Cache → Cache
invalidate request_id c = cache_delete request_id c
