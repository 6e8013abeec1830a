-- ===== src/Tests/Client.antt =====
-- Runs of the witness client.
use mathlib.Core.List.{◌++◌ as append}
use lucairn_enterprise_deplo.Base.{
  ℕ, ◌≤◌, ◌≡◌, refl, ◌⊎◌, true, false, none, some, List, [], ◌∷◌, arith, ok,
}
use lucairn_enterprise_deplo.Base.Text.{apart}
use lucairn_enterprise_deplo.Base.Dict.{dict_runs, lookup-nil}
use lucairn_enterprise_deplo.Witness.Client.Report.{
  VeilCertificate, VerificationResult, VerifyResult, Unicode, claim_type_pii_sanitized,
  verdict_verified, completeness_full, map_verify_result,
}
use lucairn_enterprise_deplo.Witness.Client.{
  CacheEntry, Cache, new_cache, Rpc, Clock, fetch, alone, verify, invalidate, cache_get, cache_put,
  cache_delete,
}
use lucairn_enterprise_deplo.Witness.Client.Trace.{Call, verifies, lands, invalidates, after}
use lucairn_enterprise_deplo.Witness.Client.Fetched.{IsFetched}
use lucairn_enterprise_deplo.Witness.Client.Freshness.{
  beside, verify-after_origin, verify-after-invalidate, verify-after_cached,
}

abbrev pub plain : Unicode
plain = record { to_lower = λ s. s; to_upper = λ c. c }

abbrev certificate : VeilCertificate
certificate = record {
  certificate_id = "cert-1";
  claims =
      record {
        claim_type = claim_type_pii_sanitized;
        service_id = "dsa-sanitizer";
        signature = 255 ∷ [];
        canonical_payload = 16 ∷ [];
      }
      ∷ [];
  attestation = none;
}

abbrev valid : VerificationResult
valid = record {
  overall_verdict = verdict_verified;
  completeness = completeness_full;
  signatures_valid = true;
  byok_exempt = false;
  isolation_verified = true;
  missing_services = "dsa-bridge" ∷ [];
  l3_coverage_scope = none;
  l3_coverage_evidence = none;
}

abbrev pub up : Rpc
up = record { get_certificate = λ id. some certificate; verify_certificate = λ cert. some valid }

abbrev pub down : Rpc
down = record { get_certificate = λ id. none; verify_certificate = λ cert. none }

abbrev pub clock : ℕ → Clock
clock t = record { looked = t; looked_again = t; stamped = t; stored = t }

abbrev pub answer : ℕ → VerifyResult
answer t = map_verify_result plain "cert-1" certificate valid t

fetches : (t : ℕ) → fetch plain up t "r-1" ≡ ok (answer t)
unfolding fetch
fetches t = refl

abbrev empty : Cache
empty = record { m = []; ttl = 30 }

-- An earlier call for the key, and one for another.
abbrev history : List Call
history = verifies down (clock 12) "r-2" ∷ verifies up (clock 5) "r-1" ∷ []

-- Calls during a call.
abbrev meanwhile : List Call
meanwhile = invalidates "r-2" ∷ []

answered :
    (verify plain down
      (clock 20)
      (beside plain meanwhile [])
      "r-1"
      (after plain history (new_cache 30))).0
    ≡ ok (answer 5)
unfolding verify fetch new_cache cache_get cache_put dict_runs
answered = refl

verify-after_origin_example :
    (fetch plain down 20 "r-1" ≡ ok (answer 5))
    ⊎ ((entry : CacheEntry) × (entry.val ≡ answer 5)
        × (20 ≤ entry.expires_at)
        × (IsFetched plain 30 "r-1" entry history
            ⊎ IsFetched plain 30 "r-1" entry (append meanwhile history)))
verify-after_origin_example =
    verify-after_origin plain down (clock 20) meanwhile [] "r-1" history 30 (answer 5) (omega arith)
      answered

verify-after-invalidate_example :
    (verify plain up (clock 20) (beside plain meanwhile (lands up (clock 4) "r-1" ∷ [])) "r-1" (
      after plain
        (verifies down (clock 12) "r-2" ∷ [])
        (invalidate "r-1" (after plain history (new_cache 30))))).0
    ≡ fetch plain up 20 "r-1"
verify-after-invalidate_example =
    verify-after-invalidate plain up (clock 20) meanwhile (lands up (clock 4) "r-1" ∷ []) "r-1"
      (verifies down (clock 12) "r-2" ∷ []) (after plain history (new_cache 30))
      (apart "r-1" "" refl) (apart "r-2" "r-1" refl, tt) (tt, tt)

verify-after_cached_example :
    (verify plain down (clock 35) (beside plain meanwhile []) "r-1" (
      after plain
        (invalidates "r-2" ∷ verifies up (clock 12) "r-1" ∷ [])
        (verify plain up (clock 5) alone "r-1" empty).1)).0
    ≡ ok (answer 5)
verify-after_cached_example =
    verify-after_cached plain up down (clock 5) (clock 35) (beside plain meanwhile []) "r-1"
      (invalidates "r-2" ∷ verifies up (clock 12) "r-1" ∷ []) empty (answer 5) (apart "r-1" "" refl)
      (lookup-nil "r-1") (fetches 5) (apart "r-2" "r-1" refl, (omega arith, tt)) (omega arith)

-- The fetch of a call that was under way at the invalidation is stored after it, and answered.
stale :
    (verify plain down
      (clock 20)
      alone
      "r-1"
      (after plain (lands up (clock 5) "r-1" ∷ invalidates "r-1" ∷ []) (new_cache 30))).0
    ≡ ok (answer 5)
unfolding verify invalidate fetch new_cache cache_get cache_put cache_delete dict_runs
stale = refl
