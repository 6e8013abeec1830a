-- ===== src/Witness/Client/Report.antt =====
-- mapVerifyResult and the words of a VerifyResult (verify_client.go, and L3CompletenessWithCaveat of
-- l3_coverage_narrative.go).
pub mod Claims
use Prim.Native.Char.{Char}
use Prim.Native.String.{[] as no_text, ◌∷◌ as then_char}
use lucairn_enterprise_deplo.Base.{
  ℕ, ◌/◌, ◌%◌, String, Bool, true, false, not, Option, none, some, List, [], ◌∷◌, map, any, ◌==◌,
  str_eq, if◌then◌else◌,
}
use lucairn_enterprise_deplo.Base.Text.{◌++◌, decimal, trim_space, has_prefix}
use lucairn_enterprise_deplo.Witness.L3.{L3CoverageScope, L3CoverageEvidence}
use lucairn_enterprise_deplo.Witness.L3.Narrative.{L3CoverageNarrative, build_l3_coverage_narrative}

-- The case mapping of Unicode: strings.ToLower and unicode.ToUpper
pub record Unicode : Type 0 where
  pub to_lower : String → String
  pub to_upper : Char → Char

-- The enums have the values of the protobuf file.
pub data Verdict : Type 0 where
  verdict_unspecified verdict_verified verdict_partial verdict_failed : Verdict

pub data Completeness : Type 0 where
  completeness_unspecified completeness_full completeness_partial : Completeness

pub data ClaimType : Type 0 where
  claim_type_token_generated claim_type_pii_sanitized claim_type_inference_completed : ClaimType
  claim_type_events_recorded claim_type_unspecified : ClaimType

-- A byte string is the list of its bytes.
pub record SubClaim : Type 0 where
  pub claim_type : ClaimType
  pub service_id : String
  pub signature : List ℕ
  pub canonical_payload : List ℕ

-- The log index of the transparency log is an int64, here below 2^63.
pub record TransparencyLog : Type 0 where
  pub log_index : ℕ
  pub inclusion_proof : List ℕ

pub record Attestation : Type 0 where
  pub timestamp : Option (List ℕ)
  pub transparency_log : Option TransparencyLog

pub record VeilCertificate : Type 0 where
  pub certificate_id : String
  pub claims : List SubClaim
  pub attestation : Option Attestation

pub record VerificationResult : Type 0 where
  pub overall_verdict : Verdict
  pub completeness : Completeness
  pub signatures_valid : Bool
  pub byok_exempt : Bool
  pub isolation_verified : Bool
  pub missing_services : List String
  pub l3_coverage_scope : Option L3CoverageScope
  pub l3_coverage_evidence : Option L3CoverageEvidence

-- PubKeyFingerprint and Error, CertURL and Error below, are always empty and left out.
pub record ClaimVerdict : Type 0 where
  pub claim_type : String
  pub verdict : String
  pub signature_hex : String
  pub canonical_payload_hash : String

pub record VerifyResult : Type 0 where
  pub cert_id : String
  pub overall_verdict : String
  pub completeness : String
  pub signatures_valid : Bool
  pub byok_exempt : Bool
  pub isolation_verified : Bool
  pub tsa_timestamp : String
  pub rekor_uuid : String
  pub per_claim : List ClaimVerdict
  pub completeness_display : String
  pub l3_coverage : L3CoverageNarrative
  pub cached_at : ℕ

pub verdict_to_lower : Verdict → String
verdict_to_lower verdict_verified = "verified"
verdict_to_lower verdict_partial = "partial"
verdict_to_lower verdict_failed = "failed"
verdict_to_lower verdict_unspecified = ""

pub completeness_to_lower : Completeness → String
completeness_to_lower completeness_full = "full"
completeness_to_lower completeness_partial = "partial"
completeness_to_lower completeness_unspecified = ""

pub claim_type_to_lower : (String → String) → ClaimType → String
claim_type_to_lower to_lower claim_type_token_generated = "bridge"
claim_type_to_lower to_lower claim_type_pii_sanitized = "sanitizer"
claim_type_to_lower to_lower claim_type_inference_completed = "inference"
claim_type_to_lower to_lower claim_type_events_recorded = "audit"
claim_type_to_lower to_lower claim_type_unspecified = to_lower "UNSPECIFIED"

abbrev completeness_meaning : String
completeness_meaning =
    "completeness describes the CLAIM CHAIN (which pipeline claims are present and "
    ++ "verified), not detection recall - see coverage below"

capitalize_first : (Char → Char) → String → String
capitalize_first to_upper no_text = ""
capitalize_first to_upper (then_char c s) = then_char (to_upper c) s

abbrev or_unspecified : String → String
or_unspecified word = if str_eq word "" then "Unspecified" else word

pub completeness_with_caveat : (Char → Char) → String → String
unfolding capitalize_first
completeness_with_caveat to_upper completeness =
    or_unspecified (capitalize_first to_upper completeness) ++ " - " ++ completeness_meaning

hex_digit : ℕ → String
hex_digit n =
    if n == 10
    then "a"
    else if n == 11
    then "b"
    else if n == 12
    then "c"
    else if n == 13
    then "d"
    else if n == 14
    then "e"
    else if n == 15
    then "f"
    else decimal n

-- hex.EncodeToString
pub encode_to_string : List ℕ → String
unfolding hex_digit
encode_to_string [] = ""
encode_to_string (b ∷ bs) = hex_digit (b / 16) ++ hex_digit (b % 16) ++ encode_to_string bs

token_of : Option (List ℕ) → String
token_of none = ""
token_of (some tok) = encode_to_string tok

log_of : Option TransparencyLog → String
log_of none = ""
log_of (some tl) =
    if not (tl.log_index == 0) then decimal tl.log_index else encode_to_string tl.inclusion_proof

anchors : Option Attestation → String × String
unfolding token_of log_of
anchors none = ("", "")
anchors (some att) = (token_of att.timestamp, log_of att.transparency_log)

module _ (u : Unicode) where
  abbrev pub normalized : String → String
  normalized s = u.to_lower (trim_space s)

  abbrev pub is_missing : VerificationResult → String → Bool
  is_missing result name = any (λ ms. str_eq (normalized ms) name) result.missing_services

  pub claim_verdict : VerificationResult → SubClaim → ClaimVerdict
  claim_verdict result claim =
      let ct = claim_type_to_lower u.to_lower claim.claim_type in
      record {
        claim_type = ct;
        verdict =
            if not result.signatures_valid
            then "fail"
            else if is_missing result ct
            then "fail"
            else if is_missing result (normalized claim.service_id)
            then "fail"
            else "ok";
        signature_hex = encode_to_string claim.signature;
        canonical_payload_hash = encode_to_string claim.canonical_payload;
      }

  unfoldable pub map_verify_result :
      String → VeilCertificate → VerificationResult → ℕ → VerifyResult
  unfolding claim_verdict anchors
  map_verify_result cert_id cert result now =
      let completeness = completeness_to_lower result.completeness in
      record {
        cert_id = cert_id;
        overall_verdict = verdict_to_lower result.overall_verdict;
        completeness = completeness;
        signatures_valid = result.signatures_valid;
        byok_exempt = result.byok_exempt;
        isolation_verified = result.isolation_verified;
        tsa_timestamp = (anchors cert.attestation).0;
        rekor_uuid = (anchors cert.attestation).1;
        per_claim = map (claim_verdict result) cert.claims;
        completeness_display = completeness_with_caveat u.to_upper completeness;
        l3_coverage =
            build_l3_coverage_narrative result.l3_coverage_scope result.l3_coverage_evidence;
        cached_at = now;
      }
