-- ===== src/Witness/Client/Report/Claims.antt =====
-- When every claim of a certificate is shown as "ok".
use lucairn_enterprise_deplo.Base.{
  ℕ, String, ◌≡◌, refl, sym, if◌then◌else◌, ◌↔◌, Bool, true, false, not, List, [], ◌∷◌, map, all,
  arith, str_eq, All,
}
use lucairn_enterprise_deplo.Witness.Client.Report.{
  SubClaim, VeilCertificate, VerificationResult, Unicode, normalized, is_missing,
  claim_type_to_lower, claim_verdict, map_verify_result,
}

ok_choice :
    (valid a b : Bool)
    → (str_eq (if not valid then "fail" else if a then "fail" else if b then "fail" else "ok") "ok"
        ≡ true)
      ↔ ((valid ≡ true) × (a ≡ false) × (b ≡ false))
ok_choice false a b = (λ h. absurd (cc h), λ (h, _, _). h)
ok_choice true true b = (λ h. absurd (cc h), λ (_, h, _). sym h)
ok_choice true false true = (λ h. absurd (cc h), λ (_, _, h). sym h)
ok_choice true false false = (λ h. (refl, refl, refl), λ h. refl)

module _ (u : Unicode) (result : VerificationResult) where
  -- The claim is in the chain: neither its type nor its service was reported missing.
  pub record IsPresent (claim : SubClaim) : Type 0 where
    pub type_present : is_missing u result (claim_type_to_lower u.to_lower claim.claim_type) ≡ false
    pub service_present : is_missing u result (normalized u claim.service_id) ≡ false

  abbrev is_ok : SubClaim → Bool
  is_ok claim = str_eq (claim_verdict u result claim).verdict "ok"

  is_ok_iff :
      (claim : SubClaim)
      → (is_ok claim ≡ true) ↔ ((result.signatures_valid ≡ true) × IsPresent claim)
  unfolding claim_verdict
  is_ok_iff claim =
      let choice =
        ok_choice result.signatures_valid
          (is_missing u result (claim_type_to_lower u.to_lower claim.claim_type))
          (is_missing u result (normalized u claim.service_id)) in
      (
        λ h. let (v, t, s) = choice.0 h in (v, record { type_present = t; service_present = s }),
        λ (v, p). choice.1 (v, p.type_present, p.service_present),
      )

  all_ok_iff :
      (claims : List SubClaim)
      → (all (λ v. str_eq v.verdict "ok") (map (claim_verdict u result) claims) ≡ true)
        ↔ All (λ claim. (result.signatures_valid ≡ true) × IsPresent claim) claims
  all_ok_iff [] = (λ h. tt, λ h. refl)
  all_ok_iff (claim ∷ claims) =
      let one = is_ok_iff claim in
      let rest = all_ok_iff claims in
      (
        λ h. (one.0 (ground arith), rest.0 (ground arith)),
        λ (h, hs). let a = one.1 h in let b = rest.1 hs in rw (a, b) refl,
      )

-- The inspector shows "ok" at every claim of a certificate exactly when, for each of its claims,
-- the signatures are valid and the missing services name neither the claim's type nor its service.
pub per_claim-map_verify_result_iff :
    (u : Unicode) (id : String) (cert : VeilCertificate) (result : VerificationResult) (now : ℕ)
    → (all (λ v. str_eq v.verdict "ok") (map_verify_result u id cert result now).per_claim ≡ true)
      ↔ All (λ claim. (result.signatures_valid ≡ true) × IsPresent u result claim) cert.claims
unfolding map_verify_result
per_claim-map_verify_result_iff u id cert result now = all_ok_iff u result cert.claims
