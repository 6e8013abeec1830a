-- ===== src/Witness/L3/Narrative/Absence.antt =====
-- What the lines say of a record that is absent or unreadable.
use lucairn_enterprise_deplo.Base.{
  String, ◌≡◌, ◌≢◌, refl, sym, ◌∙◌, ◌↔◌, Bool, true, false, not, Option, arith, ltb, ◌&&◌, eq_iff,
  str_eq, Bool-cases, inl, inr,
}
use lucairn_enterprise_deplo.Base.Text.{has_prefix}
use lucairn_enterprise_deplo.Witness.L3.{L3CoverageScope, L3CoverageEvidence}
use lucairn_enterprise_deplo.Witness.L3.Lines.{v2, scope_line}
use lucairn_enterprise_deplo.Witness.L3.Tally.{tally_evidence}
use lucairn_enterprise_deplo.Witness.L3.Narrative.{
  got_scope, status_of_scope, status_of_evidence, got_evidence, verified_line, failed_line,
  unverified_line, absent_line, rollup_line, evidence_line, composed_line,
  build_l3_coverage_narrative,
}
use lucairn_enterprise_deplo.Witness.L3.Narrative.Label.{composed_line-claims_iff}

abbrev claims_success : String → Bool
claims_success line = has_prefix "Coverage evidence check passed" line

rollup_line_claims :
    (ev : L3CoverageEvidence) → claims_success (rollup_line ev) ≡ str_eq ev.rollup "verified"
unfolding rollup_line verified_line failed_line unverified_line absent_line
rollup_line_claims ev = elim (Bool-cases (str_eq ev.rollup "verified")) [
  | inl e ↦ rw e refl
  | inr e ↦ rw e (elim (Bool-cases (str_eq ev.rollup "failed")) [
    | inl e ↦ rw e refl
    | inr e ↦ rw e (elim (Bool-cases (str_eq ev.rollup "unverified")) [
      | inl e ↦ rw e refl
      | inr e ↦ rw e (elim (Bool-cases (str_eq ev.rollup "absent")) [
        | inl e ↦ rw e (elim (Bool-cases (ltb 0 (tally_evidence ev).partly_probed_fields)) [
          | inl e ↦ rw e refl
          | inr e ↦ rw e refl
        ])
        | inr e ↦ rw e refl
      ])
    ])
  ])
]

evidence_line_claims :
    (ev : L3CoverageEvidence) (status : String)
    → claims_success (evidence_line ev status) ≡ (
        str_eq status "present"
        && (not (str_eq ev.derivation_version v2) && str_eq ev.rollup "verified"))
unfolding evidence_line
evidence_line_claims ev status = elim (Bool-cases (str_eq status "present")) [
  | inl e ↦ rw e (elim (Bool-cases (str_eq ev.derivation_version v2)) [
    | inl u ↦ rw u refl
    | inr u ↦ rw (u, rollup_line_claims) refl
  ])
  | inr e ↦ rw e refl
]

-- The evidence line says that the coverage check passed exactly when the record is present, is not
-- of version 2, and has the rollup "verified".
pub evidence_line-claims_iff :
    (ev : L3CoverageEvidence) (status : String)
    → (has_prefix "Coverage evidence check passed" (evidence_line ev status) ≡ true)
      ↔ ((status ≡ "present") × (ev.derivation_version ≢ v2) × (ev.rollup ≡ "verified"))
evidence_line-claims_iff ev status =
    let e1 = eq_iff status "present" in
    let e2 = eq_iff ev.derivation_version v2 in
    let e3 = eq_iff ev.rollup "verified" in
    (
      λ h.
          let h2 = sym (evidence_line_claims ev status) ∙ h in
          (ground (arith, e1, e2, e3), ground (arith, e1, e2, e3), ground (arith, e1, e2, e3)),
      λ (a, b, c). evidence_line_claims ev status ∙ ground (arith, e1, e2, e3),
    )

differs : (a b : String) → a ≢ b → str_eq a b ≡ false
differs a b h = ground (arith, eq_iff a b)

scope_line_absent :
    (s : L3CoverageScope) (status : String)
    → str_eq status "present" ≡ false
    → has_prefix "Coverage scope unavailable" (scope_line s status) ≡ true
unfolding scope_line
scope_line_absent s status e = rw e refl

evidence_line_absent :
    (ev : L3CoverageEvidence) (status : String)
    → str_eq status "present" ≡ false
    → has_prefix "Recall evidence unavailable" (evidence_line ev status) ≡ true
unfolding evidence_line
evidence_line_absent ev status e = rw e refl

composed_line_absent :
    (ev : L3CoverageEvidence) (status : String)
    → status ≢ "present"
    → has_prefix "Recall check passed" (composed_line ev status) ≡ false
composed_line_absent ev status h =
    elim (Bool-cases (has_prefix "Recall check passed" (composed_line ev status))) [
      | inl e ↦ absurd (h ((composed_line-claims_iff ev status).0 e).present)
      | inr e ↦ e
    ]

-- When the statuses of both records are other than "present", as when a record is missing, the
-- scope line and the evidence line say that there is nothing to show, and neither the evidence
-- line nor the composed line claims success, whatever the rest of the records holds.
pub build_l3_coverage_narrative-absent :
    (scope : Option L3CoverageScope) (evidence : Option L3CoverageEvidence)
    → status_of_scope scope ≢ "present"
    → status_of_evidence evidence ≢ "present"
    → (has_prefix "Coverage scope unavailable" (build_l3_coverage_narrative scope evidence).scope
        ≡ true)
      × (has_prefix "Recall evidence unavailable"
            (build_l3_coverage_narrative scope evidence).evidence
          ≡ true)
      × (has_prefix "Coverage evidence check passed"
            (build_l3_coverage_narrative scope evidence).evidence
          ≡ false)
      × (has_prefix "Recall check passed" (build_l3_coverage_narrative scope evidence).composed
          ≡ false)
unfolding build_l3_coverage_narrative
build_l3_coverage_narrative-absent scope evidence h k =
    let e = differs (status_of_scope scope) "present" h in
    let d = differs (status_of_evidence evidence) "present" k in
    (
      scope_line_absent (got_scope scope) (status_of_scope scope) e,
      evidence_line_absent (got_evidence evidence) (status_of_evidence evidence) d,
      evidence_line_claims (got_evidence evidence) (status_of_evidence evidence) ∙ rw d refl,
      composed_line_absent (got_evidence evidence) (status_of_evidence evidence) k,
    )
