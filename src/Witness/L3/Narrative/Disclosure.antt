-- ===== src/Witness/L3/Narrative/Disclosure.antt =====
-- The narrative of l3_coverage_narrative.go against the names in the records.
use lucairn_enterprise_deplo.Base.{◌≡◌, refl, Option, none, some, String}
use lucairn_enterprise_deplo.Witness.L3.{L3CoverageScope, L3CoverageEvidence}
use lucairn_enterprise_deplo.Witness.L3.Blank.{blank_scope, blank_evidence}
use lucairn_enterprise_deplo.Witness.L3.Tally.Blind.{
  tally_evidence-blank, checked_windows-blank, recall_fields_consistent-blank,
}
use lucairn_enterprise_deplo.Witness.L3.Lines.Blind.{
  scope_line-blank, evidence_absent_suffix-blank, no_verdict_detail_suffix-blank,
}
use lucairn_enterprise_deplo.Witness.L3.Narrative.{
  verified_line, failed_line, unverified_line, absent_line, rollup_line, evidence_line,
  label_withheld, label_line, v2_line, legacy_line, composed_line, build_l3_coverage_narrative,
}

abbrev pub without_names : {A : Type 0} → (A → A) → Option A → Option A
without_names f none = none
without_names f (some a) = some (f a)

evidence_line-blank :
    (ev : L3CoverageEvidence) (status : String)
    → evidence_line (blank_evidence ev) status ≡ evidence_line ev status
unfolding evidence_line rollup_line verified_line failed_line unverified_line absent_line
evidence_line-blank ev status =
    rw
      (
        tally_evidence-blank ev,
        checked_windows-blank ev,
        evidence_absent_suffix-blank ev,
        no_verdict_detail_suffix-blank ev,
      )
      refl

composed_line-blank :
    (ev : L3CoverageEvidence) (status : String)
    → composed_line (blank_evidence ev) status ≡ composed_line ev status
unfolding composed_line v2_line legacy_line label_line label_withheld
composed_line-blank ev status =
    rw (checked_windows-blank ev, recall_fields_consistent-blank ev) refl

-- The narrative is a function of the records without the names of the fields, zones, receipts and
-- claims in them: two pairs of records that differ in these only have the same narrative.
pub build_l3_coverage_narrative-without_names :
    (scope : Option L3CoverageScope) (evidence : Option L3CoverageEvidence)
    → build_l3_coverage_narrative
        (without_names blank_scope scope)
        (without_names blank_evidence evidence)
      ≡ build_l3_coverage_narrative scope evidence
unfolding build_l3_coverage_narrative
build_l3_coverage_narrative-without_names none none = refl
build_l3_coverage_narrative-without_names none (some ev) =
    rw (evidence_line-blank ev, composed_line-blank ev) refl
build_l3_coverage_narrative-without_names (some s) none = rw (scope_line-blank s) refl
build_l3_coverage_narrative-without_names (some s) (some ev) =
    rw (scope_line-blank s, evidence_line-blank ev, composed_line-blank ev) refl
