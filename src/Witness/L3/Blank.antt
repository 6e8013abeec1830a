-- ===== src/Witness/L3/Blank.antt =====
-- The records without what names a field, a zone or a receipt.
use lucairn_enterprise_deplo.Base.{map}
use lucairn_enterprise_deplo.Witness.L3.{
  L3CoveredField, L3ExcludedField, L3CoverageScope, L3FieldEvidence, L3CoverageEvidence,
}

abbrev pub blank_covered : L3CoveredField → L3CoveredField
blank_covered c = record c { field_key = ""; receipt_id = ""; source_claim_id = "" }

abbrev pub blank_excluded : L3ExcludedField → L3ExcludedField
blank_excluded e = record e { field_key = ""; zone = "" }

abbrev pub blank_field : L3FieldEvidence → L3FieldEvidence
blank_field f = record f { field_key = "" }

abbrev pub blank_scope : L3CoverageScope → L3CoverageScope
blank_scope s = record s {
  covered = map blank_covered s.covered;
  excluded = map blank_excluded s.excluded;
  eligible_not_covered = map (λ _. "") s.eligible_not_covered;
}

abbrev pub blank_evidence : L3CoverageEvidence → L3CoverageEvidence
blank_evidence ev = record ev { fields = map blank_field ev.fields }
