-- ===== src/Witness/L3.antt =====
-- The L3 coverage scope (protobuf field 13) and recall evidence (field 14) of a certificate.
pub mod Blank
pub mod Words
pub mod Tally
pub mod Lines
pub mod Narrative
use lucairn_enterprise_deplo.Base.{ℕ, String, Bool, false, Option, none, some, List, []}

pub record L3CoveredField : Type 0 where
  pub field_key : String
  pub via : String
  pub receipt_id : String
  pub source_claim_id : String

pub record L3ExcludedField : Type 0 where
  pub field_key : String
  pub zone : String
  pub reason : String

pub record L3CoverageScope : Type 0 where
  pub record_status : String
  pub granted : Bool
  pub reason : String
  pub eligible_count : ℕ
  pub covered : List L3CoveredField
  pub excluded : List L3ExcludedField
  pub eligible_not_covered : List String

-- The counts are uint32.
pub record L3FieldEvidence : Type 0 where
  pub field_key : String
  pub verdict : String
  pub reason : String
  pub canaries_planted : ℕ
  pub canaries_recovered : ℕ
  pub windows : ℕ
  pub probed_windows : ℕ

pub record L3CoverageEvidence : Type 0 where
  pub record_status : String
  pub derivation_version : String
  pub drives_verdict : Bool
  pub rollup : String
  pub fields : List L3FieldEvidence
  pub canaries_planted : ℕ
  pub canaries_recovered : ℕ
  pub fields_passed : ℕ
  pub fields_failed : ℕ
  pub fields_absent : ℕ
  pub composed_green : Bool
  pub composed_reason : String

-- The getters of a nil message give the zero values.
abbrev pub zero_scope : L3CoverageScope
zero_scope = record {
  record_status = "";
  granted = false;
  reason = "";
  eligible_count = 0;
  covered = [];
  excluded = [];
  eligible_not_covered = [];
}

abbrev pub zero_evidence : L3CoverageEvidence
zero_evidence = record {
  record_status = "";
  derivation_version = "";
  drives_verdict = false;
  rollup = "";
  fields = [];
  canaries_planted = 0;
  canaries_recovered = 0;
  fields_passed = 0;
  fields_failed = 0;
  fields_absent = 0;
  composed_green = false;
  composed_reason = "";
}
