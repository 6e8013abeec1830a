-- ===== src/Tests/L3.antt =====
-- The L3 narrative of concrete records.
use lucairn_enterprise_deplo.Base.{String, ◌≡◌, ◌↔◌, true, false, some, [], ◌∷◌, arith}
use lucairn_enterprise_deplo.Base.Text.{has_prefix}
use lucairn_enterprise_deplo.Witness.L3.{
  L3ExcludedField, L3CoverageScope, L3FieldEvidence, L3CoverageEvidence,
}
use lucairn_enterprise_deplo.Witness.L3.Blank.{blank_scope, blank_evidence}
use lucairn_enterprise_deplo.Witness.L3.Tally.{recall_fields_consistent}
use lucairn_enterprise_deplo.Witness.L3.Tally.Counts.{IsBorneOut, recall_fields_consistent_iff}
use lucairn_enterprise_deplo.Witness.L3.Lines.{v2}
use lucairn_enterprise_deplo.Witness.L3.Lines.Ledger.{occurrences}
use lucairn_enterprise_deplo.Witness.L3.Narrative.{composed_line, build_l3_coverage_narrative}
use lucairn_enterprise_deplo.Witness.L3.Narrative.Label.{IsLabelled, composed_line-claims_iff}
use lucairn_enterprise_deplo.Witness.L3.Narrative.Disclosure.{
  build_l3_coverage_narrative-without_names,
}

abbrev row : L3FieldEvidence
row = record {
  field_key = "messages.0";
  verdict = "passed";
  reason = "";
  canaries_planted = 4;
  canaries_recovered = 4;
  windows = 2;
  probed_windows = 2;
}

abbrev evidence : L3CoverageEvidence
evidence = record {
  record_status = "present";
  derivation_version = v2;
  drives_verdict = false;
  rollup = "verified";
  fields = row ∷ [];
  canaries_planted = 4;
  canaries_recovered = 4;
  fields_passed = 1;
  fields_failed = 0;
  fields_absent = 0;
  composed_green = true;
  composed_reason = "scope_and_recall_satisfied";
}

abbrev system : L3ExcludedField
system = record { field_key = "system"; zone = "z"; reason = "zone_policy_skip" }

abbrev tool : L3ExcludedField
tool = record { field_key = "tool"; zone = "z"; reason = "caller_skipped" }

abbrev scope : L3CoverageScope
scope = record {
  record_status = "present";
  granted = true;
  reason = "";
  eligible_count = 1;
  covered = [];
  excluded = system ∷ tool ∷ [];
  eligible_not_covered = "x" ∷ [];
}

abbrev unreadable : L3CoverageScope
unreadable = record scope { record_status = "undecodable" }

recall_fields_consistent_iff_example :
    (recall_fields_consistent evidence ≡ true) ↔ IsBorneOut evidence
recall_fields_consistent_iff_example = recall_fields_consistent_iff evidence

composed_line-claims_iff_example :
    (has_prefix "Recall check passed" (composed_line evidence "present") ≡ true)
    ↔ IsLabelled evidence "present"
composed_line-claims_iff_example = composed_line-claims_iff evidence "present"

build_l3_coverage_narrative-without_names_example :
    build_l3_coverage_narrative (some (blank_scope scope)) (some (blank_evidence evidence))
    ≡ build_l3_coverage_narrative (some scope) (some evidence)
build_l3_coverage_narrative-without_names_example =
    build_l3_coverage_narrative-without_names (some scope) (some evidence)

swapped : (r : String) → occurrences r (system ∷ tool ∷ []) ≡ occurrences r (tool ∷ system ∷ [])
swapped r = ground arith
