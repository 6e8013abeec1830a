-- ===== src/Witness/L3/Narrative.antt =====
-- buildL3EvidenceLine, buildL3ComposedLine and BuildL3CoverageNarrative of
-- l3_coverage_narrative.go.
pub mod Label
pub mod Absence
pub mod Disclosure
use lucairn_enterprise_deplo.Base.{
  ℕ, String, Bool, true, false, not, ◌&&◌, ◌||◌, Option, none, some, ltb, ◌==◌, str_eq,
  if◌then◌else◌,
}
use lucairn_enterprise_deplo.Base.Text.{◌++◌, decimal}
use lucairn_enterprise_deplo.Witness.L3.{
  L3CoverageScope, L3CoverageEvidence, zero_scope, zero_evidence,
}
use lucairn_enterprise_deplo.Witness.L3.Words.{
  quote, record_status_meaning, recall_reason_meaning, composed_reason_meaning,
  early_refusal_reason,
}
use lucairn_enterprise_deplo.Witness.L3.Tally.{
  tally_evidence, checked_windows, recall_fields_consistent,
}
use lucairn_enterprise_deplo.Witness.L3.Lines.{
  v2, coverage_ceiling, coverage_diagnostic_only, recall_diagnostic_only, scope_line,
  evidence_absent_suffix, no_verdict_detail_suffix, checked_windows_phrase,
}

abbrev unavailable_meaning : L3CoverageEvidence → String → String
unavailable_meaning ev status =
    if early_refusal_reason ev.composed_reason
    then recall_reason_meaning ev.composed_reason
    else record_status_meaning status

verified_line : L3CoverageEvidence → String
verified_line ev =
    "Coverage evidence check passed ("
    ++ decimal ev.canaries_recovered
    ++ "/"
    ++ decimal ev.canaries_planted
    ++ " probes recovered) across "
    ++ decimal ev.fields_passed
    ++ " field(s). "
    ++ (if (ev.canaries_recovered == ev.canaries_planted) && ltb 0 ev.canaries_planted
        then "That means the recall CHECK ran on every field carrying one and every planted probe came back."
        else "That means every probed window met the recall threshold in force.")

failed_line : L3CoverageEvidence → String
failed_line ev =
    "Coverage evidence check FAILED - "
    ++ decimal ev.fields_failed
    ++ " field(s) returned fewer planted probes than required ("
    ++ decimal ev.canaries_recovered
    ++ "/"
    ++ decimal ev.canaries_planted
    ++ " recovered across the request; "
    ++ decimal ev.fields_passed
    ++ " field(s) passed, "
    ++ decimal ev.fields_absent
    ++ " field(s) carry no usable verdict"
    ++ no_verdict_detail_suffix ev
    ++ "). A measured miss is positive evidence of a recall gap."

unverified_line : L3CoverageEvidence → String
unverified_line ev =
    let t = tally_evidence ev in
    "Coverage evidence check is INCOMPLETE - "
    ++ decimal ev.fields_passed
    ++ " field(s) passed ("
    ++ decimal t.passed_recovered
    ++ "/"
    ++ decimal t.passed_planted
    ++ " probes recovered) and "
    ++ decimal ev.fields_absent
    ++ " field(s) carry no usable recall-evidence verdict"
    ++ no_verdict_detail_suffix ev
    ++ ". Across the request: "
    ++ decimal ev.canaries_recovered
    ++ "/"
    ++ decimal ev.canaries_planted
    ++ " probes recovered. A partly evidenced request is not a verified one."

absent_line : L3CoverageEvidence → String
absent_line ev =
    if ltb 0 (tally_evidence ev).partly_probed_fields
    then "No field on this request carries a usable recall-evidence verdict"
      ++ no_verdict_detail_suffix ev
      ++ ". Probes recovered on a partly probed field are measured evidence, not a usable verdict."
    else "No field on this request carries a usable recall-evidence verdict"
      ++ evidence_absent_suffix ev
      ++ ". Evidence that does not exist is not evidence of success."

rollup_line : L3CoverageEvidence → String
unfolding verified_line failed_line unverified_line absent_line
rollup_line ev =
    if str_eq ev.rollup "verified"
    then verified_line ev
    else if str_eq ev.rollup "failed"
    then failed_line ev
    else if str_eq ev.rollup "unverified"
    then unverified_line ev
    else if str_eq ev.rollup "absent"
    then absent_line ev
    else "Recall evidence unavailable - the evidence rollup is "
      ++ quote ev.rollup
      ++ ", which this build does not recognise. This is NOT a statement that the scan was clean."

pub evidence_line : L3CoverageEvidence → String → String
unfolding rollup_line
evidence_line ev status =
    if not (str_eq status "present")
    then "Recall evidence unavailable - "
      ++ unavailable_meaning ev status
      ++ ". This is NOT a statement that the scan was clean."
    else if str_eq ev.derivation_version v2
    then "Recall evidence records "
      ++ decimal ev.canaries_recovered
      ++ " of "
      ++ decimal ev.canaries_planted
      ++ " planted test values returned across "
      ++ checked_windows_phrase (checked_windows ev)
      ++ evidence_absent_suffix ev
      ++ "."
    else rollup_line ev

label_withheld : L3CoverageEvidence → String → Bool
label_withheld ev status =
    not (str_eq status "present")
    || not ev.composed_green
    || not (recall_fields_consistent ev)
    || ev.canaries_planted == 0
    || not (ev.canaries_recovered == ev.canaries_planted)
    || checked_windows ev == 0

label_line : L3CoverageEvidence → String → String
unfolding label_withheld
label_line ev status =
    if label_withheld ev status
    then "Recall check unavailable."
    else "Recall check passed: the planted test values were all returned ("
      ++ decimal ev.canaries_recovered
      ++ " of "
      ++ decimal ev.canaries_planted
      ++ ") across "
      ++ checked_windows_phrase (checked_windows ev)
      ++ ". The witness derived this result from the sanitizer's signed record. "
      ++ "This does not say that all personal data in the request was found, and text that was not checked is outside this statement. "
      ++ "Counts are per text window in the record; a window whose result was reused from an earlier checked scan of the identical text counts as checked, and this record does not say how many."

v2_line : L3CoverageEvidence → String → String
unfolding label_line
v2_line ev status =
    if str_eq (recall_reason_meaning ev.composed_reason) "unavailable"
    then "Recall check unavailable."
    else if str_eq ev.composed_reason "scope_and_recall_satisfied"
    then label_line ev status
    else "Recall check not passed - " ++ recall_reason_meaning ev.composed_reason ++ "."

legacy_line : L3CoverageEvidence → String → String
legacy_line ev status =
    if ev.composed_green
    then "Recall check unavailable: this certificate carries an older record format."
    else if not (str_eq status "present")
    then (if early_refusal_reason ev.composed_reason
        then "Recall check not passed - " ++ recall_reason_meaning ev.composed_reason ++ "."
        else "")
    else if str_eq (composed_reason_meaning ev.composed_reason) "unavailable"
    then "Recall check unavailable."
    else "Composed coverage rule (scope AND recall AND named exclusions): NOT granted - "
      ++ composed_reason_meaning ev.composed_reason
      ++ "."

pub composed_line : L3CoverageEvidence → String → String
unfolding v2_line legacy_line
composed_line ev status =
    if str_eq ev.derivation_version v2 then v2_line ev status else legacy_line ev status

pub record L3CoverageNarrative : Type 0 where
  pub scope : String
  pub evidence : String
  pub composed : String
  pub diagnostic : String
  pub ceiling : String
  pub scope_status : String
  pub evidence_status : String
  pub evidence_rollup : String
  pub drives_verdict : Bool

abbrev pub got_scope : Option L3CoverageScope → L3CoverageScope
got_scope none = zero_scope
got_scope (some scope) = scope

abbrev pub got_evidence : Option L3CoverageEvidence → L3CoverageEvidence
got_evidence none = zero_evidence
got_evidence (some ev) = ev

abbrev pub status_of_scope : Option L3CoverageScope → String
status_of_scope none = "absent"
status_of_scope (some scope) = scope.record_status

abbrev pub status_of_evidence : Option L3CoverageEvidence → String
status_of_evidence none = "absent"
status_of_evidence (some ev) = ev.record_status

abbrev diagnostic_of : Bool → String → String
diagnostic_of drives composed =
    if drives
    then ""
    else if str_eq composed ""
    then coverage_diagnostic_only
    else recall_diagnostic_only

pub build_l3_coverage_narrative :
    Option L3CoverageScope → Option L3CoverageEvidence → L3CoverageNarrative
unfolding evidence_line composed_line
build_l3_coverage_narrative scope evidence =
    let ev = got_evidence evidence in
    let composed = composed_line ev (status_of_evidence evidence) in
    record {
      scope = scope_line (got_scope scope) (status_of_scope scope);
      evidence = evidence_line ev (status_of_evidence evidence);
      composed = composed;
      diagnostic = diagnostic_of ev.drives_verdict composed;
      ceiling = coverage_ceiling;
      scope_status = status_of_scope scope;
      evidence_status = status_of_evidence evidence;
      evidence_rollup = ev.rollup;
      drives_verdict = ev.drives_verdict;
    }
