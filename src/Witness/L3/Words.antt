-- ===== src/Witness/L3/Words.antt =====
-- apps/dashboard/internal/witness/l3_coverage_narrative.go: the closed vocabularies of the L3
-- coverage records in plain words. A Go `switch` on a text is a table with a default.
use lucairn_enterprise_deplo.Base.{String, Bool, List, [], ◌∷◌, any, str_eq, if◌then◌else◌}
use lucairn_enterprise_deplo.Base.Text.{◌++◌}

pub switch_on : String → List (String × String) → String → String
switch_on s [] default = default
switch_on s ((k, v) ∷ rows) default = if str_eq s k then v else switch_on s rows default

-- l3Quote
pub quote : String → String
quote s = "[" ++ s ++ "]"

abbrev record_status_rows : List (String × String)
record_status_rows =
    (
      "absent",
      "this certificate carries no such record (the sanitizer that minted it "
          ++ "predates the feature, or the deployment has it switched off)",
    )
    ∷ (
      "malformed",
      "the witness was handed a record and REFUSED it, so none of it is " ++ "reproduced",
    )
    ∷ (
      "unsupported_derivation",
      "the record was produced by a rule version this witness build does not "
          ++ "know, so it is not reproduced",
    )
    ∷ ("not_checked", "the claim chain did not authenticate, so the record was never examined")
    ∷ (
      "",
      "unknown provenance (this certificate was minted or re-verified by a "
          ++ "witness build that predates the record)",
    )
    ∷ []

pub record_status_meaning : String → String
unfolding switch_on quote
record_status_meaning status =
    switch_on status record_status_rows ("unrecognised record state " ++ quote status)

abbrev exclusion_reason_rows : List (String × String)
exclusion_reason_rows =
    ("l3_not_configured", "no deep shield is configured on this deployment")
    ∷ ("caller_skipped", "the caller asked for no deep scan")
    ∷ (
      "shallow_zone_bypasses_l3",
      "the typed-message contract routes shallow-zone fields around the deep " ++ "shield",
    )
    ∷ ("zone_policy_skip", "the zone policy excludes the deep shield for that zone")
    ∷ []

pub exclusion_reason_meaning : String → String
unfolding switch_on quote
exclusion_reason_meaning reason = switch_on reason exclusion_reason_rows (quote reason)

abbrev scope_reason_rows : List (String × String)
scope_reason_rows =
    ("all_eligible_fields_covered", "every eligible field was covered")
    ∷ ("no_eligible_field", "no field on this request was eligible for the deep shield")
    ∷ ("eligible_field_not_covered", "at least one eligible field has no coverage evidence at all")
    ∷ (
      "unattributed_degrade",
      "a deep-shield degradation named no field, so the whole request is "
          ++ "treated as uncovered",
    )
    ∷ ("", "no reason recorded")
    ∷ []

pub scope_reason_meaning : String → String
unfolding switch_on quote
scope_reason_meaning reason = switch_on reason scope_reason_rows (quote reason)

abbrev window_reason_rows : List (String × String)
window_reason_rows =
    ("scan_incomplete", "at least one window has no completed recall check")
    ∷ (
      "scan_off",
      "at least one window was not scanned because the deep scan was " ++ "switched off",
    )
    ∷ (
      "content_cache_without_evidence",
      "at least one window was reused from an earlier scan of identical "
          ++ "text, without usable recall evidence",
    )
    ∷ (
      "probe_off",
      "at least one window carried no probe because the recall probe is not "
          ++ "armed on this deployment",
    )
    ∷ ("no_l3_window", "at least one window carried no probe and recorded no reason")
    ∷ (
      "window_below_probe_floor",
      "at least one window was shorter than the window size the probe "
          ++ "overhead was measured at",
    )
    ∷ (
      "window_served_from_verdict_cache",
      "at least one window was served from the deep shield verdict cache, so "
          ++ "no inference ran on that window",
    )
    ∷ (
      "output_headroom_clipped",
      "at least one window had a model output budget that could not hold the "
          ++ "probe without starving the real scan",
    )
    ∷ (
      "no_prompt_assembly_seam",
      "at least one window ran on a scan path with no seam at which a probe " ++ "could be planted",
    )
    ∷ []

abbrev field_reason_rows : List (String × String)
field_reason_rows =
    ("scan_incomplete", "the field has no completed recall check for some of its text")
    ∷ ("scan_off", "the deep scan was switched off for this field")
    ∷ (
      "content_cache_without_evidence",
      "the field was reused from an earlier scan of identical text, without "
          ++ "usable recall evidence",
    )
    ∷ ("probe_off", "the recall probe is not armed on this deployment")
    ∷ ("no_l3_window", "the deep shield ran no window on that field")
    ∷ (
      "window_below_probe_floor",
      "the text was shorter than the window size the probe overhead was " ++ "measured at",
    )
    ∷ (
      "window_served_from_verdict_cache",
      "the verdict cache served that field and no window was recorded for it",
    )
    ∷ (
      "output_headroom_clipped",
      "the model output budget could not hold the probe without starving the " ++ "real scan",
    )
    ∷ ("no_prompt_assembly_seam", "that scan path has no seam at which a probe could be planted")
    ∷ []

pub evidence_absent_reason_meaning : String → Bool → String
unfolding switch_on
evidence_absent_reason_meaning reason window_scoped =
    switch_on reason (if window_scoped then window_reason_rows else field_reason_rows)
      "for a reason this build does not recognise"

abbrev recall_reason_rows : List (String × String)
recall_reason_rows =
    (
      "sanitizer_claim_count",
      "the certificate does not contain exactly one sanitizer claim for this " ++ "check",
    )
    ∷ ("chain_not_authenticated", "the certificate's signed records could not be authenticated")
    ∷ (
      "request_binding_mismatch",
      "the signed request references do not match the request being checked",
    )
    ∷ (
      "conversation_binding_mismatch",
      "the signed conversation references are invalid or do not match",
    )
    ∷ ("evidence_missing", "the signed sanitizer record carries no recall evidence")
    ∷ ("evidence_malformed", "the recall evidence could not be read as a valid record")
    ∷ ("evidence_empty", "the recall evidence contains no fields")
    ∷ ("evidence_version_missing", "the recall evidence is missing a readable version")
    ∷ ("evidence_version_mixed", "the recall evidence mixes different record versions")
    ∷ ("evidence_v1", "the recall evidence uses an older record format")
    ∷ ("evidence_version_unknown", "the recall evidence uses an unsupported record version")
    ∷ ("evidence_failed", "a recall check returned fewer planted test values than required")
    ∷ ("scope_unavailable", "the coverage scope record is unavailable or could not be read")
    ∷ (
      "evidence_on_excluded_field",
      "the recall evidence includes a field that the scope record excludes",
    )
    ∷ ("scope_not_granted", "the coverage scope record did not grant coverage")
    ∷ ("evidence_scope_mismatch", "the recall evidence includes a field not listed as covered")
    ∷ (
      "evidence_absent_for_covered_field", "a field listed as covered has no recall evidence entry",
    )
    ∷ ("scan_disabled", "the deep scan was switched off for this request")
    ∷ ("probe_disabled", "the recall check was switched off for this request")
    ∷ (
      "probe_not_label_eligible",
      "the scan settings used do not meet the conditions for this label",
    )
    ∷ ("inheritance_invalid", "the evidence does not meet the coverage or reuse conditions")
    ∷ ("blocking_absent", "some text lacks a required recall check")
    ∷ ("no_passed_field", "no field has a passing recall check on all its text windows")
    ∷ ("scope_and_recall_satisfied", "the recorded scope and recall checks met the label rule")
    ∷ []

unfoldable pub recall_reason_meaning : String → String
unfolding switch_on
recall_reason_meaning reason = switch_on reason recall_reason_rows "unavailable"

abbrev composed_reason_rows : List (String × String)
composed_reason_rows =
    (
      "scope_and_recall_satisfied",
      "every eligible field was covered and the recorded recall checks met "
          ++ "the rule; unchecked text is outside this result",
    )
    ∷ ("evidence_v1", "the recall evidence uses an older record format")
    ∷ (
      "scope_unavailable",
      "the scope record is missing or was refused, so the first half of the "
          ++ "rule cannot be evaluated",
    )
    ∷ ("evidence_unavailable", "no recall evidence was carried on this certificate")
    ∷ (
      "evidence_failed",
      "a recall check on one field MISSED: the deep shield did not return "
          ++ "the probes planted in it",
    )
    ∷ ("scope_not_granted", "the scope record itself did not grant")
    ∷ (
      "evidence_absent_for_covered_field",
      "a field the scope record lists as covered by this turn carries no "
          ++ "passing recall evidence",
    )
    ∷ (
      "evidence_on_excluded_field",
      "the two records disagree - the scope record calls a field "
          ++ "policy-excluded while the evidence record carries scan evidence for it",
    )
    ∷ (
      "receipt_covered_evidence_not_in_chain",
      "a field was covered by a NAMED RECEIPT from an earlier turn, so no "
          ++ "inference ran on those bytes this turn and the recall evidence for "
          ++ "them lives on the source claim, not here",
    )
    ∷ ("", "nothing was composed")
    ∷ []

pub composed_reason_meaning : String → String
unfolding switch_on recall_reason_meaning
composed_reason_meaning reason =
    switch_on reason composed_reason_rows (recall_reason_meaning reason)

-- The outcomes that are projected before a version is set.
pub early_refusal_reason : String → Bool
early_refusal_reason reason = any (str_eq reason) (
    "chain_not_authenticated" ∷ "request_binding_mismatch" ∷ "conversation_binding_mismatch"
    ∷ "sanitizer_claim_count" ∷ "evidence_missing" ∷ "evidence_malformed"
    ∷ "evidence_version_missing" ∷ "evidence_version_mixed" ∷ "evidence_version_unknown" ∷ [])
