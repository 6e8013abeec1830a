-- ===== src/Witness/L3/Lines.antt =====
-- The scope line and the ledgers of l3_coverage_narrative.go.

pub mod Ledger
pub mod Blind
use lucairn_enterprise_deplo.Base.{
  ℕ, ◌+◌, String, Bool, true, false, not, ◌&&◌, ◌||◌, Option, none, some, List, [], ◌∷◌, map,
  length, ltb, ◌==◌, str_eq, if◌then◌else◌,
}
use lucairn_enterprise_deplo.Base.Text.{◌++◌, decimal, join}
use lucairn_enterprise_deplo.Base.Sort.{bump, sort_by_key}
use lucairn_enterprise_deplo.Base.Sort.Order.{text_order, flagged_order}
use lucairn_enterprise_deplo.Witness.L3.{
  L3CoveredField, L3ExcludedField, L3CoverageScope, L3FieldEvidence, L3CoverageEvidence, zero_scope,
  zero_evidence,
}
use lucairn_enterprise_deplo.Witness.L3.Words.{
  quote, record_status_meaning, exclusion_reason_meaning, scope_reason_meaning,
  evidence_absent_reason_meaning, recall_reason_meaning, composed_reason_meaning,
  early_refusal_reason,
}
use lucairn_enterprise_deplo.Witness.L3.Tally.{
  add64, L3EvidenceTally, tally_evidence, checked_windows, recall_fields_consistent,
}

abbrev pub coverage_ceiling : String
coverage_ceiling =
    "Coverage ceiling: this names which protection layers ran over which fields. "
    ++ "It is never a claim that the scan detected every piece of personal data in the request."

abbrev pub coverage_diagnostic_only : String
coverage_diagnostic_only =
    "The coverage and recall-evidence lines above are separate from the certificate verdict and do not change it."

abbrev pub recall_diagnostic_only : String
recall_diagnostic_only =
    "The recall-check result above is separate from the certificate verdict and does not change it."

abbrev pub v2 : String
v2 = "t600-evidence-v2"

-- The excluded fields by reason, with their numbers.
pub exclusion_counts : List L3ExcludedField → List (String × ℕ) → List (String × ℕ)
exclusion_counts [] counts = counts
exclusion_counts (e ∷ es) counts =
    exclusion_counts es (bump text_order e.reason (λ n. n + 1) 0 counts)

abbrev exclusion_phrase : String × ℕ → String
exclusion_phrase (r, n) = decimal n ++ " x " ++ exclusion_reason_meaning r

pub exclusion_reason_phrases : List L3ExcludedField → List String
unfolding exclusion_counts
exclusion_reason_phrases excluded =
    map exclusion_phrase (sort_by_key text_order (exclusion_counts excluded []))

-- How many fields a scan covered, and how many a receipt.
pub via_counts : List L3CoveredField → ℕ × ℕ
via_counts [] = (0, 0)
via_counts (c ∷ cs) =
    let (scan, receipt) = via_counts cs in
    if str_eq c.via "receipt" then (scan, receipt + 1) else (scan + 1, receipt)

excluded_clause : List L3ExcludedField → String
excluded_clause [] = "no field was excluded by policy"
excluded_clause (e ∷ es) =
    decimal (length (e ∷ es))
    ++ " field(s) were excluded by policy: "
    ++ join (exclusion_reason_phrases (e ∷ es)) "; "

not_covered_clause : List String → String
not_covered_clause [] = ""
not_covered_clause (k ∷ ks) =
    decimal (length (k ∷ ks)) ++ " eligible field(s) have NO coverage evidence at all. "

receipt_clause : ℕ × ℕ → String
receipt_clause (scan, receipt) =
    if ltb 0 receipt
    then " ("
      ++ decimal scan
      ++ " by a fresh scan this turn, "
      ++ decimal receipt
      ++ " by a named receipt from an earlier turn)"
    else ""

unfoldable pub scope_line : L3CoverageScope → String → String
unfolding excluded_clause not_covered_clause receipt_clause
scope_line scope status =
    if not (str_eq status "present")
    then "Coverage scope unavailable - "
      ++ record_status_meaning status
      ++ ". This is NOT a statement that nothing was excluded or that every field was covered."
    else "The deep shield covered "
      ++ decimal (length scope.covered)
      ++ " of "
      ++ decimal scope.eligible_count
      ++ " fields eligible for it"
      ++ receipt_clause (via_counts scope.covered)
      ++ "; "
      ++ excluded_clause scope.excluded
      ++ ". "
      ++ not_covered_clause scope.eligible_not_covered
      ++ (if scope.granted then "Scope check: granted - " else "Scope check: NOT granted - ")
      ++ scope_reason_meaning scope.reason
      ++ "."

-- The sums of one group of the absent fields.
pub record AbsentTally : Type 0 where
  pub fields : ℕ
  pub windows : ℕ
  pub probed : ℕ

abbrev no_fields : AbsentTally
no_fields = record { fields = 0; windows = 0; probed = 0 }

abbrev add_field : L3FieldEvidence → AbsentTally → AbsentTally
add_field f t = record {
  fields = add64 t.fields 1;
  windows = add64 t.windows f.windows;
  probed = add64 t.probed f.probed_windows;
}

pub absent_tallies :
    List L3FieldEvidence
    → List ((String × Bool) × AbsentTally)
    → List ((String × Bool) × AbsentTally)
absent_tallies [] tallies = tallies
absent_tallies (f ∷ fs) tallies = absent_tallies fs (
    if str_eq f.verdict "absent"
    then bump flagged_order (f.reason, ltb 0 f.windows) (add_field f) no_fields tallies
    else tallies)

abbrev absent_phrase : String → (String × Bool) × AbsentTally → String
absent_phrase version ((reason, window_scoped), tl) =
    decimal tl.fields
    ++ " x "
    ++ evidence_absent_reason_meaning reason window_scoped
    ++ (if window_scoped && str_eq version v2
        then " - "
          ++ decimal tl.probed
          ++ " of "
          ++ decimal tl.windows
          ++ " windows on those fields carried a probe"
        else "")

pub evidence_absent_phrases : L3CoverageEvidence → List String
unfolding absent_tallies
evidence_absent_phrases ev =
    map (absent_phrase ev.derivation_version)
      (sort_by_key flagged_order (absent_tallies ev.fields []))

wrapped : String → List String → String → String
wrapped before [] after = ""
wrapped before (p ∷ ps) after = before ++ join (p ∷ ps) "; " ++ after

pub evidence_absent_suffix : L3CoverageEvidence → String
unfolding wrapped
evidence_absent_suffix ev = wrapped " (" (evidence_absent_phrases ev) ")"

abbrev partly_probed_part : L3EvidenceTally → List String
partly_probed_part t =
    if ltb 0 t.partly_probed_fields
    then (decimal t.partly_probed_fields
        ++ " field(s) only partly probed ("
        ++ decimal t.partly_probed_recovered
        ++ "/"
        ++ decimal t.partly_probed_planted
        ++ " planted probes recovered, "
        ++ decimal t.partly_probed_with_probes
        ++ " of "
        ++ decimal t.partly_probed_windows
        ++ " windows probed - not a usable verdict)")
      ∷ []
    else []

abbrev unprobed_part : L3EvidenceTally → List String
unprobed_part t =
    if ltb 0 t.unprobed_fields
    then (decimal t.unprobed_fields ++ " field(s) carry no evidence at all") ∷ []
    else []

joined : List String → List String → List String
joined [] ys = ys
joined (x ∷ xs) ys = x ∷ joined xs ys

detail : List String → String → String
detail [] why = ""
detail (p ∷ ps) why = ": " ++ join (p ∷ ps) "; " ++ why

pub no_verdict_detail_suffix : L3CoverageEvidence → String
unfolding joined detail wrapped
no_verdict_detail_suffix ev =
    let t = tally_evidence ev in
    detail (joined (partly_probed_part t) (unprobed_part t))
      (wrapped "; why: " (evidence_absent_phrases ev) "")

pub checked_windows_phrase : ℕ → String
checked_windows_phrase windows =
    if windows == 1 then "1 checked text window" else decimal windows ++ " checked text windows"
