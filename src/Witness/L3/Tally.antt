-- ===== src/Witness/L3/Tally.antt =====
-- l3TallyEvidence, l3CheckedWindows and l3RecallFieldsConsistent of l3_coverage_narrative.go: what
-- the fields of the recall evidence add up to. Sums are in uint32 or uint64, as in the source.
pub mod Counts
pub mod Blind
use lucairn_enterprise_deplo.Base.{
  ℕ, ◌+◌, ◌%◌, ◌^◌, String, Bool, true, false, not, ◌&&◌, ◌||◌, List, [], ◌∷◌, ltb, ◌==◌, str_eq,
  if◌then◌else◌,
}
use lucairn_enterprise_deplo.Witness.L3.{L3FieldEvidence, L3CoverageEvidence}

abbrev pub add32 : ℕ → ℕ → ℕ
add32 a b = (a + b) % 2 ^ 32

abbrev pub add64 : ℕ → ℕ → ℕ
add64 a b = (a + b) % 2 ^ 64

pub record L3EvidenceTally : Type 0 where
  pub passed_planted : ℕ
  pub passed_recovered : ℕ
  pub partly_probed_fields : ℕ
  pub partly_probed_planted : ℕ
  pub partly_probed_recovered : ℕ
  pub partly_probed_windows : ℕ
  pub partly_probed_with_probes : ℕ
  pub unprobed_fields : ℕ

abbrev pub empty_tally : L3EvidenceTally
empty_tally = record {
  passed_planted = 0;
  passed_recovered = 0;
  partly_probed_fields = 0;
  partly_probed_planted = 0;
  partly_probed_recovered = 0;
  partly_probed_windows = 0;
  partly_probed_with_probes = 0;
  unprobed_fields = 0;
}

abbrev pub carries_probe : L3FieldEvidence → Bool
carries_probe f = ltb 0 f.canaries_planted || ltb 0 f.probed_windows

-- One round of the loop over the fields.
tally_field : L3FieldEvidence → L3EvidenceTally → L3EvidenceTally
tally_field f t =
    if str_eq f.verdict "passed"
    then record t {
      passed_planted = add32 t.passed_planted f.canaries_planted;
      passed_recovered = add32 t.passed_recovered f.canaries_recovered;
    }
    else if str_eq f.verdict "absent"
    then (if carries_probe f
        then record t {
          partly_probed_fields = add32 t.partly_probed_fields 1;
          partly_probed_planted = add32 t.partly_probed_planted f.canaries_planted;
          partly_probed_recovered = add32 t.partly_probed_recovered f.canaries_recovered;
          partly_probed_windows = add32 t.partly_probed_windows f.windows;
          partly_probed_with_probes = add32 t.partly_probed_with_probes f.probed_windows;
        }
        else record t { unprobed_fields = add32 t.unprobed_fields 1 })
    else t

tally_fields : List L3FieldEvidence → L3EvidenceTally → L3EvidenceTally
tally_fields [] t = t
tally_fields (f ∷ fs) t = tally_fields fs (tally_field f t)

tally_from : L3CoverageEvidence → List L3FieldEvidence → L3EvidenceTally
tally_from ev [] = record empty_tally {
  passed_planted = ev.canaries_planted;
  passed_recovered = ev.canaries_recovered;
  unprobed_fields = ev.fields_absent;
}
tally_from ev (f ∷ fs) = tally_fields (f ∷ fs) empty_tally

pub tally_evidence : L3CoverageEvidence → L3EvidenceTally
unfolding tally_field tally_fields tally_from
tally_evidence ev = tally_from ev ev.fields

pub sum_windows : List L3FieldEvidence → ℕ → ℕ
sum_windows [] acc = acc
sum_windows (f ∷ fs) acc = sum_windows fs (add64 acc f.probed_windows)

pub checked_windows : L3CoverageEvidence → ℕ
unfolding sum_windows
checked_windows ev = sum_windows ev.fields 0

-- A field with a verdict that the label admits.
pub admits : L3FieldEvidence → Bool
admits f =
    str_eq f.verdict "passed"
    || (str_eq f.verdict "absent" && str_eq f.reason "window_below_probe_floor" && ltb 0 f.windows)

abbrev passed_of : L3FieldEvidence → ℕ
passed_of f = if str_eq f.verdict "passed" then 1 else 0

-- The loop, with what it has summed: planted, recovered, passed.
pub sums_agree : L3CoverageEvidence → List L3FieldEvidence → ℕ → ℕ → ℕ → Bool
unfolding admits
sums_agree ev [] planted recovered passed =
    planted == ev.canaries_planted
    && recovered == ev.canaries_recovered
    && passed == ev.fields_passed
sums_agree ev (f ∷ fs) planted recovered passed =
    let rest =
      sums_agree ev fs (add64 planted f.canaries_planted) (add64 recovered f.canaries_recovered)
        (add64 passed (passed_of f)) in
    if admits f then rest else false

pub recall_fields_consistent : L3CoverageEvidence → Bool
unfolding sums_agree
recall_fields_consistent ev =
    if not (ev.fields_failed == 0) || ev.fields_passed == 0
    then false
    else sums_agree ev ev.fields 0 0 0
