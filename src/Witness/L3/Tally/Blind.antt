-- ===== src/Witness/L3/Tally/Blind.antt =====
-- The sums of l3_coverage_narrative.go over fields with and without their names.
use lucairn_enterprise_deplo.Base.{ℕ, ◌≡◌, refl, List, [], ◌∷◌, map}
use lucairn_enterprise_deplo.Witness.L3.{L3FieldEvidence, L3CoverageEvidence}
use lucairn_enterprise_deplo.Witness.L3.Blank.{blank_field, blank_evidence}
use lucairn_enterprise_deplo.Witness.L3.Tally.{
  add64, L3EvidenceTally, tally_field, tally_fields, tally_from, tally_evidence, sum_windows,
  checked_windows, admits, sums_agree, recall_fields_consistent,
}

tally_fields-blank :
    (fs : List L3FieldEvidence) (t : L3EvidenceTally)
    → tally_fields (map blank_field fs) t ≡ tally_fields fs t
unfolding tally_fields tally_field
tally_fields-blank [] t = refl
tally_fields-blank (f ∷ fs) t = tally_fields-blank fs (tally_field f t)

tally_from-blank :
    (ev : L3CoverageEvidence) (fs : List L3FieldEvidence)
    → tally_from (blank_evidence ev) (map blank_field fs) ≡ tally_from ev fs
unfolding tally_from
tally_from-blank ev [] = refl
tally_from-blank ev (f ∷ fs) = tally_fields-blank (f ∷ fs) _

pub tally_evidence-blank :
    (ev : L3CoverageEvidence) → tally_evidence (blank_evidence ev) ≡ tally_evidence ev
unfolding tally_evidence
tally_evidence-blank ev = tally_from-blank ev ev.fields

sum_windows-blank :
    (fs : List L3FieldEvidence) (n : ℕ) → sum_windows (map blank_field fs) n ≡ sum_windows fs n
unfolding sum_windows
sum_windows-blank [] n = refl
sum_windows-blank (f ∷ fs) n = sum_windows-blank fs (add64 n f.probed_windows)

pub checked_windows-blank :
    (ev : L3CoverageEvidence) → checked_windows (blank_evidence ev) ≡ checked_windows ev
unfolding checked_windows
checked_windows-blank ev = sum_windows-blank ev.fields 0

sums_agree-blank :
    (ev : L3CoverageEvidence) (fs : List L3FieldEvidence) (p r q : ℕ)
    → sums_agree (blank_evidence ev) (map blank_field fs) p r q ≡ sums_agree ev fs p r q
unfolding sums_agree admits
sums_agree-blank ev [] p r q = refl
sums_agree-blank ev (f ∷ fs) p r q = rw (sums_agree-blank ev fs _ _ _) refl

pub recall_fields_consistent-blank :
    (ev : L3CoverageEvidence)
    → recall_fields_consistent (blank_evidence ev) ≡ recall_fields_consistent ev
unfolding recall_fields_consistent
recall_fields_consistent-blank ev = rw (sums_agree-blank ev ev.fields 0 0 0) refl
