-- ===== src/Witness/L3/Lines/Blind.antt =====
-- The ledgers and the scope line of l3_coverage_narrative.go with and without the names.
use lucairn_enterprise_deplo.Base.{ℕ, String, ◌≡◌, refl, ap, suc, Bool, List, [], ◌∷◌, map, length}
use lucairn_enterprise_deplo.Witness.L3.{
  L3CoveredField, L3ExcludedField, L3CoverageScope, L3FieldEvidence, L3CoverageEvidence,
}
use lucairn_enterprise_deplo.Witness.L3.Blank.{
  blank_covered, blank_excluded, blank_field, blank_scope, blank_evidence,
}
use lucairn_enterprise_deplo.Witness.L3.Tally.Blind.{tally_evidence-blank}
use lucairn_enterprise_deplo.Witness.L3.Lines.{
  AbsentTally, exclusion_counts, exclusion_reason_phrases, via_counts, excluded_clause,
  not_covered_clause, scope_line, absent_tallies, evidence_absent_phrases, evidence_absent_suffix,
  no_verdict_detail_suffix,
}

length-map : {A B : Type 0} (f : A → B) (xs : List A) → length (map f xs) ≡ length xs
length-map f [] = refl
length-map f (x ∷ xs) = ap suc (length-map f xs)

exclusion_counts-blank :
    (es : List L3ExcludedField) (m : List (String × ℕ))
    → exclusion_counts (map blank_excluded es) m ≡ exclusion_counts es m
unfolding exclusion_counts
exclusion_counts-blank [] m = refl
exclusion_counts-blank (e ∷ es) m = exclusion_counts-blank es _

via_counts-blank : (cs : List L3CoveredField) → via_counts (map blank_covered cs) ≡ via_counts cs
unfolding via_counts
via_counts-blank [] = refl
via_counts-blank (c ∷ cs) = rw (via_counts-blank cs) refl

excluded_clause-blank :
    (es : List L3ExcludedField) → excluded_clause (map blank_excluded es) ≡ excluded_clause es
unfolding excluded_clause exclusion_reason_phrases
excluded_clause-blank [] = refl
excluded_clause-blank (e ∷ es) =
    rw (exclusion_counts-blank (e ∷ es) [], length-map blank_excluded (e ∷ es)) refl

not_covered_clause-blank :
    (ks : List String) → not_covered_clause (map (λ _. "") ks) ≡ not_covered_clause ks
unfolding not_covered_clause
not_covered_clause-blank [] = refl
not_covered_clause-blank (k ∷ ks) = rw (length-map {B = String} (λ _. "") ks) refl

pub scope_line-blank :
    (s : L3CoverageScope) (status : String)
    → scope_line (blank_scope s) status ≡ scope_line s status
unfolding scope_line
scope_line-blank s status =
    rw
      (
        length-map blank_covered s.covered,
        via_counts-blank s.covered,
        excluded_clause-blank s.excluded,
        not_covered_clause-blank s.eligible_not_covered,
      )
      refl

absent_tallies-blank :
    (fs : List L3FieldEvidence) (m : List ((String × Bool) × AbsentTally))
    → absent_tallies (map blank_field fs) m ≡ absent_tallies fs m
unfolding absent_tallies
absent_tallies-blank [] m = refl
absent_tallies-blank (f ∷ fs) m = absent_tallies-blank fs _

evidence_absent_phrases-blank :
    (ev : L3CoverageEvidence)
    → evidence_absent_phrases (blank_evidence ev) ≡ evidence_absent_phrases ev
unfolding evidence_absent_phrases
evidence_absent_phrases-blank ev = rw (absent_tallies-blank ev.fields []) refl

pub evidence_absent_suffix-blank :
    (ev : L3CoverageEvidence)
    → evidence_absent_suffix (blank_evidence ev) ≡ evidence_absent_suffix ev
unfolding evidence_absent_suffix
evidence_absent_suffix-blank ev = rw (evidence_absent_phrases-blank ev) refl

pub no_verdict_detail_suffix-blank :
    (ev : L3CoverageEvidence)
    → no_verdict_detail_suffix (blank_evidence ev) ≡ no_verdict_detail_suffix ev
unfolding no_verdict_detail_suffix
no_verdict_detail_suffix-blank ev =
    rw (tally_evidence-blank ev, evidence_absent_phrases-blank ev) refl
