-- ===== src/Witness/L3/Narrative/Label.antt =====
-- buildL3ComposedLine of l3_coverage_narrative.go: when the line claims success.
use lucairn_enterprise_deplo.Base.{
  ◌<◌, String, ◌≡◌, refl, Bool, true, false, not, ◌&&◌, arith, str_eq, eq_iff, Bool-cases, inl, inr,
  ◌↔◌, sym, ◌∙◌,
}
use lucairn_enterprise_deplo.Base.Text.{has_prefix}
use lucairn_enterprise_deplo.Witness.L3.{L3CoverageEvidence}
use lucairn_enterprise_deplo.Witness.L3.Tally.{checked_windows, recall_fields_consistent}
use lucairn_enterprise_deplo.Witness.L3.Words.{
  recall_reason_meaning, composed_reason_meaning, early_refusal_reason,
}
use lucairn_enterprise_deplo.Witness.L3.Lines.{v2}
use lucairn_enterprise_deplo.Witness.L3.Narrative.{
  label_withheld, label_line, v2_line, legacy_line, composed_line,
}

-- What the label rests on.
pub record IsLabelled (ev : L3CoverageEvidence) (status : String) : Type 0 where
  pub present : status ≡ "present"
  pub version : ev.derivation_version ≡ v2
  pub reason : ev.composed_reason ≡ "scope_and_recall_satisfied"
  pub green : ev.composed_green ≡ true
  pub consistent : recall_fields_consistent ev ≡ true
  pub planted : 0 < ev.canaries_planted
  pub returned : ev.canaries_recovered ≡ ev.canaries_planted
  pub checked : 0 < checked_windows ev

abbrev claims_success : String → Bool
claims_success line = has_prefix "Recall check passed" line

label_line_claims :
    (ev : L3CoverageEvidence) (status : String)
    → claims_success (label_line ev status) ≡ not (label_withheld ev status)
unfolding label_line
label_line_claims ev status = elim (Bool-cases (label_withheld ev status)) [
  | inl e ↦ rw e refl
  | inr e ↦ rw e refl
]

legacy_line_claims :
    (ev : L3CoverageEvidence) (status : String) → claims_success (legacy_line ev status) ≡ false
unfolding legacy_line
legacy_line_claims ev status = elim (Bool-cases ev.composed_green) [
  | inl e ↦ simp e
  | inr e ↦ simp e (elim (Bool-cases (str_eq status "present")) [
    | inl here ↦
        rw here
          (elim (Bool-cases (str_eq (composed_reason_meaning ev.composed_reason) "unavailable")) [
            | inl u ↦ rw u refl
            | inr u ↦ rw u refl
          ])
    | inr away ↦ rw away (elim (Bool-cases (early_refusal_reason ev.composed_reason)) [
      | inl u ↦ rw u refl
      | inr u ↦ rw u refl
    ])
  ])
]

readable : str_eq (recall_reason_meaning "scope_and_recall_satisfied") "unavailable" ≡ false
unfolding recall_reason_meaning
readable = refl

readable_at :
    (reason : String)
    → reason ≡ "scope_and_recall_satisfied"
    → str_eq (recall_reason_meaning reason) "unavailable" ≡ false
readable_at reason e = rw e readable

v2_line_claims :
    (ev : L3CoverageEvidence) (status : String)
    → claims_success (v2_line ev status)
      ≡ (str_eq ev.composed_reason "scope_and_recall_satisfied" && not (label_withheld ev status))
unfolding v2_line
v2_line_claims ev status =
    elim (Bool-cases (str_eq ev.composed_reason "scope_and_recall_satisfied")) [
      | inl e ↦
          rw
            (
              readable_at ev.composed_reason
                  (ground (arith, eq_iff ev.composed_reason "scope_and_recall_satisfied")),
              e,
              label_line_claims,
            )
            refl
      | inr e ↦
          rw e
            (elim (Bool-cases (str_eq (recall_reason_meaning ev.composed_reason) "unavailable")) [
              | inl u ↦ rw u refl
              | inr u ↦ rw u refl
            ])
    ]

composed_line_claims :
    (ev : L3CoverageEvidence) (status : String)
    → claims_success (composed_line ev status) ≡ (
        str_eq ev.derivation_version v2
        && (str_eq ev.composed_reason "scope_and_recall_satisfied"
            && not (label_withheld ev status)))
unfolding composed_line
composed_line_claims ev status = elim (Bool-cases (str_eq ev.derivation_version v2)) [
  | inl e ↦ rw (e, v2_line_claims) refl
  | inr e ↦ rw (e, legacy_line_claims) refl
]

-- The recall check is said to have passed exactly when the record is present and of version 2, its
-- outcome is the granting one and green, its fields bear the counts out, and every planted probe
-- came back over at least one checked window.
pub composed_line-claims_iff :
    (ev : L3CoverageEvidence) (status : String)
    → (has_prefix "Recall check passed" (composed_line ev status) ≡ true) ↔ IsLabelled ev status
unfolding label_withheld
composed_line-claims_iff ev status =
    let e1 = eq_iff status "present" in
    let e2 = eq_iff ev.derivation_version v2 in
    let e3 = eq_iff ev.composed_reason "scope_and_recall_satisfied" in
    (
      λ h.
          let h2 = sym (composed_line_claims ev status) ∙ h in
          record {
            present = ground (arith, e1, e2, e3);
            version = ground (arith, e1, e2, e3);
            reason = ground (arith, e1, e2, e3);
            green = ground (arith, e1, e2, e3);
            consistent = ground (arith, e1, e2, e3);
            planted = ground (arith, e1, e2, e3);
            returned = ground (arith, e1, e2, e3);
            checked = ground (arith, e1, e2, e3);
          },
      λ l.
          composed_line_claims ev status
          ∙ ground (
            arith, e1, e2, e3, l.present, l.version, l.reason, l.green, l.consistent, l.planted,
            l.returned, l.checked,
          ),
    )
