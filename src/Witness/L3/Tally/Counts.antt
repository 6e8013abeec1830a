-- ===== src/Witness/L3/Tally/Counts.antt =====
-- What the loops over the fields add up to.
use lucairn_enterprise_deplo.Base.{
  ℕ, ◌+◌, ◌%◌, ◌^◌, ◌<◌, ◌≡◌, refl, sym, ◌∙◌, ◌↔◌, true, List, [], ◌∷◌, arith, str_eq,
  if◌then◌else◌, All, Bool-cases, inl, inr,
}
use lucairn_enterprise_deplo.Witness.L3.{L3FieldEvidence, L3CoverageEvidence}
use lucairn_enterprise_deplo.Witness.L3.Tally.{add64, admits, sums_agree, recall_fields_consistent}

abbrev pub total : (L3FieldEvidence → ℕ) → List L3FieldEvidence → ℕ
total g [] = 0
total g (f ∷ fs) = g f + total g fs

abbrev pub passes : L3FieldEvidence → ℕ
passes f = if str_eq f.verdict "passed" then 1 else 0

-- What the rows of the fields say against the record's own totals.
pub record IsBorneOut (ev : L3CoverageEvidence) : Type 0 where
  pub no_failure : ev.fields_failed ≡ 0
  pub some_pass : 0 < ev.fields_passed
  pub rows_admitted : All (λ f. admits f ≡ true) ev.fields
  pub planted : total (λ f. f.canaries_planted) ev.fields % 2 ^ 64 ≡ ev.canaries_planted
  pub recovered : total (λ f. f.canaries_recovered) ev.fields % 2 ^ 64 ≡ ev.canaries_recovered
  pub passed : total passes ev.fields % 2 ^ 64 ≡ ev.fields_passed

add_assoc64 : (a b c : ℕ) → (add64 a b + c) % 2 ^ 64 ≡ (a + (b + c)) % 2 ^ 64
add_assoc64 a b c = omega arith

add64_bound : (a b : ℕ) → add64 a b < 2 ^ 64
add64_bound a b = omega arith

small : (a : ℕ) → a < 2 ^ 64 → (a + 0) % 2 ^ 64 ≡ a
small a h = omega arith

zero_add64 : (a : ℕ) → (0 + a) % 2 ^ 64 ≡ a % 2 ^ 64
zero_add64 a = omega arith

module _ (ev : L3CoverageEvidence) where
  abbrev Agrees : List L3FieldEvidence → ℕ → ℕ → ℕ → Type 0
  Agrees fs p r q =
      All (λ f. admits f ≡ true) fs
      × ((p + total (λ f. f.canaries_planted) fs) % 2 ^ 64 ≡ ev.canaries_planted)
      × ((r + total (λ f. f.canaries_recovered) fs) % 2 ^ 64 ≡ ev.canaries_recovered)
      × ((q + total passes fs) % 2 ^ 64 ≡ ev.fields_passed)

  sums_agree_iff :
      (fs : List L3FieldEvidence) (p r q : ℕ)
      → p < 2 ^ 64
      → r < 2 ^ 64
      → q < 2 ^ 64
      → (sums_agree ev fs p r q ≡ true) ↔ Agrees fs p r q
  unfolding sums_agree
  sums_agree_iff [] p r q hp hr hq =
      let e = small p hp in
      let f = small r hr in
      let g = small q hq in
      (
        λ h. (tt, ground (arith, e, f, g), ground (arith, e, f, g), ground (arith, e, f, g)),
        λ (_, b, c, d). ground (arith, e, f, g),
      )
  sums_agree_iff (f ∷ fs) p r q hp hr hq =
      let rest =
        sums_agree_iff fs (add64 p f.canaries_planted) (add64 r f.canaries_recovered)
          (add64 q (passes f)) (add64_bound p f.canaries_planted)
          (add64_bound r f.canaries_recovered) (add64_bound q (passes f)) in
      let e = add_assoc64 p f.canaries_planted (total (λ f. f.canaries_planted) fs) in
      let e' = add_assoc64 r f.canaries_recovered (total (λ f. f.canaries_recovered) fs) in
      let e'' = add_assoc64 q (passes f) (total passes fs) in
      elim (Bool-cases (admits f)) [
        | inl a ↦ rw a (
          λ h. let (al, b, c, d) = rest.0 h in ((refl, al), sym e ∙ b, sym e' ∙ c, sym e'' ∙ d),
          λ ((_, al), b, c, d). rest.1 (al, e ∙ b, e' ∙ c, e'' ∙ d),
        )
        | inr a ↦ rw a (λ h. absurd (cc h), λ ((h, _), _, _, _). h)
      ]

  -- The counts are consistent exactly when the rows bear them out: no field failed, at least one
  -- passed, every row has a verdict that the label admits, and the rows add up, modulo 2 ^ 64, to
  -- the planted, recovered and passed totals of the record.
  pub recall_fields_consistent_iff : (recall_fields_consistent ev ≡ true) ↔ IsBorneOut ev
  unfolding recall_fields_consistent
  recall_fields_consistent_iff =
      let sums = sums_agree_iff ev.fields 0 0 0 (omega arith) (omega arith) (omega arith) in
      (
        λ h.
            let (a, b, c, d) = sums.0 (ground arith) in
            record {
              no_failure = ground arith;
              some_pass = ground arith;
              rows_admitted = a;
              planted = sym (zero_add64 _) ∙ b;
              recovered = sym (zero_add64 _) ∙ c;
              passed = sym (zero_add64 _) ∙ d;
            },
        λ b.
            let h = sums.1 (
              b.rows_admitted,
              zero_add64 _ ∙ b.planted,
              zero_add64 _ ∙ b.recovered,
              zero_add64 _ ∙ b.passed,
            ) in
            ground (arith, b.no_failure, b.some_pass, h),
      )
