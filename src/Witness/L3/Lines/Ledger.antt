-- ===== src/Witness/L3/Lines/Ledger.antt =====
-- l3ExclusionReasonPhrases of l3_coverage_narrative.go and the order of the excluded fields.
use lucairn_enterprise_deplo.Base.{
  ℕ, ◌+◌, String, Bool, ◌≡◌, refl, sym, ◌∙◌, ap, Option, none, some, List, [], ◌∷◌, arith, str_eq,
  if◌then◌else◌, ◌==◌, map,
}
use mathlib.Core.Option.{get_or}
use lucairn_enterprise_deplo.Base.Sort.{look, bump, sort_runs}
use lucairn_enterprise_deplo.Base.Sort.Order.{text_order}
use lucairn_enterprise_deplo.Base.Sort.Unique.{
  Distinct, look-bump, Distinct-bump, sort_by_key_unique,
}
use lucairn_enterprise_deplo.Witness.L3.{L3ExcludedField}
use lucairn_enterprise_deplo.Witness.L3.Lines.{exclusion_counts, exclusion_reason_phrases}

-- How many of the fields were excluded for the reason.
abbrev pub occurrences : String → List L3ExcludedField → ℕ
occurrences r [] = 0
occurrences r (e ∷ es) = (if str_eq e.reason r then 1 else 0) + occurrences r es

abbrev plus : Option ℕ → ℕ → Option ℕ
plus none n = if n == 0 then none else some n
plus (some m) n = some (m + n)

plus_zero : (o : Option ℕ) → plus o 0 ≡ o
plus_zero none = refl
plus_zero (some m) = ground arith

plus_bump :
    (b : Bool) (o : Option ℕ) (n : ℕ)
    → plus (if b then some (get_or o 0 + 1) else o) n ≡ plus o ((if b then 1 else 0) + n)
plus_bump b none n = ground arith
plus_bump b (some m) n = ground arith

look-exclusion_counts :
    (r : String) (es : List L3ExcludedField) (m : List (String × ℕ))
    → look text_order r (exclusion_counts es m) ≡ plus (look text_order r m) (occurrences r es)
unfolding exclusion_counts
look-exclusion_counts r [] m = sym (plus_zero (look text_order r m))
look-exclusion_counts r (e ∷ es) m =
    look-exclusion_counts r es (bump text_order e.reason (λ n. n + 1) 0 m)
    ∙ rw (look-bump text_order e.reason r (λ n. n + 1) 0 m)
        (plus_bump (str_eq e.reason r) (look text_order r m) (occurrences r es))

Distinct-exclusion_counts :
    (es : List L3ExcludedField) (m : List (String × ℕ))
    → Distinct text_order m
    → Distinct text_order (exclusion_counts es m)
unfolding exclusion_counts
Distinct-exclusion_counts [] m d = d
Distinct-exclusion_counts (e ∷ es) m d =
    Distinct-exclusion_counts es (bump text_order e.reason (λ n. n + 1) 0 m)
      (Distinct-bump text_order e.reason (λ n. n + 1) 0 m d)

-- Two lists of excluded fields that name each reason equally often give the same ledger, in
-- whatever order they name them and whatever else their rows hold.
pub exclusion_reason_phrases-occurrences :
    (es es' : List L3ExcludedField)
    → ((r : String) → occurrences r es ≡ occurrences r es')
    → exclusion_reason_phrases es ≡ exclusion_reason_phrases es'
unfolding exclusion_reason_phrases sort_runs
exclusion_reason_phrases-occurrences es es' h = ap (map _) (
    sort_by_key_unique text_order (exclusion_counts es []) (exclusion_counts es' [])
      (Distinct-exclusion_counts es [] tt) (Distinct-exclusion_counts es' [] tt)
      (λ r. look-exclusion_counts r es [] ∙ rw (h r) (sym (look-exclusion_counts r es' []))))
