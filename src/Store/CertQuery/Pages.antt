-- ===== src/Store/CertQuery/Pages.antt =====
-- The pages of the certificate browser under a minimum of redactions.
use mathlib.Core.List.{◌++◌ as append}
use lucairn_enterprise_deplo.Base.{
  ℕ, zero, suc, ◌+◌, ◌-◌, ◌*◌, ◌≤◌, ◌<◌, String, ◌≡◌, refl, sym, ap, ◌∙◌, true, Option, none, some,
  List, [], ◌∷◌, map, take, drop, length, ltb, arith, Bool-cases, inl, inr,
}
use lucairn_enterprise_deplo.Base.Text.{◌++◌}
use lucairn_enterprise_deplo.Store.AuditQuery.{Arg}
use native.Mathlib.Nat.{zero-add, zero-mul, suc-mul}
use lucairn_enterprise_deplo.Base.Int.{pos}
use lucairn_enterprise_deplo.Store.CertQuery.{
  CertSummary, CertFilter, Page, Row, Unmarshal, select_certs, build_where, db_filter,
  scan_cert_row, limit_of, offset_of, list_query, count_query, Db, enough, slice, selected, listed,
  list,
}

take_all : (n : ℕ) (xs : List CertSummary) → length xs ≤ n → take n xs ≡ xs
take_all zero [] h = refl
take_all zero (x ∷ xs) h = absurd (omega arith)
take_all (suc n) [] h = refl
take_all (suc n) (x ∷ xs) h = ap (λ l. x ∷ l) (take_all n xs (omega arith))

drop_all : (n : ℕ) (xs : List CertSummary) → length xs ≤ n → drop n xs ≡ []
drop_all zero [] h = refl
drop_all zero (x ∷ xs) h = absurd (omega arith)
drop_all (suc n) [] h = refl
drop_all (suc n) (x ∷ xs) h = drop_all n xs (omega arith)

take_nil : (n : ℕ) → take {A = CertSummary} n [] ≡ []
take_nil zero = refl
take_nil (suc n) = refl

length-drop : (n : ℕ) (xs : List CertSummary) → length (drop n xs) ≡ length xs - n
length-drop zero xs = omega arith
length-drop (suc n) [] = omega arith
length-drop (suc n) (x ∷ xs) = omega (arith, length-drop n xs)

-- The slice is what remains from the offset on, up to the limit.
slice_lem :
    (offset limit : ℕ) (xs : List CertSummary) → slice offset limit xs ≡ take limit (drop offset xs)
unfolding slice
slice_lem offset limit xs = elim (Bool-cases (ltb (length xs) offset)) [
  | inl past_end ↦
      let gone = drop_all offset xs (ground arith) in
      rw (past_end, gone, take_nil limit, drop_all (length xs) xs (omega arith)) (take_nil _)
  | inr inside ↦ elim (Bool-cases (ltb (length xs) (offset + limit))) [
    | inl short ↦
        let size = length-drop offset xs in
        rw (inside, short)
          (take_all (length xs - offset) (drop offset xs) (omega (arith, size))
            ∙ sym (take_all limit (drop offset xs) (ground (arith, size))))
    | inr full ↦
        let whole : offset + limit - offset ≡ limit = omega arith in rw (inside, full, whole) refl
  ]
]

take_more :
    (n k : ℕ) (xs : List CertSummary) → append (take n xs) (take k (drop n xs)) ≡ take (n + k) xs
take_more zero k xs = rw zero-add refl
take_more (suc n) k [] = rw (take_nil k, take_nil (suc n + k)) refl
take_more (suc n) k (x ∷ xs) =
    let e : suc n + k ≡ suc (n + k) = omega arith in rw e (ap (λ l. x ∷ l) (take_more n k xs))

-- What the first `n` of the pages of a size hold together, each asked of the database as it is then.
module _ (to_lower : String → String) (unmarshal : Unmarshal) (db : ℕ → Db) (f : CertFilter)
    (size : ℕ) where
  abbrev page_at : ℕ → Page
  page_at k = record { limit = pos size; offset = pos (k * size) }

  abbrev rows_of : Option (List CertSummary × ℕ) → List CertSummary
  rows_of none = []
  rows_of (some (cs, total)) = cs

  pub pages : ℕ → List CertSummary
  pages zero = []
  pages (suc n) = append (pages n) (rows_of (list to_lower unmarshal (db n) f (page_at n)))

-- A certificate has enough redactions.
abbrev pub matching : (String → String) → Unmarshal → CertFilter → List Row → List CertSummary
matching to_lower unmarshal f rows =
    enough f.redaction_min (map (scan_cert_row to_lower unmarshal) rows)

list_with_minimum :
    (to_lower : String → String) (unmarshal : Unmarshal) (db : Db) (f : CertFilter) (p : Page)
    (rows : List Row) (n : ℕ)
    → 0 < f.redaction_min
    → db.rows (list_query f p) ≡ some rows
    → db.count (count_query f) ≡ some n
    → list to_lower unmarshal db f p
      ≡ some (
        take (limit_of p) (drop (offset_of p) (matching to_lower unmarshal f rows)),
        length (matching to_lower unmarshal f rows),
      )
unfolding list listed selected
list_with_minimum to_lower unmarshal db f p rows n h answered counted =
    let set : ltb 0 f.redaction_min ≡ true = ground arith in
    rw (answered, counted, listed, selected, set)
      (ap (λ (cs : List CertSummary). some (cs, length (matching to_lower unmarshal f rows)))
        (slice_lem (offset_of p) (limit_of p) (matching to_lower unmarshal f rows)))

limit_of-page :
    (size offset : ℕ)
    → 1 ≤ size
    → size ≤ 200
    → limit_of (record { limit = pos size; offset = pos offset }) ≡ size
unfolding limit_of
limit_of-page size offset a b = ground arith

-- The query for the rows of a filter, the newest 2000 of them.
pub newest : CertFilter → String × List Arg
newest f =
    let (where_sql, args, _) = build_where (db_filter f) 1 in
    (select_certs ++ where_sql ++ " ORDER BY created_at DESC LIMIT 2000", args)

list_query-newest : (f : CertFilter) (p : Page) → 0 < f.redaction_min → list_query f p ≡ newest f
unfolding list_query newest
list_query-newest f p h = let set : ltb 0 f.redaction_min ≡ true = ground arith in rw set refl

-- Under a minimum of redactions and with a page size that the store allows, the first `n` pages
-- together are the first `n * size` of those of the filter's 2000 newest rows that have enough
-- redactions, whatever `n` is. The condition is that at each page the database answers the query for
-- the newest 2000 rows with the first 2000 of the same list of rows, so that no row was written in
-- between and rows of one time come in the same order; the count may differ.
pub pages_join :
    (to_lower : String → String) (unmarshal : Unmarshal) (db : ℕ → Db) (f : CertFilter) (size n : ℕ)
    (total : ℕ → ℕ) (table : List Row)
    → 0 < f.redaction_min
    → 1 ≤ size
    → size ≤ 200
    → ((k : ℕ) → (db k).rows (newest f) ≡ some (take 2000 table))
    → ((k : ℕ) → (db k).count (count_query f) ≡ some (total k))
    → pages to_lower unmarshal db f size n
      ≡ take (n * size) (matching to_lower unmarshal f (take 2000 table))
unfolding pages offset_of
pages_join to_lower unmarshal db f size zero total table h a b answered counted = rw zero-mul refl
pages_join to_lower unmarshal db f size (suc n) total table h a b answered counted =
    let p : Page = record { limit = pos size; offset = pos (n * size) } in
    let found = matching to_lower unmarshal f (take 2000 table) in
    let got =
      list_with_minimum to_lower unmarshal (db n) f p (take 2000 table) (total n) h
        (ap (λ q. (db n).rows q) (list_query-newest f p h) ∙ answered n) (counted n) in
    let earlier = pages_join to_lower unmarshal db f size n total table h a b answered counted in
    let limit : limit_of p ≡ size = limit_of-page size (n * size) a b in
    let more = take_more (n * size) size found in
    let sum : n * size + size ≡ suc n * size = omega (arith, suc-mul n size) in
    rw (got, earlier, limit) (more ∙ ap (λ k. take k found) sum)
