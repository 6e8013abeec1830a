-- ===== src/Handlers/Audit/Pages.antt =====
-- The pages of a list of results (populatePagination and pageWindow of handlers/audit.go).
use lucairn_enterprise_deplo.Base.{
  ℕ, zero, suc, ◌+◌, ◌-◌, ◌*◌, ◌/◌, ◌%◌, ◌^◌, ◌≤◌, ◌<◌, min, ◌≡◌, refl, ap, ◌∙◌, true, false, none,
  some, List, ltb, leb, ◌==◌, if◌then◌else◌, arith, Bool-cases, inl, inr,
}
use lucairn_enterprise_deplo.Base.Int64.{
  less, plus, minus, quotient, less-ltb, plus_exact, minus_exact, times_exact, quotient_exact,
}
use native.Mathlib.Nat.{suc-mul, mul-le-mul_left, mul-le-mul_right, zero-mul, mod-add-div', mod-lt}
use lucairn_enterprise_deplo.Handlers.Audit.{
  Pagination, run_from, window_start, window_end, page_window, populate_pagination,
}

-- The window shows consecutive pages around the current one.
pub record IsWindow (current total width : ℕ) (pages : List ℕ) : Type 0 where
  pub start : ℕ
  pub consecutive : pages ≡ run_from start (min width total)
  pub from_first : 1 ≤ start
  pub to_last : start + min width total ≤ total + 1
  pub from_current : start ≤ current
  pub to_current : current < start + min width total

-- The list of pages has as many consecutive pages as the width or the total allows, all of them
-- existing, and the current page is among them.
pub page_window-IsWindow :
    (current total width : ℕ)
    → 1 ≤ current
    → current ≤ total
    → total < 2 ^ 63
    → 1 ≤ width
    → IsWindow current total width (page_window current total width)
unfolding page_window
page_window-IsWindow current total width a b small c = elim (Bool-cases (leb total width)) [
  | inl few ↦ record {
    start = 1;
    consecutive =
        let size : min width total ≡ total = ground arith in
        let some_total = less-ltb 0 total (omega arith) small in
        let some_total' : ltb 0 total ≡ true = ground arith in
        let some_width : (width == 0) ≡ false = ground arith in
        rw (some_total, some_total', some_width, few, size) refl;
    from_first = omega arith;
    to_last = ground arith;
    from_current = a;
    to_current = ground arith;
  }
  | inr large ↦ record {
    start = window_start current total width;
    consecutive =
        let size : window_end current total width + 1 - window_start current total width
            ≡ min width total =
          ground arith in
        let some_total = less-ltb 0 total (omega arith) small in
        let some_total' : ltb 0 total ≡ true = ground arith in
        let some_width : (width == 0) ≡ false = ground arith in
        rw (some_total, some_total', some_width, large)
          (ap (run_from (window_start current total width)) size);
    from_first = ground arith;
    to_last = ground arith;
    from_current = ground arith;
    to_current = ground arith;
  }
]

-- The pages cut the results up: with at least one result and a positive size, the pages hold all
-- results and one page fewer would not, the page shown exists, its rows are numbered from 1 past
-- those of the earlier pages, there is at least one and at most a page of them, and a previous or a
-- next page is offered exactly when there is one.
pub record IsPaginated (p : Pagination) : Type 0 where
  pub enough : p.total ≤ p.total_pages * p.page_size
  pub needed : (p.total_pages - 1) * p.page_size < p.total
  pub exists_page : (1 ≤ p.page) × (p.page ≤ p.total_pages)
  pub first_row : p.start_index ≡ (p.page - 1) * p.page_size + 1
  pub some_row : p.start_index ≤ p.end_index
  pub last_row : (p.end_index ≤ p.total) × (p.end_index ≤ p.page * p.page_size)
  pub previous : p.prev_page ≡ (if ltb 1 p.page then some (p.page - 1) else none)
  pub next : p.next_page ≡ (if ltb p.page p.total_pages then some (p.page + 1) else none)
  pub listed : IsWindow p.page p.total_pages 7 p.page_list

-- There are no more pages than results.
pages_small : (q total size : ℕ) → (q - 1) * size < total → 1 ≤ size → 1 ≤ q → q ≤ total
pages_small zero total size h b c = absurd (omega (arith, c))
pages_small (suc k) total size h b c =
    let less : suc k - 1 ≡ k = omega arith in
    let h' : k * size < total = rw less at h in
    omega (arith, h', mul-le-mul_left {m = 1} {n = size} k b)

-- Division upwards.
ceiling_of :
    (q r total size : ℕ)
    → r + q * size ≡ total + size - 1
    → r < size
    → 1 ≤ total
    → (total ≤ q * size) × ((q - 1) * size < total) × (1 ≤ q)
ceiling_of zero r total size e h a = absurd (omega (arith, zero-mul size))
ceiling_of (suc q) r total size e h a =
    let less : suc q - 1 ≡ q = omega arith in
    (omega (arith, suc-mul q size), rw less (omega (arith, suc-mul q size)), omega arith)

ceiling :
    (total size : ℕ)
    → 1 ≤ total
    → 1 ≤ size
    → (total ≤ (total + size - 1) / size * size)
      × (((total + size - 1) / size - 1) * size < total)
      × (1 ≤ (total + size - 1) / size)
ceiling total size a b =
    ceiling_of ((total + size - 1) / size) ((total + size - 1) % size) total size
      (mod-add-div' (total + size - 1) size) (mod-lt (total + size - 1) b) a

-- A page that is in range, at most the last and at least the first.
clamped :
    (asked pages : ℕ)
    → 1 ≤ pages
    → let p = if ltb asked 1 then 1 else asked in
      let p' = if ltb pages p then pages else p in (1 ≤ p') × (p' ≤ pages)
clamped asked pages h = (ground arith, ground arith)

-- The rows of a page that is in range.
rows_of :
    (total size pages p : ℕ)
    → 1 ≤ size
    → (pages - 1) * size < total
    → 1 ≤ p
    → p ≤ pages
    → (p - 1) * size + 1 ≤ (if ltb total (p * size) then total else p * size)
rows_of total size pages zero a b c d = absurd (omega (arith, c))
rows_of total size (suc q) (suc k) a b c d =
    let less : suc k - 1 ≡ k = omega arith in
    let less' : suc q - 1 ≡ q = omega arith in
    let before : k * size ≤ q * size = mul-le-mul_right size (omega (arith, d)) in
    let b' : q * size < total = rw less' at b in
    let whole = suc-mul k size in rw less (ground (arith, a, b', before, whole))
rows_of total size zero (suc k) a b c d = absurd (omega (arith, d))

-- The numbers where no int wraps.
populate_unbounded : ℕ → ℕ → ℕ → Pagination
populate_unbounded total asked size =
    let pages = (total + size - 1) / size in
    let p = if ltb asked 1 then 1 else asked in
    let p' = if ltb pages p then pages else p in
    record {
      total = total;
      page = p';
      page_size = size;
      total_pages = pages;
      prev_page = if ltb 1 p' then some (p' - 1) else none;
      next_page = if ltb p' pages then some (p' + 1) else none;
      start_index = (p' - 1) * size + 1;
      end_index = if ltb total (p' * size) then total else p' * size;
      page_list = page_window p' pages 7;
    }

quotient_small : (total size : ℕ) → 1 ≤ total → 1 ≤ size → (total + size - 1) / size ≤ total
quotient_small total size a b =
    let (_, needed, some_page) = ceiling total size a b in
    pages_small ((total + size - 1) / size) total size needed b some_page

populate_unbounded-IsPaginated :
    (total asked size : ℕ)
    → 1 ≤ total
    → 1 ≤ size
    → total < 2 ^ 63
    → IsPaginated (populate_unbounded total asked size)
unfolding populate_unbounded
populate_unbounded-IsPaginated total asked size a b bound =
    let pages = (total + size - 1) / size in
    let (enough, needed, some_page) = ceiling total size a b in
    let p = if ltb asked 1 then 1 else asked in
    let p' = if ltb pages p then pages else p in
    let (first, last) = clamped asked pages some_page in
    let few : pages < 2 ^ 63 = omega (arith, quotient_small total size a b) in
    record {
      enough = enough;
      needed = needed;
      exists_page = (first, last);
      first_row = refl;
      some_row = rows_of total size pages p' b needed first last;
      last_row = (ground arith, ground arith);
      previous = refl;
      next = refl;
      listed = page_window-IsWindow p' pages 7 first last few (omega arith);
    }

module _ (total asked size : ℕ) (a : 1 ≤ total) (b : 1 ≤ size) (bound : total + size < 2 ^ 63)
    (small : asked < 2 ^ 63) where
  abbrev pages : ℕ
  pages = (total + size - 1) / size

  pages-exact : quotient (minus (plus total size) 1) size ≡ pages
  pages-exact =
      rw (plus_exact total size bound, minus_exact (total + size) 1 bound (omega arith))
        (quotient_exact (total + size - 1) size (omega arith))

  -- A page that is in range stays in range with its rows.
  in_range : (p : ℕ) → 1 ≤ p → p ≤ pages → p * size < total + size
  in_range zero h h' = absurd (omega (arith, h))
  in_range (suc k) h h' =
      let (_, needed, _) = ceiling total size a b in
      let before : k * size ≤ (pages - 1) * size = mul-le-mul_right size (omega (arith, h')) in
      omega (arith, suc-mul k size, needed, before)

  populate_pagination-unbounded :
      populate_pagination total asked size ≡ populate_unbounded total asked size
  unfolding populate_pagination populate_unbounded
  populate_pagination-unbounded =
      let few : pages ≤ total = quotient_small total size a b in
      let (_, _, some_page) = ceiling total size a b in
      let p = if ltb asked 1 then 1 else asked in
      let p' = if ltb pages p then pages else p in
      let (first, last) = clamped asked pages some_page in
      let p-small : p < 2 ^ 63 = ground arith in
      let p'-small : p' < 2 ^ 63 = omega arith in
      let some_total : (total == 0) ≡ false = ground arith in
      let positive_total : less 0 total ≡ true =
        less-ltb 0 total (omega arith) (omega arith) ∙ ground arith in
      let positive_size : less 0 size ≡ true =
        less-ltb 0 size (omega arith) (omega arith) ∙ ground arith in
      let rows = in_range p' first last in
      let before = p' - 1 in
      let rows_before : before * size ≤ p' * size = mul-le-mul_right size (omega arith) in
      rw
        (
          some_total,
          positive_total,
          positive_size,
          pages-exact,
          less-ltb asked 1 small (omega arith),
          less-ltb pages p (omega arith) p-small,
          less-ltb 1 p' (omega arith) p'-small,
          less-ltb p' pages p'-small (omega arith),
          minus_exact p' 1 p'-small first,
          times_exact p' size (omega arith),
          times_exact before size (omega arith),
          plus_exact p' 1 (omega arith),
          plus_exact (before * size) 1 (omega arith),
          less-ltb total (p' * size) (omega arith) (omega arith),
        )
        refl

-- The numbers of a page of at least one result, of a positive size, are right, where the results and
-- the size add up to less than 2 ^ 63 - 7, so that no int wraps, and the page asked for is an int that
-- is not negative.
pub populate_pagination-IsPaginated :
    (total asked size : ℕ)
    → 1 ≤ total
    → 1 ≤ size
    → total + size + 7 < 2 ^ 63
    → asked < 2 ^ 63
    → IsPaginated (populate_pagination total asked size)
populate_pagination-IsPaginated total asked size a b bound small =
    rw (populate_pagination-unbounded total asked size a b (omega arith) small)
      (populate_unbounded-IsPaginated total asked size a b (omega arith))
