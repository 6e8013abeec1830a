-- ===== src/Store/AuditQuery/Window.antt =====
-- The rows that the pages of the audit browser ask for.
use native.Mathlib.Nat.{suc-mul, zero-mul}
use lucairn_enterprise_deplo.Base.{
  ℕ, suc, ◌+◌, ◌-◌, ◌*◌, ◌≤◌, ◌≡◌, ap, false, ltb, ◌==◌, if◌then◌else◌, arith,
}
use lucairn_enterprise_deplo.Store.AuditQuery.{AuditFilter, page_request}

offset_step : (k size : ℕ) → (suc (suc k) - 1) * size ≡ (suc k - 1) * size + size
offset_step k size =
    let a : suc (suc k) - 1 ≡ suc k = omega arith in
    let b : suc k - 1 ≡ k = omega arith in rw (a, b) (suc-mul k size)

not_first : (k : ℕ) → ltb (suc k) 1 ≡ false
not_first k = ground arith

-- Consecutive pages ask for adjacent rows, starting at the first: the size is the same for all, at
-- least 1 and at most the configured cap or 200 without one, page 1 starts at row 0, and each page
-- starts where the one before it ended.
pub page_request_windows :
    (max_page_size k : ℕ) (f : AuditFilter)
    → let first = page_request max_page_size (record f { page = 1 }) in
      let this = page_request max_page_size (record f { page = suc k }) in
      let next = page_request max_page_size (record f { page = suc (suc k) }) in
      (1 ≤ this.0)
      × (this.0 ≤ (if max_page_size == 0 then 200 else max_page_size))
      × (first ≡ (this.0, 0))
      × (next ≡ (this.0, this.1 + this.0))
unfolding page_request
page_request_windows max_page_size k f =
    let size : ℕ = (page_request max_page_size f).0 in
    let pair : ℕ → ℕ × ℕ = λ offset. (size, offset) in
    (
      ground arith,
      ground arith,
      ap pair (zero-mul size),
      rw (not_first k, not_first (suc k)) (ap pair (offset_step k size)),
    )
