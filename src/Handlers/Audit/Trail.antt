-- ===== src/Handlers/Audit/Trail.antt =====
-- Raw data and the audit trail, in RevealRawHandler and CSVExportHandler of handlers/audit.go.
use lucairn_enterprise_deplo.Base.{
  past, ℕ, String, ◌≡◌, refl, sym, Bool, true, false, not, Option, none, some, List, ◌∷◌, arith,
  str_eq, Bool-cases, inl, inr,
}
use lucairn_enterprise_deplo.Auth.{role_admin}
use lucairn_enterprise_deplo.Auth.Session.{Session}
use lucairn_enterprise_deplo.Auth.Gate.{same_role}
use lucairn_enterprise_deplo.Auth.Csrf.{verify_token, issue_token}
use lucairn_enterprise_deplo.Web.{Request, or_empty, page, error}
use lucairn_enterprise_deplo.Handlers.Audit.{
  AuditEvent, Emitted, reveal_raw_event, Page, detail, Found, found, no_rows, unavailable,
  extract_event_id_from_path, emit, revealed, reveal_found, reveal_for, reveal_raw,
}

holds : (b : Bool) → not b ≡ false → b ≡ true
holds true h = refl
holds false h = sym h

reveal_found-page :
    (accepts : Emitted → Bool) (token : Option String) (user : String) (o : Found)
    (trail trail' : List Emitted) (status : ℕ) (shown : Page)
    → reveal_found accepts token user o trail ≡ (page status shown, trail')
    → (ev : AuditEvent) × (o ≡ found ev)
      × (shown ≡ detail (or_empty token) ev ev.payload)
      × (trail' ≡ reveal_raw_event user ev ∷ trail)
unfolding reveal_found emit revealed
reveal_found-page accepts token user no_rows trail trail' status shown e = absurd (ground arith)
reveal_found-page accepts token user unavailable trail trail' status shown e = absurd (ground arith)
reveal_found-page accepts token user (found ev) trail trail' status shown e =
    elim (Bool-cases (accepts (reveal_raw_event user ev))) [
      | inl taken ↦
          let e' : (
            page 200 (detail (or_empty token) ev ev.payload),
            reveal_raw_event user ev ∷ trail,
          )
              ≡ (page status shown, trail') =
            rw taken at e in
          (ev, refl, ground arith, ground arith)
      | inr lost ↦
          let e' : (error 500 "audit emit failed", trail) ≡ (page status shown, trail') =
            rw lost at e in
          absurd (ground arith)
    ]

reveal_for-page :
    (configured : Bool) (accepts : Emitted → Bool) (get_event : String → Found)
    (fresh : Option String) (r : Request) (o : Option Session) (trail trail' : List Emitted)
    (status : ℕ) (shown : Page)
    → reveal_for configured accepts get_event fresh r o trail ≡ (page status shown, trail')
    → (sess : Session) × (ev : AuditEvent) × (o ≡ some sess)
      × (same_role sess.user.role role_admin ≡ true)
      × (verify_token r ≡ true)
      × (get_event (extract_event_id_from_path r.path) ≡ found ev)
      × (shown ≡ detail (or_empty (issue_token fresh r)) ev ev.payload)
      × (trail' ≡ reveal_raw_event sess.user.email ev ∷ trail)
unfolding reveal_for
reveal_for-page configured accepts get_event fresh r none trail trail' status shown e =
    absurd (ground arith)
reveal_for-page configured accepts get_event fresh r (some sess) trail trail' status shown e =
    let (admin, e1) =
      past (not (same_role sess.user.role role_admin)) _ _ _ e (λ h. ground arith) in
    let (on, e2) = past (not configured) _ _ _ e1 (λ h. ground arith) in
    let (form, e3) = past (not r.form_parses) _ _ _ e2 (λ h. ground arith) in
    let (token, e4) = past (not (verify_token r)) _ _ _ e3 (λ h. ground arith) in
    let (id, e5) =
      past (str_eq (extract_event_id_from_path r.path) "") _ _ _ e4 (λ h. ground arith) in
    let (ev, got, page_of, recorded) =
      reveal_found-page accepts (issue_token fresh r) sess.user.email
        (get_event (extract_event_id_from_path r.path)) trail trail' status shown e5 in
    (sess, ev, refl, holds _ admin, holds _ token, got, page_of, recorded)

-- A page of the reveal handler is shown only to an administrator whose CSRF token matched. It shows the
-- event that the path names, with its payload, and the trail has taken the entry that says that this
-- user saw this event.
pub reveal_raw-recorded :
    (configured : Bool) (accepts : Emitted → Bool) (get_event : String → Found)
    (fresh : Option String) (r : Request) (trail trail' : List Emitted) (status : ℕ) (shown : Page)
    → reveal_raw configured accepts get_event fresh r trail ≡ (page status shown, trail')
    → (sess : Session) × (ev : AuditEvent) × (r.session ≡ some sess)
      × (same_role sess.user.role role_admin ≡ true)
      × (verify_token r ≡ true)
      × (get_event (extract_event_id_from_path r.path) ≡ found ev)
      × (shown ≡ detail (or_empty (issue_token fresh r)) ev ev.payload)
      × (trail' ≡ reveal_raw_event sess.user.email ev ∷ trail)
unfolding reveal_raw
reveal_raw-recorded configured accepts get_event fresh r trail trail' status shown e =
    reveal_for-page configured accepts get_event fresh r r.session trail trail' status shown e
