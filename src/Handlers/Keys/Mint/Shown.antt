-- ===== src/Handlers/Keys/Mint/Shown.antt =====
-- Who sees a new key, and what is kept of it.
use lucairn_enterprise_deplo.Base.{
  String, ◌≡◌, refl, Bool, Option, none, some, List, [], ◌∷◌, str_eq, arith, Result, ok, err,
  Bool-cases, inl, inr,
}
use lucairn_enterprise_deplo.Base.Text.{trim_space}
use lucairn_enterprise_deplo.Auth.{User}
use lucairn_enterprise_deplo.Auth.Session.{Session}
use lucairn_enterprise_deplo.Web.{Request, post_form_value, page}
use lucairn_enterprise_deplo.Gateway.Client.{
  AdminError, token_rejected, customer_not_found, key_not_found, max_keys_reached, cancelled,
  rate_limited, failed, CustomerEntry, MintKeyResult,
}
use lucairn_enterprise_deplo.Handlers.Keys.{
  minting, KeysState, KeysPage, Handled, emit, get_customers, admitted, populate_customer_state,
  cached, ask, default_customer,
}
use lucairn_enterprise_deplo.Handlers.Keys.Admission.{refused, IsAdmitted, admitted-served}
use lucairn_enterprise_deplo.Handlers.Keys.Mint.{
  Minter, rendered, minted, mint_for, mint_first, mint_next, mint,
}

-- A page that the handler shows: the key that the gateway has just made for a customer, and what the
-- gateway was asked to change.
pub record IsMinted (m : Minter) (s s' : KeysState) (p : KeysPage) : Type 0 where
  pub customer_id : String
  pub key : MintKeyResult
  pub made : m.mint_key customer_id ≡ ok key
  pub shown : p.just_minted ≡ some key
  pub once : s'.changes ≡ minting customer_id ∷ s.changes

just_minted-populate :
    (cs : List CustomerEntry) (requested : String) (p : KeysPage)
    → (populate_customer_state cs requested p).just_minted ≡ p.just_minted
unfolding populate_customer_state default_customer
just_minted-populate [] requested p = refl
just_minted-populate (c ∷ cs) requested p = ground arith

rendered-page :
    (m : Minter) (p p' : KeysPage) (s s' : KeysState)
    → ◌≡◌ {A = Handled} (rendered m p, s) (page 200 p', s')
    → (p ≡ p') × (s ≡ s')
unfolding rendered
rendered-page m p p' s s' e = ground arith

module _ (m : Minter) (r : Request) (user : User) where
  minted-page :
      (customer_id : String) (o : Result AdminError MintKeyResult) (s s' : KeysState) (p : KeysPage)
      → minted m r user customer_id o s ≡ (page 200 p, s')
      → (key : MintKeyResult) × (o ≡ ok key) × (p.just_minted ≡ some key) × (s'.changes ≡ s.changes)
  unfolding minted emit
  minted-page customer_id (err token_rejected) s s' p e = absurd (refused refl refl e)
  minted-page customer_id (err customer_not_found) s s' p e = absurd (refused refl refl e)
  minted-page customer_id (err key_not_found) s s' p e = absurd (refused refl refl e)
  minted-page customer_id (err max_keys_reached) s s' p e = absurd (refused refl refl e)
  minted-page customer_id (err cancelled) s s' p e = absurd (refused refl refl e)
  minted-page customer_id (err (rate_limited n)) s s' p e = absurd (refused refl refl e)
  minted-page customer_id (err (failed t)) s s' p e = absurd (refused refl refl e)
  minted-page customer_id (ok key) s s' p e =
      let (same, kept) = rendered-page m _ p _ s' e in
      (key, refl, rw (← same) (just_minted-populate _ customer_id _), rw (← kept) (ground arith))

  mint_for-page :
      (customer_id : String) (s s' : KeysState) (p : KeysPage)
      → mint_for m r user customer_id s ≡ (page 200 p, s')
      → IsMinted m s s' p
  unfolding mint_for ask
  mint_for-page customer_id s s' p e =
      let (key, made, shown, kept) = minted-page customer_id (m.mint_key customer_id) _ s' p e in
      record { customer_id = customer_id; key = key; made = made; shown = shown; once = kept }

  mint_first-page :
      (o : Result AdminError (List CustomerEntry)) (s s' : KeysState) (p : KeysPage)
      → mint_first m r user o s ≡ (page 200 p, s')
      → IsMinted m s s' p
  unfolding mint_first
  mint_first-page (err t) s s' p e = absurd (refused refl refl e)
  mint_first-page (ok []) s s' p e = absurd (refused refl refl e)
  mint_first-page (ok (c ∷ cs)) s s' p e = mint_for-page c.customer_id s s' p e

  mint_next-page :
      (s s' : KeysState) (p : KeysPage)
      → mint_next m r user s ≡ (page 200 p, s')
      → IsMinted m s s' p
  unfolding mint_next
  mint_next-page s s' p e =
      elim (Bool-cases (str_eq (trim_space (post_form_value r "customer_id")) "")) [
        | inl empty ↦
            let b = mint_first-page _ (cached m.before s) s' p (rw empty at e) in
            record {
              customer_id = b.customer_id;
              key = b.key;
              made = b.made;
              shown = b.shown;
              once = b.once;
            }
        | inr given ↦ mint_for-page _ s s' p (rw given at e)
      ]

-- A page of the mint handler is shown only to an administrator whose CSRF token matched, it shows the
-- key that the gateway has just made, and that was the one change that the gateway was asked for.
pub mint-IsMinted :
    (configured : Bool) (m : Minter) (r : Request) (s s' : KeysState) (p : KeysPage)
    → mint configured m r s ≡ (page 200 p, s')
    → ((sess : Session) × IsAdmitted r r.session sess) × IsMinted m s s' p
unfolding mint
mint-IsMinted configured m r s s' p e =
    let (sess, adm, e') =
      admitted-served configured (mint_next m r) r r.session s s' (page 200 p) refl e in
    ((sess, adm), mint_next-page m r sess.user s s' p e')

-- The gateway's answer, with another RawKey.
hide : (MintKeyResult → String) → Result AdminError MintKeyResult → Result AdminError MintKeyResult
hide text (ok key) = ok (record key { raw_key = text key })
hide text (err e) = err e

pub retold : (MintKeyResult → String) → Minter → Minter
unfolding hide
retold text m = record m { mint_key = λ c. hide text (m.mint_key c) }

module _ (text : MintKeyResult → String) (m : Minter) (r : Request) (user : User) where
  minted-retold :
      (customer_id : String) (o : Result AdminError MintKeyResult) (s : KeysState)
      → (minted (retold text m) r user customer_id (hide text o) s).1
        ≡ (minted m r user customer_id o s).1
  unfolding minted hide retold
  minted-retold customer_id (err token_rejected) s = refl
  minted-retold customer_id (err customer_not_found) s = refl
  minted-retold customer_id (err key_not_found) s = refl
  minted-retold customer_id (err max_keys_reached) s = refl
  minted-retold customer_id (err cancelled) s = refl
  minted-retold customer_id (err (rate_limited n)) s = refl
  minted-retold customer_id (err (failed t)) s = refl
  minted-retold customer_id (ok key) s = refl

  mint_for-retold :
      (customer_id : String) (s : KeysState)
      → (mint_for (retold text m) r user customer_id s).1 ≡ (mint_for m r user customer_id s).1
  unfolding mint_for retold
  mint_for-retold customer_id s = minted-retold customer_id (m.mint_key customer_id) _

  mint_first-retold :
      (o : Result AdminError (List CustomerEntry)) (s : KeysState)
      → (mint_first (retold text m) r user o s).1 ≡ (mint_first m r user o s).1
  unfolding mint_first
  mint_first-retold (err t) s = refl
  mint_first-retold (ok []) s = refl
  mint_first-retold (ok (c ∷ cs)) s = mint_for-retold c.customer_id s

  mint_next-retold :
      (s : KeysState) → (mint_next (retold text m) r user s).1 ≡ (mint_next m r user s).1
  unfolding mint_next retold
  mint_next-retold s =
      elim (Bool-cases (str_eq (trim_space (post_form_value r "customer_id")) "")) [
        | inl empty ↦
            rw empty (mint_first-retold ((get_customers m.before s.cache).0) (cached m.before s))
        | inr given ↦ rw given (mint_for-retold (trim_space (post_form_value r "customer_id")) s)
      ]

admitted_same :
    (configured : Bool) (next next' : User → KeysState → Handled) (r : Request) (o : Option Session)
    (s : KeysState)
    → ((user : User) → (next user s).1 ≡ (next' user s).1)
    → (admitted configured next r o s).1 ≡ (admitted configured next' r o s).1
unfolding admitted
admitted_same configured next next' r none s h = refl
admitted_same configured next next' r (some sess) s h = ground (arith, h sess.user)

-- What is kept of a new key does not depend on its field RawKey: with the identifier and the prefix of
-- the key fixed, which the trail records, the audit trail, the cache and what the gateway was asked for
-- are the same whatever RawKey the gateway answers.
pub mint-retold :
    (text : MintKeyResult → String) (configured : Bool) (m : Minter) (r : Request) (s : KeysState)
    → (mint configured (retold text m) r s).1 ≡ (mint configured m r s).1
unfolding mint
mint-retold text configured m r s =
    admitted_same configured _ _ r r.session s (λ user. mint_next-retold text m r user s)
