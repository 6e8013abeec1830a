-- ===== src/Auth/Local/Bootstrap.antt =====
-- Who the bootstrap authenticator lets in.
use lucairn_enterprise_deplo.Base.{
  ◌≤◌, String, ◌≡◌, ◌≢◌, refl, ap, true, false, Option, none, some, arith, eq_iff, str_eq,
}
use lucairn_enterprise_deplo.Base.Text.{trim_space, byte_length}
use lucairn_enterprise_deplo.Auth.{User, role_admin}
use lucairn_enterprise_deplo.Auth.Local.{
  LocalAuthenticator, Hashing, hashed, new_local_authenticator, authenticate,
}

module _ (h : Hashing) where
  hashed-made :
      (address : String) (o : Option String) (a : LocalAuthenticator)
      → hashed h address o ≡ some a
      → (o ≡ some a.hashed_pass) × (a.email ≡ address)
  unfolding hashed
  hashed-made address none a e = absurd (ground arith)
  hashed-made address (some hash) a e = (ground arith, ground arith)

  new_local_authenticator-made :
      (email password : String) (a : LocalAuthenticator)
      → new_local_authenticator h email password ≡ some a
      → (a.email ≡ trim_space (h.to_lower email))
        × (a.email ≢ "")
        × (12 ≤ byte_length password)
        × (h.bcrypt password ≡ some a.hashed_pass)
  unfolding new_local_authenticator
  new_local_authenticator-made email password a e =
      let address = trim_space (h.to_lower email) in
      let made : hashed h address (h.bcrypt password) ≡ some a = ground arith in
      let (hash, same) = hashed-made address (h.bcrypt password) a made in
      let full : str_eq address "" ≡ false = ground arith in
      (same, (λ empty. ground (arith, eq_iff address "", same, empty, full)), ground arith, hash)

-- The bootstrap administrator can sign in: an authenticator made from an address and a password has a
-- nonempty address and a password of at least 12 bytes, and accepts them as an administrator, given
-- that bcrypt matches a password with the hash it made of it.
pub authenticate-new_local_authenticator :
    (h : Hashing) (email password : String) (a : LocalAuthenticator)
    → ((p hash : String) → h.bcrypt p ≡ some hash → h.bcrypt_matches hash p ≡ true)
    → new_local_authenticator h email password ≡ some a
    → (a.email ≢ "")
      × (12 ≤ byte_length password)
      × (authenticate h a email password
          ≡ some (record { email = trim_space (h.to_lower email); role = role_admin }))
unfolding authenticate
authenticate-new_local_authenticator h email password a sound e =
    let (same, full, long, hash) = new_local_authenticator-made h email password a e in
    let admin : String → Option User = λ m. some (record { email = m; role = role_admin }) in
    let matches = sound password a.hashed_pass hash in
    let digest : str_eq (h.sha256 (trim_space (h.to_lower email))) (h.sha256 a.email) ≡ true =
      rw same ((eq_iff _ _).1 refl) in
    (full, long, rw (digest, matches) (ap admin same))
