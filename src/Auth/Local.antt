-- ===== src/Auth/Local.antt =====
-- apps/dashboard/internal/auth/local.go: the bootstrap administrator. SHA-256, bcrypt and
-- strings.ToLower are parameters.
pub mod Bootstrap
use lucairn_enterprise_deplo.Base.{
  String, Bool, not, ◌||◌, Option, none, some, ltb, str_eq, if◌then◌else◌,
}
use lucairn_enterprise_deplo.Base.Text.{trim_space, byte_length}
use lucairn_enterprise_deplo.Auth.{User, role_admin}

pub record LocalAuthenticator : Type 0 where
  pub email : String
  pub hashed_pass : String

pub record Hashing : Type 0 where
  pub to_lower : String → String
  pub sha256 : String → String
  -- bcrypt.GenerateFromPassword at one cost; `none` is its error
  pub bcrypt : String → Option String
  -- bcrypt.CompareHashAndPassword(hash, password) == nil
  pub bcrypt_matches : String → String → Bool

module _ (h : Hashing) where
  hashed : String → Option String → Option LocalAuthenticator
  hashed email none = none
  hashed email (some hash) = some (record { email = email; hashed_pass = hash })

  unfoldable pub new_local_authenticator : String → String → Option LocalAuthenticator
  unfolding hashed
  new_local_authenticator email password =
      let address = trim_space (h.to_lower email) in
      if str_eq address ""
      then none
      else if ltb (byte_length password) 12
      then none
      else hashed address (h.bcrypt password)

  pub authenticate : LocalAuthenticator → String → String → Option User
  authenticate a email password =
      let email_match = str_eq (h.sha256 (trim_space (h.to_lower email))) (h.sha256 a.email) in
      let password_match = h.bcrypt_matches a.hashed_pass password in
      if not email_match || not password_match
      then none
      else some (record { email = a.email; role = role_admin })
