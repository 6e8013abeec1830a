-- ===== src/Auth.antt =====
-- apps/dashboard/internal/auth: who a user is. Sessions, OIDC flows and the request gate are in
-- the modules below.
pub mod Session
pub mod OidcState
pub mod Csrf
pub mod Gate
pub mod Oidc
pub mod Local
use lucairn_enterprise_deplo.Base.{String}

-- type Role, with the two values that the program declares
pub data Role : Type 0 where
  role_admin role_viewer : Role

pub record User : Type 0 where
  pub email : String
  pub role : Role
