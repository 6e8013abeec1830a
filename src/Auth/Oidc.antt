-- ===== src/Auth/Oidc.antt =====
-- apps/dashboard/internal/auth/oidc.go: the end of an authorization flow. The provider, the token
-- library and strings.ToLower are parameters.
pub mod Roles
use lucairn_enterprise_deplo.Base.{
  String, Bool, true, false, not, ◌||◌, Option, none, some, List, [], ◌∷◌, any, str_eq,
  if◌then◌else◌, Result, ok, err,
}
use lucairn_enterprise_deplo.Base.Dict
use lucairn_enterprise_deplo.Base.Dict.{Dict}
use lucairn_enterprise_deplo.Base.Text.{trim_space}
use lucairn_enterprise_deplo.Auth.{Role, role_admin, role_viewer, User}

pub data AuthError : Type 0 where
  invalid_id_token groups_claim_missing neither_group : AuthError

-- A decoded claim; an element of an array is `none` where it is no string.
pub data Claim : Type 0 where
  array : List (Option String) → Claim
  strings : List String → Claim
  text : String → Claim
  other : Claim

pub record OidcConfig : Type 0 where
  pub groups_claim : String
  pub admin_group : String
  pub viewer_group : String

pub record IdToken : Type 0 where
  pub nonce : String
  pub subject : String
  -- `none` where the claims do not decode
  pub claims : Option (Dict Claim)

cons_group : Option String → Option (List String) → Option (List String)
cons_group none gs = none
cons_group (some g) none = none
cons_group (some g) (some gs) = some (g ∷ gs)

all_strings : List (Option String) → Option (List String)
unfolding cons_group
all_strings [] = some []
all_strings (item ∷ items) = cons_group item (all_strings items)

unfoldable pub normalize_groups_claim : Claim → Option (List String)
unfolding all_strings
normalize_groups_claim (array items) = all_strings items
normalize_groups_claim (strings gs) = some gs
normalize_groups_claim (text g) = some (g ∷ [])
normalize_groups_claim other = none

-- The loop over the groups sets one flag for each of the two names.
unfoldable pub role_of_groups : OidcConfig → List String → Result AuthError Role
role_of_groups cfg groups =
    let in_admin = any (λ g. str_eq g cfg.admin_group) groups in
    let in_viewer = any (λ g. str_eq g cfg.viewer_group) groups in
    if in_admin then ok role_admin else if in_viewer then ok role_viewer else err neither_group

of_groups : OidcConfig → Option (List String) → Result AuthError Role
unfolding role_of_groups
of_groups cfg none = err invalid_id_token
of_groups cfg (some groups) = role_of_groups cfg groups

of_claim : OidcConfig → Option Claim → Result AuthError Role
unfolding of_groups
of_claim cfg none = err groups_claim_missing
of_claim cfg (some raw) = of_groups cfg (normalize_groups_claim raw)

abbrev claim_name : OidcConfig → String
claim_name cfg = if str_eq cfg.groups_claim "" then "groups" else cfg.groups_claim

unfoldable pub map_groups_to_role : OidcConfig → Dict Claim → Result AuthError Role
unfolding of_claim
map_groups_to_role cfg claims = of_claim cfg (Dict.lookup (claim_name cfg) claims)

-- The identity provider behind the token library: the raw token for a code and a verifier, and the
-- signature, audience, issuer and expiry checks.
pub record Provider : Type 0 where
  pub to_lower : String → String
  pub token : String → String → Option String
  pub verify : String → Option IdToken

module _ (p : Provider) (cfg : OidcConfig) where
  abbrev email_claim : Option Claim → String
  email_claim (some (text v)) = trim_space (p.to_lower v)
  email_claim _ = ""

  named : Dict Claim → String → Result AuthError Role → Result AuthError User
  named claims subject (err e) = err e
  named claims subject (ok role) =
      let email = email_claim (Dict.lookup "email" claims) in
      ok (record { email = if str_eq email "" then subject else email; role = role })

  claimed : String → Option (Dict Claim) → Result AuthError User
  unfolding named
  claimed subject none = err invalid_id_token
  claimed subject (some claims) = named claims subject (map_groups_to_role cfg claims)

  verified : String → Option IdToken → Result AuthError User
  unfolding claimed
  verified expected_nonce none = err invalid_id_token
  verified expected_nonce (some id_token) =
      if str_eq expected_nonce "" || not (str_eq id_token.nonce expected_nonce)
      then err invalid_id_token
      else claimed id_token.subject id_token.claims

  fetched : String → Option String → Result AuthError User
  unfolding verified
  fetched expected_nonce none = err invalid_id_token
  fetched expected_nonce (some raw) =
      if str_eq raw "" then err invalid_id_token else verified expected_nonce (p.verify raw)

  -- Exchange(code, codeVerifier, expectedNonce)
  unfoldable pub exchange : String → String → String → Result AuthError User
  unfolding fetched
  exchange code code_verifier expected_nonce = fetched expected_nonce (p.token code code_verifier)
