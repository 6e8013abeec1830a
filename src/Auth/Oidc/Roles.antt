-- ===== src/Auth/Oidc/Roles.antt =====
-- Who gets which role from an identity provider.
use lucairn_enterprise_deplo.Base.{
  String, ◌≡◌, ◌≢◌, refl, true, Option, none, some, List, any, arith, str_eq, eq_iff, ok, err,
  Result,
}
use lucairn_enterprise_deplo.Base.Dict
use lucairn_enterprise_deplo.Base.Dict.{Dict}
use lucairn_enterprise_deplo.Auth.{Role, User}
use lucairn_enterprise_deplo.Auth.Oidc.{
  AuthError, Claim, OidcConfig, IdToken, Provider, normalize_groups_claim, map_groups_to_role,
  claim_name, exchange, named, claimed, verified, fetched,
}

-- The groups that the configured claim names.
pub record InGroup (cfg : OidcConfig) (claims : Dict Claim) (g : String) : Type 0 where
  pub claim : Claim
  pub groups : List String
  pub present : Dict.lookup (claim_name cfg) claims ≡ some claim
  pub listed : normalize_groups_claim claim ≡ some groups
  pub member : any (λ x. str_eq x g) groups ≡ true

-- What stands behind a user who signs in with a code: an ID token that the provider issued for the
-- code and the verifier of the flow and that it vouches for, with the flow's own nonce, and claims
-- that map to the user's role.
pub record IsGranted (p : Provider) (cfg : OidcConfig) (code verifier nonce : String) (user : User)
    : Type 0 where
  pub raw : String
  pub id_token : IdToken
  pub claims : Dict Claim
  pub issued : p.token code verifier ≡ some raw
  pub vouched : p.verify raw ≡ some id_token
  pub bound : id_token.nonce ≡ nonce
  pub fresh : nonce ≢ ""
  pub decoded : id_token.claims ≡ some claims
  pub mapped : map_groups_to_role cfg claims ≡ ok user.role

module _ (p : Provider) (cfg : OidcConfig) where
  named-role :
      (claims : Dict Claim) (subject : String) (r : Result AuthError Role) (user : User)
      → named p cfg claims subject r ≡ ok user
      → r ≡ ok user.role
  unfolding named
  named-role claims subject (err e) user h = cc
  named-role claims subject (ok role) user h = ground arith

  claimed-mapped :
      (subject : String) (o : Option (Dict Claim)) (user : User)
      → claimed p cfg subject o ≡ ok user
      → (claims : Dict Claim) × (o ≡ some claims) × (map_groups_to_role cfg claims ≡ ok user.role)
  unfolding claimed
  claimed-mapped subject none user h = cc
  claimed-mapped subject (some claims) user h = (claims, refl, named-role claims subject _ user h)

  verified-claimed :
      (nonce : String) (o : Option IdToken) (user : User)
      → verified p cfg nonce o ≡ ok user
      → (id_token : IdToken) × (o ≡ some id_token)
        × (id_token.nonce ≡ nonce)
        × (nonce ≢ "")
        × (claimed p cfg id_token.subject id_token.claims ≡ ok user)
  unfolding verified
  verified-claimed nonce none user h = cc
  verified-claimed nonce (some id_token) user h = (
    id_token,
    refl,
    ground (arith, eq_iff id_token.nonce nonce),
    ground (arith, eq_iff nonce ""),
    ground arith,
  )

  fetched-verified :
      (nonce : String) (o : Option String) (user : User)
      → fetched p cfg nonce o ≡ ok user
      → (raw : String) × (o ≡ some raw) × (verified p cfg nonce (p.verify raw) ≡ ok user)
  unfolding fetched
  fetched-verified nonce none user h = cc
  fetched-verified nonce (some raw) user h = (raw, refl, ground arith)

-- Nobody signs in over OIDC without such a token: whenever an exchange yields a user, the ID token
-- behind it was issued for that code and verifier, was vouched for, carries the expected nonempty
-- nonce, and its claims map to the user's role.
pub exchange-IsGranted :
    (p : Provider) (cfg : OidcConfig) (code verifier nonce : String) (user : User)
    → exchange p cfg code verifier nonce ≡ ok user
    → IsGranted p cfg code verifier nonce user
unfolding exchange
exchange-IsGranted p cfg code verifier nonce user e =
    let (raw, issued, e') = fetched-verified p cfg nonce (p.token code verifier) user e in
    let (id_token, vouched, bound, fresh, e'') =
      verified-claimed p cfg nonce (p.verify raw) user e' in
    let (claims, decoded, mapped) =
      claimed-mapped p cfg id_token.subject id_token.claims user e'' in
    record {
      raw = raw;
      id_token = id_token;
      claims = claims;
      issued = issued;
      vouched = vouched;
      bound = bound;
      fresh = fresh;
      decoded = decoded;
      mapped = mapped;
    }
