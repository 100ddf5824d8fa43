-- ===== src/Auth/Users/AccessTokens.antt =====
-- Access tokens: `IssueAccessToken` and `ParseAccessToken` of
-- internal/auth/infrastructure/security/token_service.go, and `AuthenticateAccessToken` of
-- internal/auth/usecase/access_tokens.go. The JWT library is a port. A `NumericDate` is a time to the
-- second.
use edge_guard.Base.{
  ℤ, Bool, true, false, not, ◌||◌, List, [], ◌∷◌, if◌then◌else◌, is_empty, Result, ok, err,
  sentinel, wrap, noted, opaque, ◌>>=◌, ◌>>◌, guard, is,
}
use edge_guard.Base.Time.{Time, add, truncate, second, is_zero}
use edge_guard.Text.{Text, ◌≟◌, trim_space}
use edge_guard.Auth.Tokens.{
  Sentinel, invalid_access_token, invalid_token_user, user_not_found, user_disabled, Outcome, User,
  IssuedAccessToken,
}
use edge_guard.Auth.Users.{is_valid_role}

-- AccessTokenClaims, all fields set
pub record Claims : Type 0 where
  pub role : Text
  pub issuer : Text
  pub subject : Text
  pub audience : List Text
  pub expires_at : Time
  pub issued_at : Time
  pub not_before : Time

-- `SignedString` with HS256, and `ParseWithClaims` with the options of the code: a secret, an issuer, an
-- audience and a time to a token's claims.
pub record Jwt : Type 0 where
  pub sign : Text → Claims → Result Text Text
  pub parse : Text → Text → Text → Time → Text → Result Text Claims

pub record TokenService : Type 0 where
  pub secret : Text
  pub issuer : Text
  pub audience : Text
  pub access_token_ttl : ℤ

-- AccessTokenPrincipal
pub record Principal : Type 0 where
  pub user_id : Text
  pub role : Text
  pub expires_at : Time

module _ (jwt : Jwt) (s : TokenService) where
  abbrev pub claims_of : User → Time → Claims
  claims_of user now = record {
    role = user.role;
    issuer = s.issuer;
    subject = trim_space user.id;
    audience = s.audience ∷ [];
    expires_at = truncate (add now s.access_token_ttl) second;
    issued_at = truncate now second;
    not_before = truncate now second;
  }

  unfoldable pub issue_access_token : User → Time → Outcome IssuedAccessToken
  unfolding is_valid_role add truncate
  issue_access_token user now = do
    guard
        (not (
          is_empty (trim_space user.id)
          || not (is_valid_role user.role)
          || not user.enabled
          || is_zero now))
        (sentinel invalid_token_user)
    elim (jwt.sign s.secret (claims_of user now)) [
      | err text ↦ err (wrap "sign access token" (opaque text))
      | ok raw ↦ ok (record { value = raw; expires_at = add now s.access_token_ttl })
    ]

  unfoldable pub parse_access_token : Text → Time → Outcome Principal
  unfolding is_valid_role
  parse_access_token given now = do
    let raw = trim_space given
    guard (not (is_empty raw || is_zero now)) (sentinel invalid_access_token)
    elim (jwt.parse s.secret s.issuer s.audience now raw) [
      | err text ↦ err (noted (sentinel invalid_access_token) (opaque text))
      | ok claims ↦ do
        let user_id = trim_space claims.subject
        guard (not (is_empty user_id || not (is_valid_role claims.role)))
            (sentinel invalid_access_token)
        ok (record { user_id = user_id; role = claims.role; expires_at = claims.expires_at })
    ]

  abbrev is_user_not_found : Sentinel → Bool
  is_user_not_found user_not_found = true
  is_user_not_found _ = false

  -- any error of the parser, and an unknown user
  abbrev hide_parse : Outcome Principal → Outcome Principal
  hide_parse (ok principal) = ok principal
  hide_parse (err _) = err (sentinel invalid_access_token)

  abbrev hide_user : Outcome User → Outcome User
  hide_user (ok user) = ok user
  hide_user (err e) = if is is_user_not_found e then err (sentinel invalid_access_token) else err e

  -- AuthenticateAccessToken; the users' table as the request meets it.
  unfoldable pub authenticate_access_token : (Text → Outcome User) → Text → Time → Outcome Principal
  unfolding parse_access_token is
  authenticate_access_token user_by_id given now = do
    let raw = trim_space given
    guard (not (is_empty raw)) (sentinel invalid_access_token)
    principal ← hide_parse (parse_access_token raw now)
    user ← hide_user (user_by_id principal.user_id)
    guard user.enabled (sentinel user_disabled)
    guard (user.role ≟ principal.role) (sentinel invalid_access_token)
    ok principal
