-- ===== src/Auth/Users/Sessions.antt =====
-- An access token from its issue to its use.
use edge_guard.Base.{
  ◌%◌, ◌*◌, ◌^◌, Bool, All, ◌≡◌, refl, arith, ◌≤◌, ◌<◌, true, false, inl, inr, Result-cases, [],
  ◌∷◌, is_empty, ok,
}
use edge_guard.Base.Time.{Time, add, truncate, second, is_zero}
use edge_guard.Text.{Text, trim_space}
use edge_guard.Text.Equal.{≟_iff}
use edge_guard.Text.Trim.{trim_space-trim_space}
use edge_guard.Auth.Tokens.{Outcome, User, IssuedAccessToken}
use edge_guard.Auth.Users.{is_valid_role}
use edge_guard.Auth.Users.AccessTokens.{
  Claims, Jwt, TokenService, Principal, claims_of, issue_access_token, parse_access_token,
  authenticate_access_token,
}

-- The claims that the token format holds: texts in UTF-8, which `utf8` tests, times to the second, and
-- seconds that a JSON number holds.
pub record IsEncodable (utf8 : Text → Bool) (c : Claims) : Type 0 where
  pub role_text : utf8 c.role ≡ true
  pub issuer_text : utf8 c.issuer ≡ true
  pub subject_text : utf8 c.subject ≡ true
  pub audience_text : All (λ a. utf8 a ≡ true) c.audience
  pub expires_at_whole : c.expires_at % second ≡ 0
  pub issued_at_whole : c.issued_at % second ≡ 0
  pub not_before_whole : c.not_before % second ≡ 0
  pub expires_at_small : c.expires_at < 2 ^ 53 * second
  pub issued_at_small : c.issued_at < 2 ^ 53 * second
  pub not_before_small : c.not_before < 2 ^ 53 * second

-- What the JWT library documents: a token in the compact form has no white space around it and is
-- not empty, and a token that was signed with the same secret gives back its claims, if the format
-- holds them, if they name the expected issuer and audience, and if the time is in their period.
pub record IsJwt (utf8 : Text → Bool) (jwt : Jwt) : Type 0 where
  pub compact : (secret raw : Text) (c : Claims) → jwt.sign secret c ≡ ok raw → trim_space raw ≡ raw
  pub not_empty :
      (secret raw : Text) (c : Claims) → jwt.sign secret c ≡ ok raw → is_empty raw ≡ false
  pub verified :
      (secret issuer audience raw : Text) (c : Claims) (now : Time)
      → IsEncodable utf8 c
      → jwt.sign secret c ≡ ok raw
      → c.issuer ≡ issuer
      → c.audience ≡ audience ∷ []
      → c.issued_at ≤ now
      → c.not_before ≤ now
      → now < c.expires_at
      → jwt.parse secret issuer audience now raw ≡ ok c

module _ (utf8 : Text → Bool) (jwt : Jwt) (law : IsJwt utf8 jwt) (s : TokenService) where
  signed :
      (user : User) (now : Time) (issued : IssuedAccessToken)
      → issue_access_token jwt s user now ≡ ok issued
      → (jwt.sign s.secret (claims_of jwt s user now) ≡ ok issued.value)
        × (is_empty (trim_space user.id) ≡ false)
        × (is_valid_role user.role ≡ true)
        × (is_zero now ≡ false)
  unfolding issue_access_token
  signed user now issued h = elim (Result-cases (jwt.sign s.secret (claims_of jwt s user now))) [
    | inr (text, e) ↦ ground arith
    | inl (raw, e) ↦ (ground arith, ground arith, ground arith, ground arith)
  ]

  whole_times :
      (user : User) (now : Time)
      → utf8 user.role ≡ true
      → utf8 (trim_space user.id) ≡ true
      → utf8 s.issuer ≡ true
      → utf8 s.audience ≡ true
      → now < add now s.access_token_ttl
      → add now s.access_token_ttl < 2 ^ 53 * second
      → IsEncodable utf8 (claims_of jwt s user now)
  unfolding truncate
  whole_times user now role id issuer audience later small = record {
    role_text = role;
    issuer_text = issuer;
    subject_text = id;
    audience_text = (audience, tt);
    expires_at_whole = omega arith;
    issued_at_whole = omega arith;
    not_before_whole = omega arith;
    expires_at_small = omega arith;
    issued_at_small = omega arith;
    not_before_small = omega arith;
  }

  -- A token that was issued for a user is parsed, at a time from its issue on and before its expiry to
  -- the second, as the user's id, role, and that expiry, if the texts in it are UTF-8 and the expiry is
  -- a number of seconds that JSON holds.
  pub parse_access_token-issue_access_token :
      (user : User) (now later : Time) (issued : IssuedAccessToken)
      → utf8 user.role ≡ true
      → utf8 (trim_space user.id) ≡ true
      → utf8 s.issuer ≡ true
      → utf8 s.audience ≡ true
      → add now s.access_token_ttl < 2 ^ 53 * second
      → issue_access_token jwt s user now ≡ ok issued
      → now ≤ later
      → later < truncate (add now s.access_token_ttl) second
      → parse_access_token jwt s issued.value later
        ≡ ok (record {
          user_id = trim_space user.id;
          role = user.role;
          expires_at = truncate (add now s.access_token_ttl) second;
        })
  unfolding parse_access_token truncate
  parse_access_token-issue_access_token user now later issued ro id iss au small h from until =
      let (e, named, role, set) = signed user now issued h in
      let compact = law.compact s.secret issued.value (claims_of jwt s user now) e in
      let not_empty = law.not_empty s.secret issued.value (claims_of jwt s user now) e in
      let verified =
        law.verified s.secret s.issuer s.audience issued.value (claims_of jwt s user now) later
          (whole_times user now ro id iss au (omega arith) small) e refl refl (omega arith)
          (omega arith) until in
      rw (compact, not_empty, verified) (ground (arith, trim_space-trim_space user.id))

-- A request that is let in by its access token names a user that the table has, who is enabled and
-- has the token's role now.
pub authenticate_access_token_current :
    (jwt : Jwt) (s : TokenService) (user_by_id : Text → Outcome User) (given : Text) (now : Time)
    (principal : Principal)
    → authenticate_access_token jwt s user_by_id given now ≡ ok principal
    → (user : User) × (user_by_id principal.user_id ≡ ok user)
      × (user.enabled ≡ true)
      × (user.role ≡ principal.role)
unfolding authenticate_access_token
authenticate_access_token_current jwt s user_by_id given now principal h =
    elim (Result-cases (parse_access_token jwt s (trim_space given) now)) [
      | inr (e, q) ↦ ground arith
      | inl (found, q) ↦ elim (Result-cases (user_by_id found.user_id)) [
        | inr (e, u) ↦ ground arith
        | inl (user, u) ↦
            (user, ground arith, ground arith, ground (arith, ≟_iff user.role principal.role))
      ]
    ]
