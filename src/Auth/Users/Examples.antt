-- ===== src/Auth/Users/Examples.antt =====
-- Tests of access tokens.
use edge_guard.Base.{◌+◌, ◌*◌, pos, true, ok, ◌≡◌, refl, arith}
use edge_guard.Base.Time.{Time, add, truncate, second}
use edge_guard.Text.{Text, codes, ◌≟◌, trim_space}
use edge_guard.Auth.Tokens.{User, Outcome, IssuedAccessToken}
use edge_guard.Auth.Users.AccessTokens.{
  TokenService, Principal, claims_of, issue_access_token, parse_access_token,
  authenticate_access_token,
}
use edge_guard.Auth.Users.Library.{any_text, token, library, library-IsJwt}
use edge_guard.Auth.Users.Sessions.{
  parse_access_token-issue_access_token, authenticate_access_token_current,
}

abbrev service : TokenService
service = record {
  secret = codes "0123456789abcdef0123456789abcdef";
  issuer = codes "edgeguard-auth";
  audience = codes "edgeguard";
  access_token_ttl = pos (900 * second);
}

abbrev user : User
user = record {
  id = codes "u1";
  email = codes "a@b.c";
  password_hash = codes "h";
  role = codes "member";
  enabled = true;
  created_at = 0;
  updated_at = 0;
}

abbrev noon : Time
noon = 63_000_000_000 * second

abbrev value : Text
value = token (codes "edgeguard") service.secret (claims_of library service user noon)

abbrev issued : IssuedAccessToken
issued = record { value = value; expires_at = noon + 900 * second }

issued_now : issue_access_token library service user noon ≡ ok issued
unfolding issue_access_token trim_space ◌≟◌
issued_now = refl

parse_access_token-issue_access_token_example :
    parse_access_token library service value (noon + 60 * second)
    ≡ ok (record { user_id = codes "u1"; role = codes "member"; expires_at = noon + 900 * second })
unfolding trim_space truncate add
parse_access_token-issue_access_token_example =
    parse_access_token-issue_access_token any_text library library-IsJwt service user noon
      (noon + 60 * second) issued refl refl refl refl (omega arith) issued_now (omega arith)
      (omega arith)

abbrev principal : Principal
principal = record { user_id = codes "u1"; role = codes "member"; expires_at = noon + 900 * second }

abbrev users : Text → Outcome User
users _ = ok user

let_in : authenticate_access_token library service users value (noon + 60 * second) ≡ ok principal
unfolding authenticate_access_token trim_space ◌≟◌ truncate add
let_in = refl

authenticate_access_token_current_example :
    (u : User) × (users principal.user_id ≡ ok u) × (u.enabled ≡ true) × (u.role ≡ principal.role)
authenticate_access_token_current_example =
    authenticate_access_token_current library service users value (noon + 60 * second) principal
      let_in
