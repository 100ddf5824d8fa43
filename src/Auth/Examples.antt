-- ===== src/Auth/Examples.antt =====
-- Sessions on concrete tables of tokens.
use edge_guard.Base.{◌≡◌, refl, pos, true, none, List, [], ◌∷◌, ok, err, Error, sentinel}
use edge_guard.Text.{Text, codes, trim_space, ◌≟◌}
use edge_guard.Base.{◌<◌}
use edge_guard.Auth.Tokens.{
  Sentinel, invalid_refresh_token, RefreshToken, is_active, rotate, revoke_by_hash, get_by_hash,
  User, IssuedAccessToken, TokenPair, Ports,
}
use edge_guard.Auth.Tokens.Spent.{Request, revocation, apply_all}
use edge_guard.Auth.Tokens.Session.{Moment, hash_of, build_tokens, prepare_refresh, refresh, logout}
use edge_guard.Auth.Tokens.Once.{IsAmong, prepare_refresh-ok, refresh_once, logout_ends}

abbrev user : User
user = record {
  id = codes "u1";
  email = codes "a@b.c";
  password_hash = codes "h";
  role = codes "user";
  enabled = true;
  created_at = 1;
  updated_at = 1;
}

abbrev access_token : IssuedAccessToken
access_token = record { value = codes "jwt"; expires_at = 20 }

-- the hash of a token is the token
abbrev ports : Ports
ports = record {
  hash_refresh_token = λ s. s;
  issue_access_token = λ _ _. ok access_token;
  refresh_token_ttl = pos 100;
}

abbrev moment : Text → Moment
moment new = record {
  now = 10;
  user_by_id = λ _. ok user;
  generated = ok (new, new);
  defaults = record { id = new; created_at = 10 };
  read_fault = none;
  write_fault = none;
}

abbrev token : Text → RefreshToken
token name = record {
  id = name;
  user_id = codes "u1";
  token_hash = name;
  expires_at = 50;
  revoked_at = none;
  created_at = 1;
}

abbrev replacement : Text → RefreshToken
replacement name = record {
  id = [];
  user_id = codes "u1";
  token_hash = name;
  expires_at = 110;
  revoked_at = none;
  created_at = 0;
}

abbrev table : List RefreshToken
table = token (codes "t1") ∷ token (codes "t2") ∷ []

prepared_first :
    prepare_refresh ports (moment (codes "n1")) (codes "t1") table
    ≡ ok (token (codes "t1"), access_token, codes "n1", replacement (codes "n1"))
unfolding prepare_refresh hash_of trim_space get_by_hash ◌≟◌ is_active build_tokens
prepared_first = refl

prepared_second :
    prepare_refresh ports (moment (codes "n2")) (codes "t1") table
    ≡ ok (token (codes "t1"), access_token, codes "n2", replacement (codes "n2"))
unfolding prepare_refresh hash_of trim_space get_by_hash ◌≟◌ is_active build_tokens
prepared_second = refl

prepare_refresh-ok_example :
    (hash : Text) × (known : User) × (hash_of ports (moment (codes "n1")) (codes "t1") ≡ ok hash)
    × IsAmong (token (codes "t1")) table
    × ((token (codes "t1")).token_hash ≡ hash)
    × ((token (codes "t1")).revoked_at ≡ none)
    × ((moment (codes "n1")).now < (token (codes "t1")).expires_at)
    × ((moment (codes "n1")).user_by_id (codes "u1") ≡ ok known)
    × (known.enabled ≡ true)
prepare_refresh-ok_example =
    prepare_refresh-ok ports (moment (codes "n1")) (codes "t1") table (token (codes "t1"))
      access_token (codes "n1") (replacement (codes "n1")) prepared_first

abbrev pair : TokenPair
pair = record {
  token_type = codes "Bearer";
  access_token = codes "jwt";
  access_token_expires_at = 20;
  refresh_token = codes "n1";
  refresh_token_expires_at = 110;
}

refreshed : (refresh ports (moment (codes "n1")) (codes "t1") table table).1 ≡ ok pair
unfolding refresh prepare_refresh hash_of trim_space get_by_hash ◌≟◌ is_active build_tokens rotate
refreshed = refl

abbrev between : List Request
between = revocation none (codes "t2") 12 ∷ []

refresh_once_example :
    (e : Error Sentinel) × (refresh ports
        (moment (codes "n2"))
        (codes "t1")
        table
        (apply_all between (refresh ports (moment (codes "n1")) (codes "t1") table table).0)
      ≡ (apply_all between (refresh ports (moment (codes "n1")) (codes "t1") table table).0, err e))
refresh_once_example =
    refresh_once ports (moment (codes "n1")) (moment (codes "n2")) (codes "t1") (codes "t1") table
      table table pair between (token (codes "t1")) (token (codes "t1")) access_token access_token
      (codes "n1") (codes "n2") (replacement (codes "n1")) (replacement (codes "n2")) prepared_first
      prepared_second refl refreshed

logged_out : (logout ports (moment (codes "n1")) (codes "t1") table).1 ≡ ok tt
unfolding logout hash_of trim_space revoke_by_hash ◌≟◌
logged_out = refl

logout_ends_example :
    refresh ports
      (moment (codes "n2"))
      (codes "t1")
      (apply_all between (logout ports (moment (codes "n1")) (codes "t1") table).0)
      table
    ≡ (table, err (sentinel invalid_refresh_token))
logout_ends_example =
    logout_ends ports (moment (codes "n1")) (moment (codes "n2")) (codes "t1") table between table
      logged_out refl
