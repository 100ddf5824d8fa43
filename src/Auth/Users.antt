-- ===== src/Auth/Users.antt =====
-- Users: internal/auth/domain/{user,role}.go, usecase/{register,login}.go and
-- infrastructure/postgres/users.go, with `CreateRefreshToken` of refresh_tokens.go. The table has a
-- unique index on `lower(email)` (migrations/000002). The password hasher, `mail.ParseAddress`, the case
-- tables of Unicode and the `lower` of the database are ports.
pub mod AccessTokens
pub mod Login
pub mod Sessions
mod Library
mod Examples
use edge_guard.Base.{
  ℕ, Bool, true, false, not, ◌&&◌, ◌||◌, Option, none, some, List, [], ◌∷◌, ◌++◌, if◌then◌else◌,
  is_empty, length, leb, Result, ok, err, Error, sentinel, wrap, opaque, ◌>>=◌, ◌>>◌, guard, is,
}
use edge_guard.Base.Time.{Time}
use edge_guard.Text.{Text, codes, ◌≟◌, trim_space, to_lower}
use edge_guard.Auth.Tokens.{
  Sentinel, invalid_email, invalid_password_hash, invalid_role, invalid_password,
  invalid_credentials, email_already_exists, user_not_found, user_disabled, Outcome, User,
  RefreshToken, Defaults, insert, IssuedAccessToken, TokenPair, Ports,
}
use edge_guard.Auth.Tokens.Session.{Moment, build_tokens, token_pair}

pub record Directory : Type 0 where
  pub unicode : Text → Text
  pub lower : Text → Text
  pub parse_address : Text → Option Text
  pub hash_password : Text → Result Text Text
  pub matches : Text → Text → Bool

-- Role.IsValid
unfoldable pub is_valid_role : Text → Bool
is_valid_role role = role ≟ codes "admin" || role ≟ codes "member"

-- MinPasswordLength and MaxPasswordLength, in bytes
unfoldable pub is_valid_password : Text → Bool
is_valid_password password = leb 8 (length password) && leb (length password) 72

pub record UserInfo : Type 0 where
  pub id : Text
  pub email : Text
  pub role : Text
  pub enabled : Bool
  pub created_at : Time
  pub updated_at : Time

abbrev pub user_info : User → UserInfo
user_info user = record {
  id = user.id;
  email = user.email;
  role = user.role;
  enabled = user.enabled;
  created_at = user.created_at;
  updated_at = user.updated_at;
}

-- What the database gives a new row.
pub record NewRow : Type 0 where
  pub id : Text
  pub at : Time

abbrev pub from_library : {A : Type 0} → Result Text A → Outcome A
from_library (ok a) = ok a
from_library (err text) = err (opaque text)

module _ (d : Directory) where
  unfoldable pub normalize_email : Text → Text
  unfolding to_lower trim_space
  normalize_email value = to_lower d.unicode (trim_space value)

  unfoldable pub is_valid_email : Text → Bool
  is_valid_email value = elim (d.parse_address value) [
    | none ↦ false
    | some address ↦ address ≟ value
  ]

  unfoldable pub new_user : Text → Text → Text → Outcome User
  unfolding normalize_email is_valid_email is_valid_role
  new_user given_email given_hash role = do
    let email = normalize_email given_email
    let password_hash = trim_space given_hash
    guard (is_valid_email email) (sentinel invalid_email)
    guard (not (is_empty password_hash)) (sentinel invalid_password_hash)
    guard (is_valid_role role) (sentinel invalid_role)
    ok (record {
      id = [];
      email = email;
      password_hash = password_hash;
      role = role;
      enabled = true;
      created_at = 0;
      updated_at = 0;
    })

  -- GetUserByEmail
  unfoldable pub find_email : Text → List User → Option User
  find_email email [] = none
  find_email email (user ∷ users) =
      if d.lower user.email ≟ d.lower email then some user else find_email email users

  unfoldable pub get_user_by_email : Option Text → Text → List User → Outcome User
  unfolding find_email
  get_user_by_email (some text) email users = err (wrap "get user by email" (opaque text))
  get_user_by_email none email users = elim (find_email email users) [
    | none ↦ err (sentinel user_not_found)
    | some user ↦ ok user
  ]

  -- CreateUser
  unfoldable pub create_user : Option Text → NewRow → User → List User → List User × Outcome User
  unfolding find_email
  create_user (some text) row user users = (users, err (wrap "create user" (opaque text)))
  create_user none row user users = elim (find_email user.email users) [
    | some _ ↦ (users, err (sentinel email_already_exists))
    | none ↦
        let created = record user { id = row.id; created_at = row.at; updated_at = row.at } in
        (users ++ created ∷ [], ok created)
  ]

  abbrev new_member : Text → Text → Outcome User
  new_member email password = do
    guard (is_valid_password password) (sentinel invalid_password)
    hash ← from_library (d.hash_password password)
    new_user email hash (codes "member")

  -- Register
  unfoldable pub register :
      Option Text → NewRow → Text → Text → List User → List User × Outcome UserInfo
  unfolding is_valid_password new_user create_user
  register fault row email password users = elim (new_member email password) [
    | err e ↦ (users, err e)
    | ok user ↦
        let (users', created) = create_user fault row user users in
        (users', created >>= λ u. ok (user_info u))
  ]

  abbrev is_user_not_found : Sentinel → Bool
  is_user_not_found user_not_found = true
  is_user_not_found _ = false

  -- `ErrUserNotFound` turned into `ErrInvalidCredentials`; other errors are passed on.
  abbrev hide_unknown : Outcome User → Outcome User
  hide_unknown (ok user) = ok user
  hide_unknown (err e) =
      if is is_user_not_found e then err (sentinel invalid_credentials) else err e

  -- Login up to the statement that stores the new token.
  unfoldable pub check_credentials : Option Text → Text → Text → List User → Outcome User
  unfolding normalize_email get_user_by_email is
  check_credentials fault email password users = do
    user ← hide_unknown (get_user_by_email fault (normalize_email email) users)
    guard user.enabled (sentinel user_disabled)
    guard (d.matches user.password_hash password) (sentinel invalid_credentials)
    ok user

  -- CreateRefreshToken
  unfoldable pub create_refresh_token :
      Option Text
      → Defaults
      → RefreshToken
      → List RefreshToken
      → List RefreshToken × Outcome RefreshToken
  unfolding insert
  create_refresh_token (some text) defaults token ts =
      (ts, err (wrap "create refresh token" (opaque text)))
  create_refresh_token none defaults token ts = elim (insert defaults token ts) [
    | none ↦ (ts, err (wrap "create refresh token" (opaque [])))
    | some (ts', created) ↦ (ts', ok created)
  ]

  -- Login up to that statement.
  unfoldable pub prepare_login :
      Ports
      → Moment
      → Text
      → Text
      → List User
      → Outcome (User × IssuedAccessToken × Text × RefreshToken)
  unfolding check_credentials build_tokens
  prepare_login p m email password users = do
    user ← check_credentials m.read_fault email password users
    (access_token, raw, token) ← build_tokens p m user
    ok (user, access_token, raw, token)

  -- Login
  unfoldable pub login :
      Ports
      → Moment
      → Text
      → Text
      → List User
      → List RefreshToken
      → List RefreshToken × Outcome (UserInfo × TokenPair)
  unfolding prepare_login create_refresh_token
  login p m email password users ts = elim (prepare_login p m email password users) [
    | err e ↦ (ts, err e)
    | ok (user, access_token, raw, token) ↦
        let (ts', stored) = create_refresh_token m.write_fault m.defaults token ts in
        elim stored [
          | err e ↦ (ts', err e)
          | ok created ↦
              (ts', ok (user_info user, token_pair p m access_token raw created.expires_at))
        ]
  ]
