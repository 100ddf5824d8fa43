-- ===== src/Auth/Tokens.antt =====
-- Refresh tokens: internal/auth/domain/refresh_token.go, usecase/{refresh,logout,tokens}.go and
-- infrastructure/postgres/refresh_tokens.go. The table has the primary key `id` and the unique column
-- `token_hash` (migrations), so an UPDATE on either concerns one row. Hashing, issuing and generating
-- tokens, the users' table, and the ids and faults of the database are ports; a statement or a
-- transaction with a fault changes nothing.
pub mod Spent
pub mod Session
pub mod Once
use edge_guard.Base.{
  ℤ, Bool, true, false, not, ◌&&◌, ◌||◌, Option, none, some, List, [], ◌∷◌, ◌++◌, if◌then◌else◌,
  is_empty, Result, ok, err, Error, sentinel, wrap, opaque, ◌>>=◌, ◌>>◌, guard, is,
}
use edge_guard.Base.Time.{Time, before, after, add}
use edge_guard.Text.{Text, codes, ◌≟◌, trim_space}

-- the errors of the domain and of the use cases
pub data Sentinel : Type 0 where
  invalid_user_id invalid_token_hash invalid_expiration : Sentinel
  invalid_refresh_token refresh_token_not_found user_not_found user_disabled : Sentinel
  invalid_email invalid_password_hash invalid_role invalid_password : Sentinel
  invalid_credentials email_already_exists invalid_access_token : Sentinel
  invalid_token_user : Sentinel

abbrev pub Outcome : Type 0 → Type 0
Outcome A = Result (Error Sentinel) A

pub record RefreshToken : Type 0 where
  pub id : Text
  pub user_id : Text
  pub token_hash : Text
  pub expires_at : Time
  pub revoked_at : Option Time
  pub created_at : Time

abbrev pub is_none : Option Time → Bool
is_none none = true
is_none (some _) = false

-- The id and the creation time are the database's to fill in.
unfoldable pub new_refresh_token : Text → Text → Time → Time → Outcome RefreshToken
new_refresh_token given_user given_hash expires_at now = do
  let user_id = trim_space given_user
  let token_hash = trim_space given_hash
  guard (not (is_empty user_id)) (sentinel invalid_user_id)
  guard (not (is_empty token_hash)) (sentinel invalid_token_hash)
  guard (after expires_at now) (sentinel invalid_expiration)
  ok (record {
    id = [];
    user_id = user_id;
    token_hash = token_hash;
    expires_at = expires_at;
    revoked_at = none;
    created_at = 0;
  })

unfoldable pub is_active : RefreshToken → Time → Bool
is_active t now = is_none t.revoked_at && before now t.expires_at

-- The unique columns.
pub data Column : Type 0 where
  by_id by_hash : Column

abbrev pub value : Column → RefreshToken → Text
value by_id t = t.id
value by_hash t = t.token_hash

unfoldable pub find : Column → Text → List RefreshToken → Option RefreshToken
find c k [] = none
find c k (t ∷ ts) = if value c t ≟ k then some t else find c k ts

-- An UPDATE of the row with a key; the function is `none` if the rest of the WHERE clause fails.
-- `true` if a row was returned.
unfoldable pub update :
    Column
    → Text
    → (RefreshToken → Option RefreshToken)
    → List RefreshToken
    → List RefreshToken × Bool
update c k change [] = ([], false)
update c k change (t ∷ ts) =
    let (rest, hit) = update c k change ts in
    if value c t ≟ k
    then elim (change t) [ none ↦ (t ∷ ts, false) | some t' ↦ (t' ∷ ts, true) ]
    else (t ∷ rest, hit)

-- the UPDATEs of `revokeRefreshTokenByIDQuery` and `revokeRefreshTokenByHashQuery`
abbrev pub revoke_active : Time → RefreshToken → Option RefreshToken
revoke_active at t =
    if is_none t.revoked_at && after t.expires_at at
    then some (record t { revoked_at = some at })
    else none

abbrev coalesce : Option Time → Time → Option Time
coalesce none at = some at
coalesce (some t) at = some t

abbrev pub revoke_any : Time → RefreshToken → Option RefreshToken
revoke_any at t = some (record t { revoked_at = coalesce t.revoked_at at })

-- What the database adds to a row that is inserted.
pub record Defaults : Type 0 where
  pub id : Text
  pub created_at : Time

abbrev pub stored : Defaults → RefreshToken → RefreshToken
stored d t = record t { id = d.id; revoked_at = none; created_at = d.created_at }

-- INSERT; `none` if a key is taken.
unfoldable pub insert :
    Defaults → RefreshToken → List RefreshToken → Option (List RefreshToken × RefreshToken)
unfolding find
insert d t ts = elim (find by_id d.id ts) [
  | some _ ↦ none
  | none ↦ elim (find by_hash t.token_hash ts) [
    | some _ ↦ none
    | none ↦ some (ts ++ stored d t ∷ [], stored d t)
  ]
]

-- RotateRefreshToken, a transaction: anything but the last case is rolled back.
unfoldable pub rotate :
    Option Text
    → Defaults
    → Text
    → RefreshToken
    → Time
    → List RefreshToken
    → List RefreshToken × Outcome RefreshToken
unfolding update insert
rotate (some text) d id replacement at ts = (ts, err (wrap "rotate refresh token" (opaque text)))
rotate none d id replacement at ts =
    let (revoked, hit) = update by_id id (revoke_active at) ts in
    if hit
    then elim (insert d replacement revoked) [
      | none ↦ (ts, err (wrap "create replacement refresh token" (opaque [])))
      | some (ts', created) ↦ (ts', ok created)
    ]
    else (ts, err (sentinel invalid_refresh_token))

-- RevokeRefreshTokenByHash
unfoldable pub revoke_by_hash :
    Option Text → Text → Time → List RefreshToken → List RefreshToken × Outcome (Unit {0})
unfolding update
revoke_by_hash (some text) hash at ts =
    (ts, err (wrap "revoke refresh token by hash" (opaque text)))
revoke_by_hash none hash at ts =
    let (ts', hit) = update by_hash hash (revoke_any at) ts in
    if hit then (ts', ok tt) else (ts, err (sentinel refresh_token_not_found))

-- GetRefreshTokenByHash
unfoldable pub get_by_hash : Option Text → Text → List RefreshToken → Outcome RefreshToken
unfolding find
get_by_hash (some text) hash ts = err (wrap "get refresh token by hash" (opaque text))
get_by_hash none hash ts = elim (find by_hash hash ts) [
  | none ↦ err (sentinel refresh_token_not_found)
  | some t ↦ ok t
]

pub record User : Type 0 where
  pub id : Text
  pub email : Text
  pub password_hash : Text
  pub role : Text
  pub enabled : Bool
  pub created_at : Time
  pub updated_at : Time

pub record IssuedAccessToken : Type 0 where
  pub value : Text
  pub expires_at : Time

pub record TokenPair : Type 0 where
  pub token_type : Text
  pub access_token : Text
  pub access_token_expires_at : Time
  pub refresh_token : Text
  pub refresh_token_expires_at : Time

pub record Ports : Type 0 where
  pub hash_refresh_token : Text → Text
  pub issue_access_token : User → Time → Outcome IssuedAccessToken
  pub refresh_token_ttl : ℤ
