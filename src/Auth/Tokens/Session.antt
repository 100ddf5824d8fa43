-- ===== src/Auth/Tokens/Session.antt =====
-- The use cases of a session, as requests on the table of tokens.
use edge_guard.Base.{
  Bool, true, false, not, Option, List, if◌then◌else◌, is_empty, Result, ok, err, Error, sentinel,
  ◌>>=◌, ◌>>◌, guard, is,
}
use edge_guard.Base.Time.{Time, add}
use edge_guard.Text.{Text, codes, trim_space}
use edge_guard.Auth.Tokens.{
  Sentinel, invalid_refresh_token, refresh_token_not_found, user_not_found, user_disabled, Outcome,
  RefreshToken, new_refresh_token, is_active, Defaults, rotate, revoke_by_hash, get_by_hash, User,
  IssuedAccessToken, TokenPair, Ports,
}

-- What one request meets: the clock, the user's row, the new random token with its hash, and what
-- the database does.
pub record Moment : Type 0 where
  pub now : Time
  pub user_by_id : Text → Outcome User
  pub generated : Outcome (Text × Text)
  pub defaults : Defaults
  pub read_fault : Option Text
  pub write_fault : Option Text

-- `errors.Is(err, sentinel)` turned into `ErrInvalidRefreshToken`; other errors are passed on.
abbrev or_invalid : (Sentinel → Bool) → Error Sentinel → Error Sentinel
or_invalid same e = if is same e then sentinel invalid_refresh_token else e

abbrev hide {ℓ} :
    {A : Type ℓ} → (Sentinel → Bool) → Result (Error Sentinel) A → Result (Error Sentinel) A
hide same (ok a) = ok a
hide same (err e) = err (or_invalid same e)

abbrev is_not_found : Sentinel → Bool
is_not_found refresh_token_not_found = true
is_not_found _ = false

abbrev is_user_not_found : Sentinel → Bool
is_user_not_found user_not_found = true
is_user_not_found _ = false

module _ (p : Ports) (m : Moment) where
  unfoldable pub build_tokens : User → Outcome (IssuedAccessToken × Text × RefreshToken)
  unfolding new_refresh_token add
  build_tokens user = do
    access_token ← p.issue_access_token user m.now
    (raw, hash) ← m.generated
    token ← new_refresh_token user.id hash (add m.now p.refresh_token_ttl) m.now
    ok (access_token, raw, token)

  abbrev pub token_pair : IssuedAccessToken → Text → Time → TokenPair
  token_pair access_token raw expires_at = record {
    token_type = codes "Bearer";
    access_token = access_token.value;
    access_token_expires_at = access_token.expires_at;
    refresh_token = raw;
    refresh_token_expires_at = expires_at;
  }

  -- the hash of the token in a request
  unfoldable pub hash_of : Text → Outcome Text
  hash_of given = do
    let raw = trim_space given
    guard (not (is_empty raw)) (sentinel invalid_refresh_token)
    let hash = p.hash_refresh_token raw
    guard (not (is_empty hash)) (sentinel invalid_refresh_token)
    ok hash

  -- Refresh up to the transaction: the token, its user, and the tokens to give out.
  unfoldable pub prepare_refresh :
      Text → List RefreshToken → Outcome (RefreshToken × IssuedAccessToken × Text × RefreshToken)
  prepare_refresh given ts = do
    hash ← hash_of given
    current ← hide is_not_found (get_by_hash m.read_fault hash ts)
    guard (is_active current m.now) (sentinel invalid_refresh_token)
    user ← hide is_user_not_found (m.user_by_id current.user_id)
    guard user.enabled (sentinel user_disabled)
    (access_token, raw, replacement) ← build_tokens user
    ok (current, access_token, raw, replacement)

  -- Refresh reads the first table, and its transaction works on the second, which other requests may
  -- have changed in between.
  unfoldable pub refresh :
      Text → List RefreshToken → List RefreshToken → List RefreshToken × Outcome TokenPair
  refresh given seen ts = elim (prepare_refresh given seen) [
    | err e ↦ (ts, err e)
    | ok (current, access_token, raw, replacement) ↦
        let (ts', rotated) = rotate m.write_fault m.defaults current.id replacement m.now ts in
        elim rotated [
          | err e ↦ (ts', err e)
          | ok created ↦ (ts', ok (token_pair access_token raw created.expires_at))
        ]
  ]

  unfoldable pub logout : Text → List RefreshToken → List RefreshToken × Outcome (Unit {0})
  logout given ts = elim (hash_of given) [
    | err e ↦ (ts, err e)
    | ok hash ↦
        let (ts', revoked) = revoke_by_hash m.write_fault hash m.now ts in
        (ts', hide is_not_found revoked)
  ]
