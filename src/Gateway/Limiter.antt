-- ===== src/Gateway/Limiter.antt =====
-- internal/gateway/infrastructure/ratelimit: fixed windows, counted by a script in Redis. The
-- evaluator is called once for a request and may change the state of Redis, so both are explicit.
pub mod Redis
pub mod Script
pub mod Window
use edge_guard.Base.{
  take, String, ℤ, pos, negsuc, int_le, int_lt, ◌+ℤ◌, ◌-ℤ◌, ◌*ℤ◌, ◌/ℤ◌, Bool, true, false, not,
  ◌||◌, List, [], ◌∷◌, ◌++◌, if◌then◌else◌, is_empty, Result, ok, err, Error, sentinel, in_context,
  opaque, ◌>>=◌,
}
use edge_guard.Base.Time.{Time, millisecond, unix_milli, of_unix_milli, add, sub}
use edge_guard.Text.{Text, codes, trim_space}
use edge_guard.Text.Format.{decimal, hex_encode}
use edge_guard.Gateway.Route.{
  Sentinel, RateLimitRequest, RateLimitResult, invalid_rate_limit_policy, invalid_rate_limit_client,
}
use edge_guard.Gateway.Usecase.{Outcome}

-- What a script returns, as far as the limiter tells values apart.
pub data Value : Type 0 where
  int64_value : ℤ → Value
  int_value : ℤ → Value
  other_value : Value

pub data Reply : Type 0 where
  array : List Value → Reply
  scalar : Value → Reply

unfoldable pub integer_value : Value → Outcome ℤ
integer_value (int64_value n) = ok n
integer_value (int_value n) = ok n
integer_value other_value = err (opaque (codes "expected integer"))

unfoldable pub parse_script_result : Reply → Outcome (ℤ × ℤ)
unfolding integer_value
parse_script_result (array (a ∷ b ∷ [])) = do
  current ← in_context "decode redis rate limit counter" (integer_value a)
  ttl ← in_context "decode redis rate limit ttl" (integer_value b)
  ok (current, ttl)
parse_script_result _ = err (opaque (codes "unexpected redis rate limit response"))

unfoldable pub max_duration : ℤ → ℤ → ℤ
max_duration left right = if int_lt right left then left else right

-- the first sixteen bytes of the digest; `sha256` is the standard library's, which is a parameter
unfoldable pub hash_key_part : (Text → Text) → Text → Text
hash_key_part sha256 value = hex_encode (take 16 (sha256 value))

pub record Limiter : Type 0 where
  pub key_prefix : Text
  pub sha256 : Text → Text

unfoldable pub redis_key : Limiter → Text → Text → ℤ → Text
redis_key l route_key client_id window =
    l.key_prefix
    ++ b':' ∷ hash_key_part l.sha256 route_key
    ++ b':' ∷ hash_key_part l.sha256 client_id
    ++ b':' ∷ decimal window

-- the window of a time, and the time at which it ends
unfoldable pub current_window : Time → ℤ → ℤ
current_window now (pos w) = unix_milli now /ℤ w
current_window now (negsuc w) = pos 0

unfoldable pub window_end : ℤ → ℤ → Time
window_end window (pos w) = of_unix_milli ((window +ℤ pos 1) *ℤ w)
window_end window (negsuc w) = 0

-- the time to live that the script is given, in milliseconds
unfoldable pub script_ttl : Time → Time → ℤ
unfolding ◌/ℤ◌ sub
script_ttl reset_at now =
    let ttl = sub reset_at now in
    (if int_lt ttl (pos millisecond) then pos millisecond else ttl) /ℤ millisecond

unfoldable pub limit_result : RateLimitRequest → Time → Time → ℤ × ℤ → RateLimitResult
unfolding max_duration add ◌*ℤ◌ ◌-ℤ◌ sub
limit_result request now window_reset (current, redis_ttl) =
    let limit = request.policy.limit in
    let reset_at =
      if int_lt (pos 0) redis_ttl then add now (redis_ttl *ℤ millisecond) else window_reset in
    record {
      enabled = true;
      allowed = int_le current limit;
      limit = limit;
      remaining = if int_lt current limit then limit -ℤ current else pos 0;
      reset_at = reset_at;
      retry_after = max_duration (sub reset_at now) (pos millisecond);
    }

abbrev executed : Outcome Reply → RateLimitRequest → Time → Time → Outcome RateLimitResult
executed reply request now reset_at = do
  value ← in_context "execute redis rate limit script" reply
  counted ← parse_script_result value
  ok (limit_result request now reset_at counted)

-- The result, and the state of Redis afterwards.
module _ {State : Type 0} where
  unfoldable pub allow :
      (State → Text → ℤ → Outcome Reply × State)
      → Limiter
      → RateLimitRequest
      → Time
      → State
      → Outcome RateLimitResult × State
  allow eval l request now redis =
      let window_ms = request.policy.window /ℤ millisecond in
      if int_le request.policy.limit (pos 0) || int_le request.policy.window (pos 0)
      then (err (sentinel invalid_rate_limit_policy), redis)
      else if is_empty (trim_space request.route_key) || is_empty (trim_space request.client_id)
      then (err (sentinel invalid_rate_limit_client), redis)
      else if int_le window_ms (pos 0)
      then (err (sentinel invalid_rate_limit_policy), redis)
      else let window = current_window now window_ms in
        let reset_at = window_end window window_ms in
        let (reply, redis') =
          eval redis (redis_key l request.route_key request.client_id window)
            (script_ttl reset_at now) in
        (executed reply request now reset_at, redis')
