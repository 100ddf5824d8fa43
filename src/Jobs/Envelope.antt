-- ===== src/Jobs/Envelope.antt =====
-- internal/platform/jobs/envelope.go: the message that carries a job. Payloads are JSON in bytes;
-- `json.Valid` is a parameter.
use edge_guard.Base.{
  ℤ, pos, int_lt, Bool, true, false, not, ◌||◌, is_empty, Option, none, some, Result, ok, err,
  Error, sentinel, ◌>>=◌, ◌>>◌, guard,
}
use edge_guard.Base.Time.{Time, is_zero}
use edge_guard.Text.{Text, trim_space}

pub data Sentinel : Type 0 where
  invalid_id invalid_type invalid_created_at invalid_attempt : Sentinel
  invalid_max_attempts invalid_payload : Sentinel

-- `other` is a string that is none of the three constants.
pub data JobType : Type 0 where
  webhook_deliver report_generate cleanup_expired_tokens : JobType
  other : Text → JobType

pub record Envelope : Type 0 where
  pub schema_version : ℤ
  pub id : Text
  pub job_type : JobType
  pub created_at : Time
  pub attempt : ℤ
  pub max_attempts : ℤ
  pub payload : Text

abbrev pub schema_version : ℤ
schema_version = pos 1

unfoldable pub valid : JobType → Bool
valid (other _) = false
valid _ = true

-- `a != b`
abbrev differs : ℤ → ℤ → Bool
differs a b = int_lt a b || int_lt b a

unfoldable pub validate : (Text → Bool) → Envelope → Result (Error Sentinel) (Unit {0})
unfolding valid
validate json_valid e = do
  guard (not (differs e.schema_version schema_version)) (sentinel invalid_payload)
  guard (not (is_empty (trim_space e.id))) (sentinel invalid_id)
  guard (valid e.job_type) (sentinel invalid_type)
  guard (not (is_zero e.created_at)) (sentinel invalid_created_at)
  guard (not (int_lt e.attempt (pos 1))) (sentinel invalid_attempt)
  guard (not (int_lt e.max_attempts e.attempt)) (sentinel invalid_max_attempts)
  guard (not (is_empty e.payload || not (json_valid e.payload))) (sentinel invalid_payload)

-- The payload is given as what `json.Marshal` makes of it, if it makes anything.
unfoldable pub new_envelope :
    (Text → Bool) → Text → JobType → Time → ℤ → Option Text → Result (Error Sentinel) Envelope
new_envelope json_valid id job_type created_at max_attempts none = err (sentinel invalid_payload)
new_envelope json_valid id job_type created_at max_attempts (some payload) =
    let envelope : Envelope = record {
      schema_version = schema_version;
      id = trim_space id;
      job_type = job_type;
      created_at = created_at;
      attempt = pos 1;
      max_attempts = max_attempts;
      payload = payload;
    } in
    validate json_valid envelope >>= λ _. ok envelope
