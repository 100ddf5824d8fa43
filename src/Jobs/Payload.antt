-- ===== src/Jobs/Payload.antt =====
-- internal/jobs/domain/job.go: the payloads of the three kinds of job, and the bounds on attempts.
-- `url.ParseRequestURI`, `json.Valid` and the case tables of Unicode are parameters. A map of headers
-- is a list of pairs; its copy is the list.
use edge_guard.Base.{
  ℤ, pos, int_lt, Bool, not, ◌||◌, List, if◌then◌else◌, is_empty, Result, ok, err, Error, sentinel,
  ◌>>=◌, ◌>>◌, guard,
}
use edge_guard.Base.Time.{Time, is_zero, before}
use edge_guard.Text.{Text, codes, ◌≟◌, trim_space, to_upper, to_lower}
use edge_guard.Url.{Url, ParseUrl}

pub data Sentinel : Type 0 where
  invalid_webhook_url invalid_http_method invalid_webhook_body invalid_project_id : Sentinel
  invalid_report_range invalid_report_format invalid_cleanup_time invalid_batch_size : Sentinel
  invalid_max_attempts job_not_found : Sentinel

abbrev pub Outcome : Type 0 → Type 0
Outcome A = Result (Error Sentinel) A

pub record WebhookPayload : Type 0 where
  pub url : Text
  pub method : Text
  pub headers : List (Text × Text)
  pub body : Text

pub record ReportPayload : Type 0 where
  pub project_id : Text
  pub from : Time
  pub to : Time
  pub format : Text

pub record CleanupPayload : Type 0 where
  pub before : Time
  pub batch_size : ℤ

-- What the standard library decides, as far as it is not written out here.
pub record Library : Type 0 where
  pub parse_request_uri : ParseUrl
  pub json_valid : Text → Bool
  pub upper : Text → Text
  pub lower : Text → Text

abbrev default_max_attempts : ℤ
default_max_attempts = pos 5

abbrev pub max_max_attempts : ℤ
max_max_attempts = pos 10

abbrev default_batch_size : ℤ
default_batch_size = pos 500

abbrev pub max_batch_size : ℤ
max_batch_size = pos 5000

-- the first text, or the second if it is empty
abbrev or_default : Text → Text → Text
or_default s d = if is_empty s then d else s

abbrev is_method : Text → Bool
is_method m = m ≟ codes "POST" || m ≟ codes "PUT" || m ≟ codes "PATCH"

abbrev webhook_url : Result Text Url → Outcome Url
webhook_url (err _) = err (sentinel invalid_webhook_url)
webhook_url (ok u) =
    if is_empty u.host || not (u.scheme ≟ codes "http" || u.scheme ≟ codes "https")
    then err (sentinel invalid_webhook_url)
    else ok u

module _ (lib : Library) where
  unfoldable pub new_webhook_payload :
      Text → Text → List (Text × Text) → Text → Outcome WebhookPayload
  new_webhook_payload raw_url given_method headers body = do
    url ← webhook_url (lib.parse_request_uri (trim_space raw_url))
    let method = or_default (to_upper lib.upper (trim_space given_method)) (codes "POST")
    guard (is_method method) (sentinel invalid_http_method)
    guard (is_empty body || lib.json_valid body) (sentinel invalid_webhook_body)
    ok (record { url = url.text; method = method; headers = headers; body = body })

  unfoldable pub new_report_payload : Text → Time → Time → Text → Outcome ReportPayload
  new_report_payload given_project from to given_format = do
    let project_id = trim_space given_project
    guard (not (is_empty project_id)) (sentinel invalid_project_id)
    guard (not (is_zero from || is_zero to || not (before from to))) (sentinel invalid_report_range)
    let format = or_default (to_lower lib.lower (trim_space given_format)) (codes "json")
    guard (format ≟ codes "json" || format ≟ codes "csv") (sentinel invalid_report_format)
    ok (record { project_id = project_id; from = from; to = to; format = format })

-- `value == 0`
abbrev is_unset : ℤ → Bool
is_unset value = not (int_lt value (pos 0) || int_lt (pos 0) value)

unfoldable pub new_cleanup_payload : Time → ℤ → Outcome CleanupPayload
new_cleanup_payload before given_size = do
  guard (not (is_zero before)) (sentinel invalid_cleanup_time)
  let batch_size = if is_unset given_size then default_batch_size else given_size
  guard (not (int_lt batch_size (pos 1) || int_lt max_batch_size batch_size))
      (sentinel invalid_batch_size)
  ok (record { before = before; batch_size = batch_size })

unfoldable pub normalize_max_attempts : ℤ → Outcome ℤ
normalize_max_attempts value =
    if is_unset value
    then ok default_max_attempts
    else if int_lt value (pos 1) || int_lt max_max_attempts value
    then err (sentinel invalid_max_attempts)
    else ok value
