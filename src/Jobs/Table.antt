-- ===== src/Jobs/Table.antt =====
-- internal/jobs/domain/status.go and internal/jobs/infrastructure/postgres/jobs.go: the rows of
-- `background_jobs` (migrations/000005) and the statements on them. Each statement is what it does to
-- a row that it finds, and `none` if its WHERE clause does not select the row.
pub mod Rows
pub mod Lifecycle
pub mod Meanwhile
use edge_guard.Base.{
  ℤ, pos, int_lt, int_le, Bool, true, false, not, ◌&&◌, ◌||◌, Option, none, some, List, [], ◌∷◌,
  ◌++◌, if◌then◌else◌,
}
use edge_guard.Base.Time.{Time}
use edge_guard.Text.{Text, ◌≟◌, trim_space}
use edge_guard.Jobs.Envelope.{Envelope, JobType}

pub data Status : Type 0 where
  publishing publish_failed queued processing retrying succeeded failed : Status

pub record Job : Type 0 where
  pub id : Text
  pub job_type : JobType
  pub status : Status
  pub current_attempt : ℤ
  pub max_attempts : ℤ
  pub created_at : Time
  pub queued_at : Option Time
  pub started_at : Option Time
  pub completed_at : Option Time
  pub updated_at : Time
  pub last_error : Text
  pub result_message : Text
  pub output_path : Text
  pub affected_rows : ℤ

pub record ExecutionResult : Type 0 where
  pub message : Text
  pub output_path : Text
  pub affected_rows : ℤ

abbrev pub final : Status → Bool
final succeeded = true
final failed = true
final _ = false

abbrev is_publishing : Status → Bool
is_publishing publishing = true
is_publishing _ = false

abbrev is_succeeded : Status → Bool
is_succeeded succeeded = true
is_succeeded _ = false

unfoldable pub new_publishing_job : Envelope → Time → Job
new_publishing_job e now = record {
  id = e.id;
  job_type = e.job_type;
  status = publishing;
  current_attempt = pos 0;
  max_attempts = e.max_attempts;
  created_at = e.created_at;
  queued_at = none;
  started_at = none;
  completed_at = none;
  updated_at = now;
  last_error = [];
  result_message = [];
  output_path = [];
  affected_rows = pos 0;
}

-- LEAST and COALESCE
abbrev least : ℤ → ℤ → ℤ
least a b = if int_lt b a then b else a

abbrev coalesce : Option Time → Time → Option Time
coalesce none t = some t
coalesce (some s) t = some s

-- The statements on one row.
pub data Statement : Type 0 where
  mark_queued : Time → Statement
  mark_submission_failed : Text → Time → Statement
  prepare_attempt : ℤ → Time → Statement
  mark_retrying : ℤ → Text → Time → Statement
  mark_succeeded : ℤ → ExecutionResult → Time → Statement
  mark_failed : ℤ → Text → Time → Statement

unfoldable pub update : Statement → Job → Option Job
update (mark_queued at) j =
    if is_publishing j.status
    then some (record j {
      status = queued;
      queued_at = coalesce j.queued_at at;
      updated_at = at;
      last_error = [];
    })
    else none
update (mark_submission_failed failure at) j =
    if is_publishing j.status
    then some (record j {
      status = publish_failed;
      completed_at = some at;
      updated_at = at;
      last_error = trim_space failure;
    })
    else none
update (prepare_attempt attempt at) j =
    if not (final j.status)
    then some (record j {
      status = processing;
      current_attempt = least attempt j.max_attempts;
      started_at = coalesce j.started_at at;
      updated_at = at;
      last_error = [];
    })
    else none
update (mark_retrying attempt failure at) j =
    if not (final j.status)
    then some (record j {
      status = retrying;
      current_attempt = least attempt j.max_attempts;
      updated_at = at;
      last_error = trim_space failure;
    })
    else none
update (mark_succeeded attempt result at) j =
    if not (final j.status)
    then some (record j {
      status = succeeded;
      current_attempt = least attempt j.max_attempts;
      completed_at = some at;
      updated_at = at;
      last_error = [];
      result_message = result.message;
      output_path = result.output_path;
      affected_rows = result.affected_rows;
    })
    else none
update (mark_failed attempt failure at) j =
    if not (is_succeeded j.status)
    then some (record j {
      status = failed;
      current_attempt = least attempt j.max_attempts;
      completed_at = some at;
      updated_at = at;
      last_error = trim_space failure;
    })
    else none

-- The id is the primary key. `true` if a row was returned.
unfoldable pub update_row : Text → (Job → Option Job) → List Job → List Job × Bool
update_row id f [] = ([], false)
update_row id f (j ∷ js) =
    let (rest, hit) = update_row id f js in
    if j.id ≟ id
    then elim (f j) [ none ↦ (j ∷ js, false) | some j' ↦ (j' ∷ js, true) ]
    else (j ∷ rest, hit)

unfoldable pub get_job : Text → List Job → Option Job
get_job id [] = none
get_job id (j ∷ js) = if j.id ≟ id then some j else get_job id js

-- `background_jobs_attempt_check`
abbrev pub attempt_check : Job → Bool
attempt_check j =
    int_le (pos 0) j.current_attempt
    && int_le (pos 1) j.max_attempts
    && int_le j.current_attempt j.max_attempts

-- INSERT of a new job; `none` if a constraint is violated.
unfoldable pub create_job : Job → List Job → Option (List Job)
unfolding get_job
create_job job jobs =
    if not (attempt_check job)
    then none
    else elim (get_job job.id jobs) [ some _ ↦ none | none ↦ some (jobs ++ job ∷ []) ]

-- the row that PrepareAttempt inserts if there is none
abbrev pub first_attempt : Envelope → ℤ → Time → Job
first_attempt e attempt at = record {
  id = e.id;
  job_type = e.job_type;
  status = processing;
  current_attempt = least attempt e.max_attempts;
  max_attempts = e.max_attempts;
  created_at = e.created_at;
  queued_at = none;
  started_at = some at;
  completed_at = none;
  updated_at = at;
  last_error = [];
  result_message = [];
  output_path = [];
  affected_rows = pos 0;
}

-- PrepareAttempt: INSERT … ON CONFLICT DO UPDATE … WHERE, and the status that the query returns.
unfoldable pub prepare : Envelope → ℤ → Time → List Job → List Job × Status
unfolding get_job update_row update
prepare e attempt at jobs = elim (get_job e.id jobs) [
  | none ↦ (jobs ++ first_attempt e attempt at ∷ [], processing)
  | some j ↦
      if final j.status
      then (jobs, j.status)
      else ((update_row e.id (update (prepare_attempt attempt at)) jobs).0, processing)
]
