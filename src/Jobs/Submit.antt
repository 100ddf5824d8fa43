-- ===== src/Jobs/Submit.antt =====
-- internal/jobs/usecase/submit.go and get.go: a job is written to the table, published, and marked.
-- The generator of ids, the clock, `json.Marshal` and the publisher are ports, and so are the faults
-- of the database; a statement with a fault changes nothing. The worker may get the message, and change
-- the row, before the submission has marked it: what other processes do in between is a port as well.
pub mod Stored
pub mod Ordered
use edge_guard.Base.{
  ℤ, Bool, true, false, Option, none, some, List, [], ◌∷◌, ◌++◌, if◌then◌else◌, is_empty, Result,
  ok, err, ◌>>=◌, Error, sentinel, wrap, opaque, in_context,
}
use edge_guard.Base.Time.{Time}
use edge_guard.Text.{Text, codes, ◌≟◌, trim_space}
use edge_guard.Jobs.Envelope.{
  Envelope, JobType, webhook_deliver, report_generate, cleanup_expired_tokens, new_envelope,
}
use edge_guard.Jobs.Payload.{
  Library, Outcome, WebhookPayload, ReportPayload, CleanupPayload, new_webhook_payload,
  new_report_payload, new_cleanup_payload, normalize_max_attempts,
}
use edge_guard.Jobs.Table.Meanwhile.{Event, others}
use edge_guard.Jobs.Table.{
  Job, Statement, mark_queued, mark_submission_failed, update, update_row, create_job,
  new_publishing_job,
}

-- The errors of a submission: those of the input, of the envelope, and of what is outside.
pub data Failure : Type 0 where
  invalid_input : Error edge_guard.Jobs.Payload.Sentinel → Failure
  no_id : Text → Failure
  no_envelope : Error edge_guard.Jobs.Envelope.Sentinel → Failure
  not_stored : Failure
  not_published : Text → Failure

pub record Receipt : Type 0 where
  pub id : Text
  pub job_type : JobType
  pub status : Text
  pub created_at : Time

pub record Ports : Type 0 where
  pub json_valid : Text → Bool
  pub new_id : Result Text Text
  pub created_at : Time
  pub create_fault : Bool
  pub publish : Envelope → Option Text
  -- Whether the broker has the message although Publish has failed: the confirmation was lost.
  pub unconfirmed : Bool
  -- What other processes do to the table between the two statements of a submission.
  pub meanwhile : List Event
  pub marked_at : Time
  pub mark_fault : Bool

-- The table, the envelopes that the broker has, and what the caller gets.
pub record Submitted : Type 0 where
  pub jobs : List Job
  pub published : List Envelope
  pub receipt : Result Failure Receipt

module _ (p : Ports) where
  -- A statement whose result the caller ignores.
  abbrev pub ignored : List Job → List Job → List Job
  ignored jobs' jobs = if p.mark_fault then jobs else jobs'

  abbrev pub marked : Statement → Text → List Job → List Job
  marked st id jobs = ignored (update_row id (update st) jobs).0 jobs

  abbrev pub refused : List Job → Failure → Submitted
  refused jobs failure = record { jobs = jobs; published = []; receipt = err failure }

  unfoldable pub publish_job : Envelope → List Job → Submitted
  unfolding update_row update others
  publish_job e jobs = elim (p.publish e) [
    | some text ↦ record {
      jobs = marked (mark_submission_failed text p.marked_at) e.id (others p.meanwhile jobs);
      published = if p.unconfirmed then e ∷ [] else [];
      receipt = err (not_published text);
    }
    | none ↦ record {
      jobs = marked (mark_queued p.marked_at) e.id (others p.meanwhile jobs);
      published = e ∷ [];
      receipt = ok (record {
        id = e.id;
        job_type = e.job_type;
        status = codes "queued";
        created_at = e.created_at;
      });
    }
  ]

  -- What comes before the table: the number of attempts, the id and the envelope.
  unfoldable pub envelope_for : JobType → Option Text → ℤ → Result Failure Envelope
  unfolding new_envelope normalize_max_attempts
  envelope_for job_type payload max_attempts = elim (normalize_max_attempts max_attempts) [
    | err e ↦ err (invalid_input e)
    | ok attempts ↦ elim p.new_id [
      | err text ↦ err (no_id text)
      | ok id ↦ elim (new_envelope p.json_valid id job_type p.created_at attempts payload) [
        | err e ↦ err (no_envelope e)
        | ok envelope ↦ ok envelope
      ]
    ]
  ]

  unfoldable pub submit : JobType → Option Text → ℤ → List Job → Submitted
  unfolding envelope_for create_job publish_job new_publishing_job
  submit job_type payload max_attempts jobs = elim (envelope_for job_type payload max_attempts) [
    | err failure ↦ refused jobs failure
    | ok envelope ↦
        if p.create_fault
        then refused jobs not_stored
        else elim (create_job (new_publishing_job envelope p.created_at) jobs) [
          | none ↦ refused jobs not_stored
          | some jobs' ↦ publish_job envelope jobs'
        ]
  ]

  module _ (lib : Library) where
    unfoldable pub submit_webhook :
        (WebhookPayload → Option Text)
        → Text
        → Text
        → List (Text × Text)
        → Text
        → ℤ
        → List Job
        → Submitted
    unfolding submit new_webhook_payload
    submit_webhook marshal url method headers body max_attempts jobs =
        elim (new_webhook_payload lib url method headers body) [
          | err e ↦ refused jobs (invalid_input e)
          | ok payload ↦ submit webhook_deliver (marshal payload) max_attempts jobs
        ]

    unfoldable pub submit_report :
        (ReportPayload → Option Text) → Text → Time → Time → Text → ℤ → List Job → Submitted
    unfolding submit new_report_payload
    submit_report marshal project_id from to format max_attempts jobs =
        elim (new_report_payload lib project_id from to format) [
          | err e ↦ refused jobs (invalid_input e)
          | ok payload ↦ submit report_generate (marshal payload) max_attempts jobs
        ]

  unfoldable pub submit_cleanup :
      (CleanupPayload → Option Text) → Time → ℤ → ℤ → List Job → Submitted
  unfolding submit new_cleanup_payload
  submit_cleanup marshal before batch_size max_attempts jobs =
      elim (new_cleanup_payload before batch_size) [
        | err e ↦ refused jobs (invalid_input e)
        | ok payload ↦ submit cleanup_expired_tokens (marshal payload) max_attempts jobs
      ]
