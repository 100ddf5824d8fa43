-- ===== src/Jobs/Worker.antt =====
-- The job worker: internal/jobworker/domain (errors, results), usecase/process.go, which carries out
-- a job, and infrastructure/rabbitmq/consumer.go (`handleDelivery`), which settles a delivery. The
-- webhook sender, the report generator, the token cleaner, the decoders of JSON and `%q` are ports.
-- Logging and tracing are left out; the time limit of a job shows only in what the ports return.
pub mod Settled
mod Examples
pub mod Attempts
pub mod Retries
pub mod Sender
pub mod Cleaner
pub mod Report
mod Deliveries
use edge_guard.Base.{
  String, ℕ, ◌^◌, ◌-◌, ℤ, pos, int_lt, int_le, ◌+ℤ◌, int64, Bool, true, false, not, ◌||◌, Option,
  none, some, List, [], ◌++◌, if◌then◌else◌, is_empty, Result, ok, err, Error, sentinel, wrap,
  opaque, ◌>>=◌, ◌>>◌, guard, ltb, leb, ◌∷◌,
}
use edge_guard.Base.Time.{Time, is_zero}
use edge_guard.Text.{Text, codes, ◌≟◌}
use edge_guard.Jobs.Envelope.{
  Envelope, JobType, webhook_deliver, report_generate, cleanup_expired_tokens, other, validate,
}
use edge_guard.Jobs.Payload.{WebhookPayload, ReportPayload, CleanupPayload}
use edge_guard.Jobs.Table.{
  Status, succeeded, failed, Job, ExecutionResult, Statement, mark_succeeded, mark_failed,
  mark_retrying, update, update_row, prepare,
}
use edge_guard.Jobs.Table.Lifecycle.{run}

-- An error of a job. `noted e text` is `fmt.Errorf("%w: %v", e, …)`, `context text e` is
-- `fmt.Errorf("text: %w", e)`, `plain` an error of a library or a package-level one, by its text.
pub data Failure : Type 0 where
  invalid_job_payload : Failure
  plain : Text → Failure
  noted : Failure → Text → Failure
  context : Text → Failure → Failure
  permanent : Failure → Failure

-- `err.Error()`
unfoldable pub describe : Failure → Text
describe invalid_job_payload = codes "invalid job payload"
describe (plain text) = text
describe (noted e text) = describe e ++ (codes ": " ++ text)
describe (context text e) = text ++ (codes ": " ++ describe e)
describe (permanent e) = codes "permanent job error: " ++ describe e

unfoldable pub is_permanent : Failure → Bool
is_permanent (permanent _) = true
is_permanent (noted e _) = is_permanent e
is_permanent (context _ e) = is_permanent e
is_permanent _ = false

pub record Ports : Type 0 where
  pub json_valid : Text → Bool
  pub unmarshal_envelope : Text → Option Envelope
  pub unmarshal_webhook : Text → Result Text WebhookPayload
  pub unmarshal_report : Text → Result Text ReportPayload
  pub unmarshal_cleanup : Text → Result Text CleanupPayload
  pub quote : Text → Text
  pub deliver : WebhookPayload → Result Failure (Unit {0})
  pub generate : Text → ReportPayload → Result Failure (Text × ℤ)
  pub cleanup_expired_tokens : CleanupPayload → Result Failure ℤ

-- A value of an AMQP header: any of the smaller integers or `int64`, a `uint64`, or something else.
pub data HeaderValue : Type 0 where
  int : ℤ → HeaderValue
  uint64 : ℕ → HeaderValue
  no_number : HeaderValue

pub record Delivery : Type 0 where
  pub headers : List (Text × HeaderValue)
  pub body : Text

unfoldable pub header_int64 : List (Text × HeaderValue) → Text → ℤ
header_int64 [] key = pos 0
header_int64 ((name, int z) ∷ headers) key = if name ≟ key then z else header_int64 headers key
header_int64 ((name, uint64 n) ∷ headers) key =
    if name ≟ key then if ltb (2 ^ 63 - 1) n then pos 0 else pos n else header_int64 headers key
header_int64 ((name, no_number) ∷ headers) key =
    if name ≟ key then pos 0 else header_int64 headers key

unfoldable pub delivery_attempt : List (Text × HeaderValue) → ℤ
unfolding header_int64
delivery_attempt headers =
    let given = header_int64 headers (codes "x-delivery-count") in
    let count = if int_lt given (pos 0) then pos 0 else given in int64 (count +ℤ pos 1)

unfoldable pub decode_payload {ℓ} :
    {A : Type ℓ} → (Text → Bool) → (Text → Result Text A) → Text → Result Failure A
decode_payload json_valid unmarshal raw =
    if is_empty raw || not (json_valid raw)
    then err (permanent invalid_job_payload)
    else elim (unmarshal raw) [
      | ok payload ↦ ok payload
      | err text ↦ err (permanent (noted invalid_job_payload text))
    ]

abbrev result_of : Text → Text → ℤ → ExecutionResult
result_of message output_path affected_rows = record {
  message = message;
  output_path = output_path;
  affected_rows = affected_rows;
}

abbrev max_batch_size : ℤ
max_batch_size = pos 5000

module _ (p : Ports) where
  unfoldable pub process_as : JobType → Envelope → Result Failure ExecutionResult
  unfolding decode_payload
  process_as webhook_deliver e = do
    payload ← decode_payload p.json_valid p.unmarshal_webhook e.payload
    p.deliver payload
    ok (result_of (codes "webhook delivered") [] (pos 0))
  process_as report_generate e = do
    payload ← decode_payload p.json_valid p.unmarshal_report e.payload
    (output_path, rows) ← p.generate e.id payload
    ok (result_of (codes "report generated") output_path rows)
  process_as cleanup_expired_tokens e = do
    payload ← decode_payload p.json_valid p.unmarshal_cleanup e.payload
    guard
        (not (
          is_zero payload.before
          || int_lt payload.batch_size (pos 1)
          || int_lt max_batch_size payload.batch_size))
        (permanent invalid_job_payload)
    deleted ← p.cleanup_expired_tokens payload
    ok (result_of (codes "expired refresh tokens cleaned") [] deleted)
  process_as (other name) e =
      err (permanent (plain (codes "unsupported job type " ++ p.quote name)))

  unfoldable pub process : Envelope → Result Failure ExecutionResult
  unfolding process_as
  process e = process_as e.job_type e

-- `pgx.ErrNoRows`
pub data Sentinel : Type 0 where
  no_rows : Sentinel

-- What the worker tells the broker: `Ack(false)` or `Reject(requeue)`.
pub data Settlement : Type 0 where
  acked : Settlement
  rejected : Bool → Settlement

-- The circumstances of one delivery: the clock, the faults of the database and of the channel (a
-- statement with a fault changes nothing), and the statements that others run on the table while the
-- job is carried out.
pub record Moment : Type 0 where
  pub prepared_at : Time
  pub prepare_fault : Option Text
  pub meanwhile : List (Text × Statement)
  pub marked_at : Time
  pub mark_fault : Option Text
  pub settle_fault : Option Text

-- The table afterwards, whether the job was carried out, and what the broker was told.
pub record Handled : Type 0 where
  pub jobs : List Job
  pub ran : Bool
  pub outcome : Result (Error Sentinel) Settlement

abbrev settle : Moment → Settlement → Result (Error Sentinel) Settlement
settle m s = elim m.settle_fault [
  | none ↦ ok s
  | some text ↦ err (wrap "settle RabbitMQ job" (opaque text))
]

-- the context of the error of a statement that records a result
abbrev persisting : Statement → String
persisting (mark_succeeded _ _ _) = "persist completed job status"
persisting (mark_failed _ _ _) = "persist failed job status"
persisting _ = "persist retrying job status"

-- MarkSucceeded, MarkFailed or MarkRetrying, and then the settlement.
unfoldable pub mark : Moment → Text → Statement → Settlement → List Job → Handled
unfolding update_row update
mark m id st s jobs = elim m.mark_fault [
  | some text ↦ record {
    jobs = jobs;
    ran = true;
    outcome = err (wrap (persisting st) (opaque text));
  }
  | none ↦
      let (jobs', hit) = update_row id (update st) jobs in
      record {
        jobs = jobs';
        ran = true;
        outcome = if hit then settle m s else err (wrap (persisting st) (sentinel no_rows));
      }
]

abbrev pub is_succeeded : Status → Bool
is_succeeded succeeded = true
is_succeeded _ = false

abbrev pub is_failed : Status → Bool
is_failed failed = true
is_failed _ = false

module _ (p : Ports) (m : Moment) where
  -- The part of the handler that carries the job out.
  unfoldable pub carry_out : Envelope → ℤ → List Job → Handled
  unfolding process mark
  carry_out e attempt jobs = elim (process p e) [
    | ok result ↦ mark m e.id (mark_succeeded attempt result m.marked_at) acked jobs
    | err failure ↦
        if is_permanent failure || int_le e.max_attempts attempt
        then mark m e.id (mark_failed attempt (describe failure) m.marked_at) (rejected false) jobs
        else mark m e.id (mark_retrying attempt (describe failure) m.marked_at) (rejected true) jobs
  ]

  -- The part from PrepareAttempt on.
  unfoldable pub attempt_job : Envelope → ℤ → List Job → Handled
  unfolding prepare carry_out run
  attempt_job e attempt jobs = elim m.prepare_fault [
    | some text ↦ record {
      jobs = jobs;
      ran = false;
      outcome = err (wrap "prepare job status" (opaque text));
    }
    | none ↦
        let (jobs', status) = prepare e attempt m.prepared_at jobs in
        if is_succeeded status
        then record { jobs = jobs'; ran = false; outcome = settle m acked }
        else if is_failed status
        then record { jobs = jobs'; ran = false; outcome = settle m (rejected false) }
        else carry_out e attempt (run m.meanwhile jobs')
  ]

  unfoldable pub handle_delivery : Delivery → List Job → Handled
  unfolding attempt_job
  handle_delivery d jobs = elim (p.unmarshal_envelope d.body) [
    | none ↦ record { jobs = jobs; ran = false; outcome = settle m (rejected false) }
    | some e ↦ elim (validate p.json_valid e) [
      | err _ ↦ record { jobs = jobs; ran = false; outcome = settle m (rejected false) }
      | ok _ ↦ attempt_job e (delivery_attempt d.headers) jobs
    ]
  ]
