-- ===== src/Jobs.antt =====
-- internal/jobs, internal/jobworker and internal/platform/jobs: background jobs from their submission
-- over HTTP, through the table of jobs and RabbitMQ, to their execution.
pub mod Envelope
pub mod Payload
pub mod Table
pub mod Submit
pub mod Worker
mod Examples
