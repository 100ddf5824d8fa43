-- ===== src/Jobs/Worker/Retries.antt =====
-- The attempts at a job: the deliveries of one message, as the broker counts them.
use edge_guard.Base.{
  ℕ, zero, suc, ◌+◌, ◌<◌, ◌≤◌, ◌^◌, pos, int_le, ◌≡◌, ◌≢◌, refl, sym, ap, ◌∙◌, Bool, true, false,
  some, List, arith, ok, err,
}
use edge_guard.Text.{Text, codes}
use edge_guard.Jobs.Envelope.{Envelope, validate}
use edge_guard.Jobs.Table.{final, Job, get_job}
use edge_guard.Jobs.Worker.{
  Ports, Delivery, header_int64, Settlement, acked, rejected, Moment, Handled, attempt_job,
  handle_delivery,
}
use edge_guard.Jobs.Worker.Settled.{status_of, Agrees, handle_delivery-Agrees}
use edge_guard.Jobs.Worker.Attempts.{IsCalm, attempt_of_count, requeued, attempt_job_told}

-- Settled for good: the row of the job is final, and the broker was told so.
pub record IsSettled (id : Text) (h : Handled) : Type 0 where
  pub settlement : Settlement
  pub told : h.outcome ≡ ok settlement
  pub row : Job
  pub found : get_job id h.jobs ≡ some row
  pub agrees : row.status ≡ status_of settlement
  pub done : final row.status ≡ true

abbrev is_requeue : Settlement → Bool
is_requeue (rejected true) = true
is_requeue _ = false

settled_now :
    (id : Text) (h : Handled) (s : Settlement)
    → h.outcome ≡ ok s
    → s ≢ rejected true
    → Agrees id h
    → IsSettled id h
settled_now id h acked told other agrees =
    let (j, found, same) = agrees acked told in
    record {
      settlement = acked;
      told = told;
      row = j;
      found = found;
      agrees = same;
      done = rw same refl;
    }
settled_now id h (rejected false) told other agrees =
    let (j, found, same) = agrees (rejected false) told in
    record {
      settlement = rejected false;
      told = told;
      row = j;
      found = found;
      agrees = same;
      done = rw same refl;
    }
settled_now id h (rejected true) told other agrees = ground arith

module _ (p : Ports) (moments : ℕ → Moment) (deliveries : ℕ → Delivery) where
  -- The worker serves the deliveries of one message from the k-th on, as long as each of them is
  -- requeued, and one more than `fuel` of them at most.
  unfoldable pub serve : ℕ → ℕ → List Job → Handled
  unfolding handle_delivery
  serve zero k jobs = handle_delivery p (moments k) (deliveries k) jobs
  serve (suc fuel) k jobs =
      let h = handle_delivery p (moments k) (deliveries k) jobs in
      elim h.outcome [
        | ok acked ↦ h
        | ok (rejected false) ↦ h
        | ok (rejected true) ↦ serve fuel (suc k) h.jobs
        | err e ↦ h
      ]

  module _ (calm : (k : ℕ) → IsCalm (moments k)) (e : Envelope)
      (read : (k : ℕ) → p.unmarshal_envelope (deliveries k).body ≡ some e)
      (good : validate p.json_valid e ≡ ok tt)
      (counted : (k : ℕ) → header_int64 (deliveries k).headers (codes "x-delivery-count") ≡ pos k)
      (n : ℕ) (bound : e.max_attempts ≡ pos (suc n)) (small : suc n < 2 ^ 63) where
    as_attempt :
        (k : ℕ) (jobs : List Job)
        → k ≤ n
        → handle_delivery p (moments k) (deliveries k) jobs
          ≡ attempt_job p (moments k) e (pos (suc k)) jobs
    unfolding handle_delivery
    as_attempt k jobs h =
        rw
          (
            handle_delivery,
            read k,
            good,
            attempt_of_count (deliveries k).headers k (counted k) (omega arith),
          )
          refl

    told_at :
        (k : ℕ) (jobs : List Job)
        → k ≤ n
        → (s : Settlement) × ((handle_delivery p (moments k) (deliveries k) jobs).outcome ≡ ok s)
    told_at k jobs h =
        rw (as_attempt k jobs h) (attempt_job_told p (moments k) e (pos (suc k)) jobs (calm k))

    requeued_at :
        (k : ℕ) (jobs : List Job)
        → k ≤ n
        → (handle_delivery p (moments k) (deliveries k) jobs).outcome ≡ ok (rejected true)
        → suc k < suc n
    requeued_at k jobs h again =
        let below : int_le e.max_attempts (pos (suc k)) ≡ false =
          requeued p (moments k) e (pos (suc k)) jobs
            (sym (ap (λ h. h.outcome) (as_attempt k jobs h)) ∙ again) in
        ground arith

    -- the rest of the deliveries, if this one is requeued
    served_next :
        (fuel k : ℕ) (jobs : List Job) (s : Settlement)
        → (handle_delivery p (moments k) (deliveries k) jobs).outcome ≡ ok s
        → IsSettled e.id
            (serve fuel (suc k) (handle_delivery p (moments k) (deliveries k) jobs).jobs)
        → IsSettled e.id (serve (suc fuel) k jobs)
    unfolding serve
    served_next fuel k jobs acked told rest =
        rw (serve, told)
          (settled_now e.id (handle_delivery p (moments k) (deliveries k) jobs) acked told (λ h. cc)
            (handle_delivery-Agrees p (moments k) (deliveries k) jobs e (read k) good))
    served_next fuel k jobs (rejected false) told rest =
        rw (serve, told)
          (settled_now e.id (handle_delivery p (moments k) (deliveries k) jobs) (rejected false)
            told (λ h. ground arith)
            (handle_delivery-Agrees p (moments k) (deliveries k) jobs e (read k) good))
    served_next fuel k jobs (rejected true) told rest = rw (serve, told) rest

    served : (fuel k : ℕ) (jobs : List Job) → fuel + k ≡ n → IsSettled e.id (serve fuel k jobs)
    unfolding serve
    served zero k jobs h =
        let (s, told) = told_at k jobs (omega arith) in
        settled_now e.id (handle_delivery p (moments k) (deliveries k) jobs) s told
          (λ again. ground (arith, requeued_at k jobs (omega arith) (told ∙ ap ok again)))
          (handle_delivery-Agrees p (moments k) (deliveries k) jobs e (read k) good)
    served (suc fuel) k jobs h =
        let (s, told) = told_at k jobs (omega arith) in
        served_next fuel k jobs s told (
          served fuel (suc k) (handle_delivery p (moments k) (deliveries k) jobs).jobs
            (omega arith))

    -- A valid message that may be attempted n + 1 times, delivered with the broker's count of its
    -- deliveries, is settled for good within n + 1 deliveries, when nothing but the job itself fails
    -- and no one else touches the table: its row has succeeded or failed, as the broker was told.
    pub serve-IsSettled : (jobs : List Job) → IsSettled e.id (serve n 0 jobs)
    serve-IsSettled jobs = served n 0 jobs (omega arith)
