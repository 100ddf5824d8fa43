-- ===== src/Jobs/Worker/Attempts.antt =====
-- One attempt at a job when nothing but the job itself fails.
use edge_guard.Base.{
  ℕ, suc, ◌<◌, ◌^◌, ℤ, pos, int_le, int64_small, ◌+ℤ◌, ◌≡◌, ◌≢◌, refl, inl, inr, true, false, ◌||◌,
  Bool-cases, none, some, Option-cases, List, [], arith, ok, Result-cases,
}
use edge_guard.Base.Time.{Time}
use edge_guard.Text.{Text, codes}
use edge_guard.Text.Equal.{≟_refl}
use edge_guard.Jobs.Envelope.{Envelope}
use edge_guard.Jobs.Table.{
  Status, final, Job, Statement, ExecutionResult, mark_succeeded, mark_failed, mark_retrying,
  prepare_attempt, update, update_row, get_job, prepare, first_attempt,
}
use edge_guard.Jobs.Table.Rows.{
  updated, selected, get_job-update_row, update_row-selected, get_job-append,
}
use edge_guard.Jobs.Table.Lifecycle.{run, update-KeepsId}
use edge_guard.Jobs.Worker.{
  Ports, HeaderValue, header_int64, delivery_attempt, is_permanent, describe, process, Settlement,
  acked, rejected, Moment, mark, carry_out, attempt_job, is_succeeded, is_failed,
}

-- Nothing fails but the job itself, and nobody else touches the table.
pub record IsCalm (m : Moment) : Type 0 where
  pub prepared : m.prepare_fault ≡ none
  pub alone : m.meanwhile ≡ []
  pub marked : m.mark_fault ≡ none
  pub told : m.settle_fault ≡ none

-- the first delivery of a message has no count, or 0
pub attempt_of_count :
    (headers : List (Text × HeaderValue)) (k : ℕ)
    → header_int64 headers (codes "x-delivery-count") ≡ pos k
    → suc k < 2 ^ 63
    → delivery_attempt headers ≡ pos (suc k)
unfolding delivery_attempt ◌+ℤ◌
attempt_of_count headers k h small = ground (arith, int64_small (suc k) small)

-- a row that can be prepared is live afterwards
pub prepared_live :
    (e : Envelope) (attempt : ℤ) (at : Time) (jobs : List Job)
    → is_succeeded (prepare e attempt at jobs).1 ≡ false
    → is_failed (prepare e attempt at jobs).1 ≡ false
    → (j : Job) × (get_job e.id (prepare e attempt at jobs).0 ≡ some j) × (final j.status ≡ false)
unfolding prepare update
prepared_live e attempt at jobs s f = elim (Option-cases (get_job e.id jobs)) [
  | inl out ↦ (
    first_attempt e attempt at,
    rw (prepare, out, get_job-append e.id jobs (first_attempt e attempt at) out, ≟_refl e.id),
    refl,
  )
  | inr (j, found) ↦ elim (Bool-cases (final j.status)) [
    | inl done ↦ ground arith
    | inr live ↦ elim (Option-cases (update (prepare_attempt attempt at) j)) [
      | inl out ↦ ground arith
      | inr (j', u) ↦ (
        j',
        rw (
          prepare,
          found,
          live,
          get_job-update_row (update (prepare_attempt attempt at))
              (update-KeepsId (prepare_attempt attempt at)) e.id e.id jobs,
          ≟_refl e.id,
          found,
          updated,
          u,
        ),
        ground arith,
      )
    ]
  ]
]

-- a mark on a live row is followed by the settlement
pub mark_of_live :
    (m : Moment) (id : Text) (st : Statement) (s : Settlement) (jobs : List Job) (j j' : Job)
    → IsCalm m
    → get_job id jobs ≡ some j
    → update st j ≡ some j'
    → (mark m id st s jobs).outcome ≡ ok s
unfolding mark
mark_of_live m id st s jobs j j' calm found u =
    let hit : (update_row id (update st) jobs).1 ≡ true =
      rw (update_row-selected (update st) id jobs, found, selected, u) in
    rw (mark, calm.marked, hit, calm.told)

-- A job is only requeued below its last attempt.
pub requeued :
    (p : Ports) (m : Moment) (e : Envelope) (attempt : ℤ) (jobs : List Job)
    → (attempt_job p m e attempt jobs).outcome ≡ ok (rejected true)
    → int_le e.max_attempts attempt ≡ false
unfolding attempt_job carry_out mark
requeued p m e attempt jobs h = elim (Option-cases m.prepare_fault) [
  | inr (text, f) ↦ ground arith
  | inl f ↦ elim (Result-cases (process p e)) [
    | inl (result, done) ↦ ground arith
    | inr (failure, out) ↦ ground arith
  ]
]

not_succeeded : (s : Status) → final s ≡ false → is_succeeded s ≡ false
not_succeeded s h = ground arith

abbrev no_result : ExecutionResult
no_result = record { message = []; output_path = []; affected_rows = pos 0 }

-- a statement of the consumer on a live row
live_updates :
    (j : Job)
    → final j.status ≡ false
    → (attempt : ℤ) (result : ExecutionResult) (failure : Text) (at : Time)
    → ((j' : Job) × (update (mark_succeeded attempt result at) j ≡ some j'))
      × ((j' : Job) × (update (mark_failed attempt failure at) j ≡ some j'))
      × ((j' : Job) × (update (mark_retrying attempt failure at) j ≡ some j'))
unfolding update
live_updates j live attempt result failure at = (
  applies (mark_succeeded attempt result at) (λ out. ground arith),
  applies (mark_failed attempt failure at) (λ out. ground arith),
  applies (mark_retrying attempt failure at) (λ out. ground arith),
)
  where
    applies : (st : Statement) → update st j ≢ none → (j' : Job) × (update st j ≡ some j')
    applies st h = elim (Option-cases (update st j)) [ inl out ↦ ground arith | inr found ↦ found ]

carry_out_told :
    (p : Ports) (m : Moment) (e : Envelope) (attempt : ℤ) (jobs : List Job) (j : Job)
    → IsCalm m
    → get_job e.id jobs ≡ some j
    → final j.status ≡ false
    → (s : Settlement) × ((carry_out p m e attempt jobs).outcome ≡ ok s)
unfolding carry_out
carry_out_told p m e attempt jobs j calm found live = elim (Result-cases (process p e)) [
  | inl (result, done) ↦
      let ((j', u), _, _) = live_updates j live attempt result [] m.marked_at in
      (
        acked,
        rw (carry_out, done)
            (mark_of_live m e.id (mark_succeeded attempt result m.marked_at) acked jobs j j' calm
              found u),
      )
  | inr (failure, out) ↦
      let (_, (j', u), (i, v)) =
        live_updates j live attempt no_result (describe failure) m.marked_at in
      elim (Bool-cases (is_permanent failure || int_le e.max_attempts attempt)) [
        | inl last ↦ (
          rejected false,
          rw (carry_out, out, last)
              (mark_of_live m e.id (mark_failed attempt (describe failure) m.marked_at)
                (rejected false) jobs j j' calm found u),
        )
        | inr again ↦ (
          rejected true,
          rw (carry_out, out, again)
              (mark_of_live m e.id (mark_retrying attempt (describe failure) m.marked_at)
                (rejected true) jobs j i calm found v),
        )
      ]
]

-- In calm, every attempt ends with something told to the broker.
pub attempt_job_told :
    (p : Ports) (m : Moment) (e : Envelope) (attempt : ℤ) (jobs : List Job)
    → IsCalm m
    → (s : Settlement) × ((attempt_job p m e attempt jobs).outcome ≡ ok s)
unfolding attempt_job run
attempt_job_told p m e attempt jobs calm = elim (Bool-cases (is_succeeded prepared.1)) [
  | inl done ↦ (acked, rw (attempt_job, calm.prepared, done, calm.told))
  | inr going ↦ elim (Bool-cases (is_failed prepared.1)) [
    | inl done ↦ (rejected false, rw (attempt_job, calm.prepared, going, done, calm.told))
    | inr left ↦
        let (j, found, live) = prepared_live e attempt m.prepared_at jobs going left in
        let (s, told) = carry_out_told p m e attempt prepared.0 j calm found live in
        (s, rw (attempt_job, calm.prepared, going, left, calm.alone) told)
  ]
]
  where
    prepared : List Job × Status
    prepared = prepare e attempt m.prepared_at jobs
